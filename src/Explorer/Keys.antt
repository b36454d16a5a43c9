-- ===== src/Explorer/Keys.antt =====
-- The keys of the list move the focus within it.
use sync_tex.Base.{
  ℕ, zero, suc, ◌+◌, ◌<◌, String, Option, none, some, List, [], ◌∷◌, ◌==◌, true, false, ◌≡◌, refl,
  arith, eqb, length, get_elem?, Bool-cases, inl, inr, has, eq_refl,
}
use sync_tex.Explorer.{
  Explorer, Index, Key, arrow_down, arrow_up, home, end_key, visible_ids, next_index, index_from,
  handle_list_key_down,
}

index_from-bound :
    (i : ℕ) (id : Option String) (ids : List String)
    → 0 < length ids
    → index_from i id ids < i + length ids
index_from-bound i none ids h = omega (arith, h)
index_from-bound i (some id) [] h = omega (arith, h)
index_from-bound i (some id) (x ∷ []) h = ground (arith)
index_from-bound i (some id) (x ∷ y ∷ ids) h =
    let ih = index_from-bound (i + 1) (some id) (y ∷ ids) (omega arith) in
    elim (Bool-cases (x == id)) [
      | inl same ↦ rw same (omega arith)
      | inr other ↦ rw other (omega (arith, ih))
    ]

from_start :
    (id : Option String) (ids : List String) → 0 < length ids → index_from 0 id ids < length ids
from_start id ids h = omega (arith, index_from-bound 0 id ids h)

next_index-bound :
    (key : Key) (count current : ℕ) → current < count → next_index key count current < count
unfolding next_index
next_index-bound arrow_down count current h = ground arith
next_index-bound arrow_up count current h = ground arith
next_index-bound home count current h = ground arith
next_index-bound end_key count current h = ground arith

has_of_get_elem? :
    (ids : List String) (i : ℕ)
    → i < length ids
    → (id : String) × (get_elem? ids i ≡ some id) × (has id ids ≡ true)
unfolding has
has_of_get_elem? [] i h = absurd (omega (arith, h))
has_of_get_elem? (x ∷ ids) zero h = (x, refl, rw (eq_refl x) refl)
has_of_get_elem? (x ∷ ids) (suc i) h =
    let (id, e, there) = has_of_get_elem? ids i (omega (arith, h)) in (id, e, ground (arith, there))

-- An arrow key, Home or End in a list that is not empty focuses and selects an item of the list, if
-- neither an edit nor a menu is open.
pub handle_list_key_down_lem :
    (ix : Index) (key : Key) (s : Explorer)
    → s.edit ≡ none
    → s.context_menu ≡ false
    → 0 < length (visible_ids ix s)
    → (id : String) × ((handle_list_key_down ix key s).focused_node_id ≡ some id)
      × ((handle_list_key_down ix key s).selected_node_id ≡ some id)
      × (has id (visible_ids ix s) ≡ true)
unfolding handle_list_key_down
handle_list_key_down_lem ix key s no_edit no_menu h =
    let low = next_index-bound key _ _ (from_start s.focused_node_id (visible_ids ix s) h) in
    let (id, e, there) = has_of_get_elem? (visible_ids ix s) _ low in
    let test = has_items (length (visible_ids ix s)) h in
    rw (no_edit, no_menu, test, e) (id, refl, refl, there)
  where
    has_items : (n : ℕ) → 0 < n → eqb n 0 ≡ false
    has_items n h = ground (arith, h)
