-- ===== src/Tabs/Ids.antt =====
-- The ids of the open tabs: what each operation of the tab manager does to them.
use sync_tex.Base.{
  String, none, List, [], ◌∷◌, ◌++◌, map, ◌==◌, not, ◌≡◌, refl, ap, if◌then◌else◌, find, keep,
  is_some, arith, has, add, discard, Bool-cases, inl, inr, last?,
}
use mathlib.Core.Option
use sync_tex.Tabs.{Tab, TabPatch, Tabs, add_tab, update_tab, patch_tab, close_tab}

abbrev pub ids_of : List Tab → List String
ids_of = map (λ (t : Tab). t.id)

abbrev pub ids : Tabs → List String
ids s = ids_of s.open_tabs

pub is_some-find :
    (k : String) (ts : List Tab) → is_some (find (λ t. t.id == k) ts) ≡ has k (ids_of ts)
unfolding has
is_some-find k [] = refl
is_some-find k (t ∷ ts) = ground (arith, is_some-find k ts)

ids_of-append : (ts : List Tab) (t : Tab) → ids_of (ts ++ t ∷ []) ≡ ids_of ts ++ t.id ∷ []
ids_of-append [] t = refl
ids_of-append (u ∷ ts) t = ap (u.id ∷◌) (ids_of-append ts t)

pub ids-add_tab : (t : Tab) (s : Tabs) → ids (add_tab t s) ≡ add t.id (ids s)
unfolding add_tab add
ids-add_tab t s = elim (Bool-cases (has t.id (ids s))) [
  | inl old ↦ rw (is_some-find t.id s.open_tabs, old)
  | inr new ↦ rw (is_some-find t.id s.open_tabs, new) (ids_of-append s.open_tabs t)
]

pub ids_of-keep :
    (k : String) (ts : List Tab) → ids_of (keep (λ t. not (t.id == k)) ts) ≡ discard k (ids_of ts)
unfolding discard
ids_of-keep k [] = refl
ids_of-keep k (t ∷ ts) = ground (arith, ids_of-keep k ts)

pub ids-close_tab : (k : String) (s : Tabs) → ids (close_tab k s) ≡ discard k (ids s)
unfolding close_tab
ids-close_tab k s = ids_of-keep k s.open_tabs

pub ids-update_tab :
    (k : String) (p : TabPatch) (s : Tabs) → p.id ≡ none → ids (update_tab k p s) ≡ ids s
unfolding update_tab
ids-update_tab k p s e = go s.open_tabs
  where
    go : (ts : List Tab) → ids_of (map (λ t. if t.id == k then patch_tab t p else t) ts) ≡ ids_of ts
    go [] = refl
    go (t ∷ ts) = ground (arith, go ts)

pub last?-ids_of : (ts : List Tab) → Option.map (λ (t : Tab). t.id) (last? ts) ≡ last? (ids_of ts)
last?-ids_of [] = refl
last?-ids_of (t ∷ []) = refl
last?-ids_of (t ∷ u ∷ ts) = last?-ids_of (u ∷ ts)
