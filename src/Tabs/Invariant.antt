-- ===== src/Tabs/Invariant.antt =====
-- The invariant of the tab manager, over every sequence of its operations.
use sync_tex.Base.{
  String, Option, none, some, List, [], ◌∷◌, ◌==◌, eq_iff, true, ◌≡◌, refl, find, arith, has,
  discard, Bool-cases, Option-cases, inl, inr, last?, ◌⊎◌, Distinct, Distinct-add, Distinct-discard,
  has-add, has-discard, ap, sym, ◌∙◌,
}
use sync_tex.Tabs.{
  Tab, TabPatch, Tabs, no_tabs, add_tab, update_tab, handle_tab_select, close_tab,
  active_after_close, active_tab,
}
use sync_tex.Tabs.Ids.{
  ids_of, ids, ids-add_tab, ids-close_tab, ids_of-keep, ids-update_tab, last?-ids_of,
}

-- The active id is that of an open tab, and it is null only when no tab is open.
abbrev pub ActiveIsOpen : Option String → List String → Type 0
ActiveIsOpen none open_ids = open_ids ≡ []
ActiveIsOpen (some tab_id) open_ids = has tab_id open_ids ≡ true

pub record IsValid (s : Tabs) : Type 0 where
  pub distinct : Distinct (ids s)
  pub active : ActiveIsOpen s.active_tab_id (ids s)

pub data Action : Type 0 where
  add_a : Tab → Action
  update : String → TabPatch → Action
  select close : String → Action

unfoldable pub act : Tabs → Action → Tabs
act s (add_a t) = add_tab t s
act s (update k p) = update_tab k p s
act s (select k) = handle_tab_select k s
act s (close k) = close_tab k s

-- What the callers keep to: the tab bar offers the open tabs alone, and no patch changes an id.
abbrev pub Allowed : Tabs → Action → Type 0
Allowed s (add_a t) = Unit
Allowed s (update k p) = p.id ≡ none
Allowed s (select k) = has k (ids s) ≡ true
Allowed s (close k) = Unit

has-last? : (xs : List String) {x : String} → last? xs ≡ some x → has x xs ≡ true
unfolding has
has-last? [] e = cc
has-last? (y ∷ []) {x} e = ground (arith, eq_iff y x)
has-last? (y ∷ z ∷ xs) {x} e = ground (arith, has-last? (z ∷ xs) {x = x})

last?-eq-none : (xs : List String) → last? xs ≡ none → xs ≡ []
last?-eq-none [] e = refl
last?-eq-none (x ∷ []) e = cc
last?-eq-none (x ∷ y ∷ xs) e = let n = last?-eq-none (y ∷ xs) e in cc

ActiveIsOpen-last? : (xs : List String) → ActiveIsOpen (last? xs) xs
ActiveIsOpen-last? xs = elim (Option-cases (last? xs)) [
  | inl e ↦ rw e (last?-eq-none xs e)
  | inr (x, e) ↦ rw e (has-last? xs e)
]

ActiveIsOpen-close :
    (k : String) (remaining : List Tab) (before : List String) (o : Option String)
    → ids_of remaining ≡ discard k before
    → ActiveIsOpen o before
    → ActiveIsOpen (active_after_close k remaining o) (ids_of remaining)
unfolding discard
ActiveIsOpen-close k remaining before none e h = e ∙ ap (discard k) h
ActiveIsOpen-close k remaining before (some x) e h = elim (Bool-cases (x == k)) [
  | inl same ↦ rw (same, last?-ids_of) (ActiveIsOpen-last? (ids_of remaining))
  | inr other ↦ rw (other, e) (ground (arith, has-discard k x before, eq_iff x k, eq_iff k x))
]

add_tab-IsValid : (s : Tabs) (t : Tab) → IsValid s → IsValid (add_tab t s)
add_tab-IsValid s t v = record {
  distinct = rw ids-add_tab (Distinct-add t.id (ids s) v.distinct);
  active =
      unfold add_tab in
      rw (ids-add_tab t s) (ground (arith, has-add t.id t.id (ids s), eq_iff t.id t.id));
}

update_tab-IsValid :
    (s : Tabs) (k : String) (p : TabPatch) → p.id ≡ none → IsValid s → IsValid (update_tab k p s)
update_tab-IsValid s k p e v = record {
  distinct = rw (ids-update_tab k p s e) v.distinct;
  active = rw (ids-update_tab k p s e) (unfold update_tab in v.active);
}

close_tab-IsValid : (s : Tabs) (k : String) → IsValid s → IsValid (close_tab k s)
close_tab-IsValid s k v = record {
  distinct = rw ids-close_tab (Distinct-discard k (ids s) v.distinct);
  active =
      unfold close_tab in
      ActiveIsOpen-close k _ (ids s) s.active_tab_id (ids_of-keep k s.open_tabs) v.active;
}

-- Every allowed operation keeps the tab ids distinct and the active id among them.
pub act-IsValid : (s : Tabs) (a : Action) → IsValid s → Allowed s a → IsValid (act s a)
unfolding act
act-IsValid s (add_a t) v h = add_tab-IsValid s t v
act-IsValid s (update k p) v h = update_tab-IsValid s k p h v
act-IsValid s (select k) v h =
    unfold handle_tab_select in record { distinct = v.distinct; active = h }
act-IsValid s (close k) v h = close_tab-IsValid s k v

abbrev pub AllAllowed : Tabs → List Action → Type 0
AllAllowed s [] = Unit
AllAllowed s (a ∷ actions) = Allowed s a × AllAllowed (act s a) actions

abbrev pub run : Tabs → List Action → Tabs
run s [] = s
run s (a ∷ actions) = run (act s a) actions

pub run-IsValid :
    (s : Tabs) (actions : List Action) → IsValid s → AllAllowed s actions → IsValid (run s actions)
run-IsValid s [] v h = v
run-IsValid s (a ∷ actions) v (h, hs) = run-IsValid (act s a) actions (act-IsValid s a v h) hs

no_tabs-IsValid : IsValid no_tabs
no_tabs-IsValid = record { distinct = tt; active = refl }

find-of_has :
    (k : String) (ts : List Tab)
    → has k (ids_of ts) ≡ true
    → (t : Tab) × (find (λ u. u.id == k) ts ≡ some t) × (t.id ≡ k)
unfolding has
find-of_has k [] h = cc
find-of_has k (t ∷ ts) h = elim (Bool-cases (t.id == k)) [
  | inl same ↦ (t, rw same, (eq_iff t.id k).0 same)
  | inr other ↦ let (u, e, i) = find-of_has k ts (rw other at h) in (u, rw other e, i)
]

-- From an empty editor, after any sequence of adding, updating, selecting and closing in which
-- a select names an open tab and a patch leaves the id alone: the ids of the open tabs are
-- pairwise distinct; no tab is active only if no tab is open; and otherwise the active tab that
-- the editor shows exists, and its id is the active id.
pub run-active_tab :
    (actions : List Action)
    → AllAllowed no_tabs actions
    → Distinct (ids (run no_tabs actions))
      × (((run no_tabs actions).active_tab_id ≡ none) × ((run no_tabs actions).open_tabs ≡ [])
          ⊎ ((t : Tab) × (active_tab (run no_tabs actions) ≡ some t)
              × ((run no_tabs actions).active_tab_id ≡ some t.id)))
unfolding active_tab
run-active_tab actions h =
    let v = run-IsValid no_tabs actions no_tabs-IsValid h in
    (v.distinct, go (run no_tabs actions) (run no_tabs actions).active_tab_id refl v.active)
  where
    empty : (ts : List Tab) → ids_of ts ≡ [] → ts ≡ []
    empty [] e = refl
    empty (t ∷ ts) e = cc

    go :
        (s : Tabs) (o : Option String)
        → s.active_tab_id ≡ o
        → ActiveIsOpen o (ids s)
        → ((s.active_tab_id ≡ none) × (s.open_tabs ≡ []))
          ⊎ ((t : Tab) × (active_tab s ≡ some t) × (s.active_tab_id ≡ some t.id))
    go s none e a = inl (e, empty s.open_tabs a)
    go s (some k) e a =
        let (t, found, same) = find-of_has k s.open_tabs a in
        inr (t, rw (e, active_tab) found, e ∙ ap some (sym same))
