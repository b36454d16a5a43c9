-- ===== src/Panel/Rows.antt =====
-- The rows of the editors who are connected.
use sync_tex.Base.{
  ℕ, suc, has, Distinct, Distinct-append, map, Bool-cases, inl, inr, true, false, ap, ◌∙◌, Bool,
  is_some, String, Option, none, some, List, [], ◌∷◌, ◌==◌, eq_iff, if◌then◌else◌, ◌≡◌, refl, arith,
  find, Dict, lookup, insert, lookup-insert, ◌++◌, Value,
}
use sync_tex.Collab.Presence.{AwarenessUser}
use sync_tex.Markup.{titles}
use sync_tex.Panel.{Panel, members, tab_selected}
use sync_tex.Panel.Shown.{collaborators_panel}
use sync_tex.Panel.Titles.{collaborators_panel-titles}
use sync_tex.Panel.People.{
  get_display_name, by_key, insert_by, sort_by, live_editor_rows, Person, primary_key, live_row,
  add_row, rows_by_user,
}

-- The first editor with a key, as a row.
abbrev pub first_row : Dict Person → String → List AwarenessUser → Option Person
first_row collaborators k editors = elim (find (λ e. primary_key e == k) editors) [
  | none ↦ none
  | some editor ↦ some (live_row collaborators editor)
]

abbrev or_first : Option Person → Option Person → Option Person
or_first none other = other
or_first (some person) other = some person

or_first-none : (o : Option Person) → o ≡ or_first o none
or_first-none none = refl
or_first-none (some person) = refl

-- Where the key has a row, the row stays; where it has none, the editor's is put there.
lookup-set_once :
    (p k : String) (r : Person) (rest : Option Person) (rows : Dict Person)
    → or_first (lookup k (if is_some (lookup p rows) then rows else insert p r rows)) rest
      ≡ or_first (lookup k rows) (if p == k then some r else rest)
lookup-set_once p k r rest rows = ground (arith, eq_iff p k, lookup-insert p k r rows)

lookup-add_row :
    (collaborators : Dict Person) (k : String) (editor : AwarenessUser)
    (editors : List AwarenessUser) (rows : Dict Person)
    → or_first (lookup k (add_row collaborators editor rows)) (first_row collaborators k editors)
      ≡ or_first (lookup k rows) (first_row collaborators k (editor ∷ editors))
lookup-add_row collaborators k editor editors rows =
    lookup-set_once (primary_key editor) k (live_row collaborators editor)
      (first_row collaborators k editors) rows
    ∙ ap (or_first (lookup k rows)) (go (primary_key editor == k))
  where
    go :
        (b : Bool)
        → (if b then some (live_row collaborators editor) else first_row collaborators k editors)
          ≡ elim (if b then some editor else find (λ e. primary_key e == k) editors)
              as (λ _. Option Person) [ none ↦ none | some e ↦ some (live_row collaborators e) ]
    go true = refl
    go false = refl

lookup-rows_by_user :
    (collaborators : Dict Person) (k : String) (editors : List AwarenessUser) (rows : Dict Person)
    → lookup k (rows_by_user collaborators editors rows)
      ≡ or_first (lookup k rows) (first_row collaborators k editors)
unfolding rows_by_user
lookup-rows_by_user collaborators k [] rows = or_first-none (lookup k rows)
lookup-rows_by_user collaborators k (editor ∷ editors) rows =
    lookup-rows_by_user collaborators k editors (add_row collaborators editor rows)
    ∙ lookup-add_row collaborators k editor editors rows

abbrev pub count {ℓ} : {A : Type ℓ} → (A → Bool) → List A → ℕ
count p [] = 0
count p (x ∷ xs) = let rest = count p xs in if p x then suc rest else rest

count-insert_by {ℓ} :
    {A : Type ℓ} (before : A → A → Bool) (p : A → Bool) (x : A) (ys : List A)
    → count p (insert_by before x ys) ≡ count p (x ∷ ys)
count-insert_by before p x [] = refl
count-insert_by before p x (y ∷ ys) = elim (Bool-cases (before y x)) [
  | inl first ↦ rw first (
      ap (λ n. if p y then suc n else n) (count-insert_by before p x ys)
      ∙ swap (p y) (p x) (count p ys))
  | inr second ↦ rw second refl
]
  where
    swap :
        (a b : Bool) (n : ℕ)
        → (if a then suc (if b then suc n else n) else (if b then suc n else n))
          ≡ (if b then suc (if a then suc n else n) else (if a then suc n else n))
    swap true true n = refl
    swap true false n = refl
    swap false true n = refl
    swap false false n = refl

-- Sorting keeps what is in a list, as often as it is there.
count-sort_by {ℓ} :
    {A : Type ℓ} (before : A → A → Bool) (p : A → Bool) (xs : List A)
    → count p (sort_by before xs) ≡ count p xs
unfolding sort_by
count-sort_by before p [] = refl
count-sort_by before p (x ∷ xs) =
    count-insert_by before p x (sort_by before xs)
    ∙ ap (λ n. if p x then suc n else n) (count-sort_by before p xs)

abbrev pub keys : Dict Person → List String
keys [] = []
keys (entry ∷ rows) = entry.0 ∷ keys rows

new_key :
    (k : String) (rows : Dict Person) → is_some (lookup k rows) ≡ false → has k (keys rows) ≡ false
unfolding lookup has
new_key k [] h = refl
new_key k ((j, person) ∷ rows) h = ground (arith, new_key k rows)

keys-insert :
    (k : String) (person : Person) (rows : Dict Person)
    → is_some (lookup k rows) ≡ false
    → keys (insert k person rows) ≡ keys rows ++ k ∷ []
unfolding lookup insert
keys-insert k person [] h = refl
keys-insert k person ((j, other) ∷ rows) h = elim (Bool-cases (j == k)) [
  | inl same ↦ let no : true ≡ false = rw (same) at h in cc
  | inr different ↦ rw different (ap (j ∷◌) (keys-insert k person rows (rw (different) at h)))
]

Distinct-add_row :
    (collaborators : Dict Person) (editor : AwarenessUser) (rows : Dict Person)
    → Distinct (keys rows)
    → Distinct (keys (add_row collaborators editor rows))
Distinct-add_row collaborators editor rows d =
    elim (Bool-cases (is_some (lookup (primary_key editor) rows))) [
      | inl there ↦ rw there d
      | inr new ↦ rw new (
          rw (keys-insert (primary_key editor) (live_row collaborators editor) rows new) (
            Distinct-append (primary_key editor) (keys rows) (new_key (primary_key editor) rows new)
              d))
    ]

Distinct-rows_by_user :
    (collaborators : Dict Person) (editors : List AwarenessUser) (rows : Dict Person)
    → Distinct (keys rows)
    → Distinct (keys (rows_by_user collaborators editors rows))
unfolding rows_by_user
Distinct-rows_by_user collaborators [] rows d = d
Distinct-rows_by_user collaborators (editor ∷ editors) rows d =
    Distinct-rows_by_user collaborators editors (add_row collaborators editor rows)
      (Distinct-add_row collaborators editor rows d)

-- No key has two rows, and the row of a key is that of the first live editor with the key; so a user who
-- is connected in several tabs has one row, and no live editor is without one. The list of the rows holds
-- just these, each as often, whichever order names have; and while the tab of the members is shown, the titles of the panel
-- are the names of the rows in the list's order and, unless the panel is loading, one of a button that
-- removes for each member.
pub first_editor_shown :
    (locale_before : String → String → Bool) (upper : String → String) (day : Value → String)
    (editors : List AwarenessUser) (s : Panel) (k : String) (p : Person → Bool)
    → Distinct (keys (rows_by_user (by_key s.collaborators) editors []))
      × (lookup k (rows_by_user (by_key s.collaborators) editors [])
          ≡ first_row (by_key s.collaborators) k editors)
      × (count p (live_editor_rows locale_before s.collaborators editors)
          ≡ count p (map (λ entry. entry.1) (rows_by_user (by_key s.collaborators) editors [])))
      × (titles (collaborators_panel locale_before upper day editors (tab_selected members s))
          ≡ map get_display_name (live_editor_rows locale_before s.collaborators editors)
            ++ (if s.loading then [] else map (λ _. "Remove collaborator") s.collaborators))
unfolding live_editor_rows lookup tab_selected
first_editor_shown locale_before upper day editors s k p = (
  Distinct-rows_by_user (by_key s.collaborators) editors [] tt,
  lookup-rows_by_user (by_key s.collaborators) k editors [],
  count-sort_by _ p _,
  collaborators_panel-titles upper day locale_before editors (tab_selected members s) refl,
)
