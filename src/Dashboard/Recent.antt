-- ===== src/Dashboard/Recent.antt =====
-- The projects that are called recent, and the form for joining.
use mathlib.Core.List.{Perm}
use mathlib.Core.List.Perm
use sync_tex.Panel.People.{sort_by, insert_by}
use sync_tex.Base.{
  ℕ, zero, suc, ◌≤◌, String, Option, none, some, List, [], ◌∷◌, ◌++◌, Bool, true, false, ◌≡◌, refl,
  arith, length, Value, drop, keep, is_some, ltb, Bool-cases, inl, inr, ap, All,
}
use sync_tex.Markup.{offers, Only, All-offers}
use sync_tex.Clients.Projects.{Project}
use sync_tex.Dashboard.{
  Dashboard, take, is_shown, newer, comes_first, recent, sorted_projects, recent_projects,
}
use sync_tex.Dashboard.Shown.{Call, Profile, join, header}

-- The calls but that of `onJoin`.
abbrev pub IsOther : Call → Type 0
IsOther join = ⊥
IsOther _ = Unit

-- Whoever is signed in, or nobody, and whatever the menu shows, the header calls nothing that opens the
-- form for joining a project.
pub header_never_joins :
    (initials : String → String) (profile : Option Profile) (menu : Bool)
    → All IsOther (offers (header initials profile menu))
unfolding header
header_never_joins initials profile menu =
    All-offers IsOther (header initials profile menu) (go profile menu)
  where
    go : (p : Option Profile) (m : Bool) → Only IsOther (header initials p m)
    go none m = (tt, ((tt, tt), tt))
    go (some p) true = (
      (((tt, tt), tt), ((tt, tt), tt)),
      (((tt, tt), (tt, (tt, tt))), ((tt, tt), (((tt, tt), tt), (((tt, tt), tt), ((tt, tt), tt))))),
    )
    go (some p) false = ((((tt, tt), tt), ((tt, tt), tt)), (((tt, tt), (tt, (tt, tt))), tt))

length-take {ℓ} : {A : Type ℓ} (n : ℕ) (xs : List A) → length (take n xs) ≤ n
length-take zero xs = omega arith
length-take (suc n) [] = omega arith
length-take (suc n) (x ∷ xs) = omega (arith, length-take n xs)

-- The time of a project's creation, 0 where it is missing.
abbrev pub created : Project → ℕ
created p = elim p.created_at [ none ↦ 0 | some t ↦ t ]

abbrev pub HasDate : Project → Type 0
HasDate p = is_some p.created_at ≡ true

-- Newest first.
abbrev IsSorted : List Project → Type 0
IsSorted [] = Unit
IsSorted (p ∷ ps) = All (λ q. created q ≤ created p) ps × IsSorted ps

insert_by-perm {ℓ} :
    {A : Type ℓ} (before : A → A → Bool) (x : A) (ys : List A)
    → Perm (insert_by before x ys) (x ∷ ys)
insert_by-perm before x [] = Perm.refl (x ∷ [])
insert_by-perm before x (y ∷ ys) = elim (Bool-cases (before y x)) [
  | inl later ↦ rw later (Perm.trans (Perm.cons y (insert_by-perm before x ys)) (Perm.swap x y ys))
  | inr here ↦ rw here (Perm.refl (x ∷ y ∷ ys))
]

sort_by-perm {ℓ} : {A : Type ℓ} (before : A → A → Bool) (xs : List A) → Perm (sort_by before xs) xs
unfolding sort_by
sort_by-perm before [] = Perm.refl []
sort_by-perm before (x ∷ xs) =
    Perm.trans (insert_by-perm before x (sort_by before xs)) (Perm.cons x (sort_by-perm before xs))

All-insert_by {ℓ κ} :
    {A : Type ℓ} (P : A → Type κ) (before : A → A → Bool) (x : A) (ys : List A)
    → P x
    → All P ys
    → All P (insert_by before x ys)
All-insert_by P before x [] h hs = (h, hs)
All-insert_by P before x (y ∷ ys) h (k, ks) = elim (Bool-cases (before y x)) [
  | inl later ↦ rw later (k, All-insert_by P before x ys h ks)
  | inr here ↦ rw here (h, (k, ks))
]

newer_of_dates :
    (a b : Option ℕ)
    → is_some a ≡ true
    → is_some b ≡ true
    → newer a b ≡ ltb (elim b [ none ↦ 0 | some t ↦ t ]) (elim a [ none ↦ 0 | some t ↦ t ])
newer_of_dates none b h k = cc
newer_of_dates (some a) none h k = cc
newer_of_dates (some a) (some b) h k = refl

All-trans :
    (n m : ℕ) (ps : List Project)
    → n ≤ m
    → All (λ q. created q ≤ n) ps
    → All (λ q. created q ≤ m) ps
All-trans n m [] le h = tt
All-trans n m (p ∷ ps) le (h, hs) = (omega (arith, h), All-trans n m ps le hs)

IsSorted-insert_by :
    (locale_before : String → String → Bool) (p : Project) (ps : List Project)
    → HasDate p
    → All HasDate ps
    → IsSorted ps
    → IsSorted (insert_by (comes_first locale_before recent) p ps)
unfolding comes_first
IsSorted-insert_by l p [] d ds h = (tt, tt)
IsSorted-insert_by l p (q ∷ qs) d (e, es) (k, ks) =
    let test = newer_of_dates q.created_at p.created_at e d in
    elim (Bool-cases (newer q.created_at p.created_at)) [
      | inl later ↦ rw later (
        All-insert_by (λ r. created r ≤ created q) (comes_first l recent) p qs
            (ground (arith, test, later)) k,
        IsSorted-insert_by l p qs d es ks,
      )
      | inr here ↦ rw here (
        (
          ground (arith, test, here),
          All-trans (created q) (created p) qs (ground (arith, test, here)) k,
        ),
        (k, ks),
      )
    ]

IsSorted-sort_by :
    (locale_before : String → String → Bool) (ps : List Project)
    → All HasDate ps
    → IsSorted (sort_by (comes_first locale_before recent) ps)
      × All HasDate (sort_by (comes_first locale_before recent) ps)
unfolding sort_by
IsSorted-sort_by l [] d = (tt, tt)
IsSorted-sort_by l (p ∷ ps) (d, ds) =
    let (sorted, dated) = IsSorted-sort_by l ps ds in
    (
      IsSorted-insert_by l p (sort_by (comes_first l recent) ps) d dated sorted,
      All-insert_by HasDate (comes_first l recent) p (sort_by (comes_first l recent) ps) d dated,
    )

All-drop :
    (m n : ℕ) (ps : List Project)
    → All (λ q. created q ≤ m) ps
    → All (λ q. created q ≤ m) (drop n ps)
All-drop m zero ps h = h
All-drop m (suc n) [] h = tt
All-drop m (suc n) (p ∷ ps) (h, hs) = All-drop m n ps hs

take-IsSorted :
    (n : ℕ) (ps : List Project)
    → IsSorted ps
    → All (λ p. All (λ q. created q ≤ created p) (drop n ps)) (take n ps)
take-IsSorted zero ps h = tt
take-IsSorted (suc n) [] h = tt
take-IsSorted (suc n) (p ∷ ps) (h, hs) = (All-drop (created p) n ps h, take-IsSorted n ps hs)

take-append-drop {ℓ} : {A : Type ℓ} (n : ℕ) (xs : List A) → take n xs ++ drop n xs ≡ xs
take-append-drop zero xs = refl
take-append-drop (suc n) [] = refl
take-append-drop (suc n) (x ∷ xs) = ap (x ∷◌) (take-append-drop n xs)

-- Where the projects that the filter shows have dates and the most recent come first, the recent
-- projects are at most six, together with the others of the list they are just the projects that the
-- filter shows, and none of the others is newer than one of them.
pub recent_projects_lem :
    (locale_before : String → String → Bool) (user_id : Value) (s : Dashboard)
    → s.sort_by ≡ recent
    → All HasDate (keep (is_shown s.filter user_id) s.projects)
    → (length (recent_projects locale_before user_id s) ≤ 6)
      × Perm
          (recent_projects locale_before user_id s
            ++ drop 6 (sorted_projects locale_before user_id s))
          (keep (is_shown s.filter user_id) s.projects)
      × All
          (λ p. All (λ q. created q ≤ created p) (drop 6 (sorted_projects locale_before user_id s)))
          (recent_projects locale_before user_id s)
unfolding recent_projects sorted_projects
recent_projects_lem l user s order dated =
    let shown = keep (is_shown s.filter user) s.projects in
    let sorted = sort_by (comes_first l s.sort_by) shown in
    (
      length-take 6 sorted,
      rw (take-append-drop 6 sorted) (sort_by-perm (comes_first l s.sort_by) shown),
      rw order (
          take-IsSorted 6 (sort_by (comes_first l recent) shown)
            (IsSorted-sort_by l shown dated).0),
    )
