-- ===== src/Base/Maps.antt =====
-- Objects and `Map`s that the program uses as dictionaries with text keys, and `Set`s of texts.
-- They are association lists in the order of insertion.
use Prim.Native.String.{String}
use mathlib.Core.Path.{◌≡◌, refl}
use mathlib.Core.Bool.{Bool, false, not, ◌&&◌, ◌||◌}
use mathlib.Core.Logic.{inl, inr}
use mathlib.Core.Option.{Option, none, some}
use mathlib.Core.List.{List, [], ◌∷◌, ◌++◌}
use native.Mathlib.Omega.{arith}
use text.Mathlib.Text.{◌==◌}
use text.Mathlib.TextEquality.{eq_iff}
use sync_tex.Base.Tests.{if◌then◌else◌, Bool-cases}

abbrev pub Dict {ℓ} : Type ℓ → Type ℓ
Dict V = List (String × V)

module _ {ℓ} {V : Type ℓ} where
  -- `d[k]`, `m.get(k)`
  unfoldable pub lookup : String → Dict V → Option V
  lookup k [] = none
  lookup k ((j, v) ∷ d) = if j == k then some v else lookup k d

  -- `d[k] = v`, `{ ...d, [k]: v }`, `m.set(k, v)`: a key that is there keeps its place.
  unfoldable pub insert : String → V → Dict V → Dict V
  insert k v [] = (k, v) ∷ []
  insert k v ((j, w) ∷ d) = if j == k then (k, v) ∷ d else (j, w) ∷ insert k v d

  -- `delete d[k]`, `m.delete(k)`
  unfoldable pub remove : String → Dict V → Dict V
  remove k [] = []
  remove k ((j, w) ∷ d) = let rest = remove k d in if j == k then rest else (j, w) ∷ rest

  pub lookup-insert :
      (k j : String) (v : V) (d : Dict V)
      → lookup j (insert k v d) ≡ (if k == j then some v else lookup j d)
  unfolding lookup insert
  lookup-insert k j v [] = refl
  lookup-insert k j v ((i, w) ∷ d) =
      ground (arith, eq_iff k j, eq_iff i k, eq_iff i j, lookup-insert k j v d)

  pub lookup-remove :
      (k j : String) (d : Dict V) → lookup j (remove k d) ≡ (if k == j then none else lookup j d)
  unfolding lookup remove
  lookup-remove k j [] = ground arith
  lookup-remove k j ((i, w) ∷ d) =
      ground (arith, eq_iff k j, eq_iff i k, eq_iff i j, lookup-remove k j d)

-- `s.has(x)`
unfoldable pub has : String → List String → Bool
has x [] = false
has x (y ∷ s) = (y == x) || has x s

-- `s.add(x)`
unfoldable pub add : String → List String → List String
add x s = if has x s then s else s ++ x ∷ []

-- `s.delete(x)`
unfoldable pub discard : String → List String → List String
discard x [] = []
discard x (y ∷ s) = let rest = discard x s in if y == x then rest else y ∷ rest

pub has-concat : (x : String) (s t : List String) → has x (s ++ t) ≡ (has x s || has x t)
unfolding has
has-concat x [] t = refl
has-concat x (y ∷ s) t = ground (arith, has-concat x s t)

pub has-append : (x y : String) (s : List String) → has x (s ++ y ∷ []) ≡ (has x s || (y == x))
unfolding has
has-append x y [] = ground arith
has-append x y (z ∷ s) = ground (arith, has-append x y s)

pub has-add : (x y : String) (s : List String) → has y (add x s) ≡ ((x == y) || has y s)
unfolding add
has-add x y s = ground (arith, has-append y x s, eq_iff x y)

pub has-discard : (x y : String) (s : List String) → has y (discard x s) ≡ (not (x == y) && has y s)
unfolding has discard
has-discard x y [] = ground arith
has-discard x y (z ∷ s) = ground (arith, eq_iff z x, eq_iff z y, eq_iff x y, has-discard x y s)

-- No text twice.
abbrev pub Distinct : List String → Type 0
Distinct [] = Unit
Distinct (x ∷ s) = (has x s ≡ false) × Distinct s

pub Distinct-append :
    (x : String) (s : List String) → has x s ≡ false → Distinct s → Distinct (s ++ x ∷ [])
unfolding has
Distinct-append x [] h d = (refl, tt)
Distinct-append x (y ∷ s) h (n, d) =
    (ground (arith, has-append y x s, eq_iff x y, eq_iff y x), Distinct-append x s (ground arith) d)

pub Distinct-add : (x : String) (s : List String) → Distinct s → Distinct (add x s)
unfolding add
Distinct-add x s d = elim (Bool-cases (has x s)) [
  | inl old ↦ rw old d
  | inr new ↦ rw new (Distinct-append x s new d)
]

pub Distinct-discard : (x : String) (s : List String) → Distinct s → Distinct (discard x s)
unfolding discard
Distinct-discard x [] d = tt
Distinct-discard x (y ∷ s) (n, d) = elim (Bool-cases (y == x)) [
  | inl same ↦ rw same (Distinct-discard x s d)
  | inr other ↦ rw other (ground (arith, has-discard x y s), Distinct-discard x s d)
]

pub discard_of_not-has : (x : String) (s : List String) → has x s ≡ false → discard x s ≡ s
unfolding has discard
discard_of_not-has x [] h = refl
discard_of_not-has x (y ∷ s) h = ground (arith, discard_of_not-has x s)

pub discard-append :
    (x y : String) (s : List String)
    → discard x (s ++ y ∷ []) ≡ discard x s ++ (if y == x then [] else y ∷ [])
unfolding discard
discard-append x y [] = ground arith
discard-append x y (z ∷ s) = ground (arith, discard-append x y s)
