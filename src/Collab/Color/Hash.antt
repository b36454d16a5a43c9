-- ===== src/Collab/Color/Hash.antt =====
-- The hash of a user id, and the colour that it picks.
use Prim.Native.Nat.{◌^◌}
use native.Mathlib.Nat.{pow-suc}
use sync_tex.Base.{
  ℕ, zero, suc, ◌+◌, ◌*◌, ◌%◌, ◌<◌, String, some, List, [], ◌∷◌, true, ◌≡◌, refl, ◌∙◌, arith,
  get_elem?, length, str, All,
}
use sync_tex.Collab.Color.{
  awareness_colors, word, hash_step, hash_from, color_index, color_for_user_id, is_hex_color,
}

-- The sum of `units[i] * 31 ^ (n - 1 - i)`, with no bound.
abbrev pub hash_sum : List ℕ → ℕ
hash_sum [] = 0
hash_sum (u ∷ us) = u * 31 ^ length us + hash_sum us

-- The same, from the left.
horner : ℕ → List ℕ → ℕ
horner acc [] = acc
horner acc (u ∷ us) = horner (acc * 31 + u) us

horner-eq : (acc : ℕ) (us : List ℕ) → horner acc us ≡ acc * 31 ^ length us + hash_sum us
unfolding horner
horner-eq acc [] = omega arith
horner-eq acc (u ∷ us) = horner-eq (acc * 31 + u) us ∙ rw (pow-suc 31 (length us)) (grind arith)

hash_step-mod : (h acc u : ℕ) → h ≡ acc % word → hash_step h u ≡ (acc * 31 + u) % word
unfolding hash_step
hash_step-mod h acc u e = omega arith

hash_from-horner :
    (h acc : ℕ) (us : List ℕ) → h ≡ acc % word → hash_from h us ≡ horner acc us % word
unfolding hash_from horner
hash_from-horner h acc [] e = e
hash_from-horner h acc (u ∷ us) e =
    hash_from-horner (hash_step h u) (acc * 31 + u) us (hash_step-mod h acc u e)

-- The hash that the loop of shifts, subtractions and 32-bit truncations leaves is the sum of the
-- UTF-16 units times the powers of 31, modulo 2 ^ 32.
pub hash_from-eq-sum : (us : List ℕ) → hash_from 0 us ≡ hash_sum us % word
hash_from-eq-sum us = hash_from-horner 0 0 us refl ∙ rw (horner-eq 0 us) (omega arith)

color_index-lt : (id : String) → color_index id < 16
unfolding color_index
color_index-lt id = omega arith

get_elem?_of_All :
    (P : String → Type 0) (xs : List String) (i : ℕ)
    → All P xs
    → i < length xs
    → (x : String) × (get_elem? xs i ≡ some x) × P x
get_elem?_of_All P [] i h lt = absurd (omega arith)
get_elem?_of_All P (x ∷ xs) zero h lt = (x, refl, h.0)
get_elem?_of_All P (x ∷ xs) (suc i) h lt = get_elem?_of_All P xs i h.1 (omega arith)

palette-hex : All (λ c. is_hex_color (str c) ≡ true) awareness_colors
unfolding is_hex_color
palette-hex = (refl, (refl, (refl, (refl, (refl, (refl, (refl, (refl, eight_more))))))))
  where
    eight_more :
        All
          (λ c. is_hex_color (str c) ≡ true)
          ("#db2777" ∷ "#0891b2" ∷ "#65a30d" ∷ "#9333ea" ∷ "#ea580c" ∷ "#0284c7" ∷ "#16a34a"
            ∷ "#e11d48" ∷ [])
    eight_more = (refl, (refl, (refl, (refl, (refl, (refl, (refl, (refl, tt))))))))

-- Every user id has a colour: the index is never out of the palette, and the colour is one that
-- `isHexColor` accepts.
pub color_for_user_id-hex :
    (id : String) → (c : String) × (color_for_user_id id ≡ some c) × (is_hex_color (str c) ≡ true)
unfolding color_for_user_id
color_for_user_id-hex id =
    get_elem?_of_All (λ c. is_hex_color (str c) ≡ true) awareness_colors (color_index id)
      palette-hex (color_index-lt id)
