-- ===== src/Base/Texts.antt =====
-- Texts as JavaScript sees them: UTF-16 code units.
use Prim.Native.Nat.{ℕ, ◌+◌, ◌-◌, ◌/◌, ◌%◌}
use mathlib.Core.Bool.{Bool, ◌&&◌, ◌||◌}
use mathlib.Core.Path.{◌≡◌, refl}
use text.Mathlib.Text.{◌==◌}
use Prim.Native.Char.{code}
use Prim.Native.String.{String}
use Prim.Native.String
use mathlib.Core.List.{List, [], ◌∷◌}
use sync_tex.Base.Tests.{if◌then◌else◌, ltb, leb, eqb}

-- A character beyond the first 65,536 is a pair of surrogates.
abbrev pub unit_pair : ℕ → List ℕ → List ℕ
unit_pair c rest =
    if ltb c 0x10000
    then c ∷ rest
    else (0xd800 + (c - 0x10000) / 0x400) ∷ (0xdc00 + (c - 0x10000) % 0x400) ∷ rest

-- `s.charCodeAt(0)`, `s.charCodeAt(1)`, …
unfoldable pub units : String → List ℕ
units String.[] = []
units (String.◌∷◌ c s) = unit_pair (code c) (units s)

-- A template literal, as the list of its pieces.
abbrev pub template : List String → String
template [] = String.[]
template (s ∷ pieces) = String.◌++◌ s (template pieces)

-- White space and line ends, as `trim` removes them.
abbrev pub is_space : ℕ → Bool
is_space c =
    leb 9 c && leb c 13
    || eqb c 32
    || eqb c 160
    || eqb c 0x1680
    || leb 0x2000 c && leb c 0x200a
    || eqb c 0x2028
    || eqb c 0x2029
    || eqb c 0x202f
    || eqb c 0x205f
    || eqb c 0x3000
    || eqb c 0xfeff

unfoldable pub trim_start : String → String
trim_start String.[] = String.[]
trim_start (String.◌∷◌ c s) =
    let rest = trim_start s in if is_space (code c) then rest else String.◌∷◌ c s

unfoldable pub trim_end : String → String
trim_end String.[] = String.[]
trim_end (String.◌∷◌ c s) =
    let rest = trim_end s in
    if is_space (code c) && (rest == "") then String.[] else String.◌∷◌ c rest

-- `s.trim()`
unfoldable pub trim : String → String
unfolding trim_start trim_end
trim s = trim_end (trim_start s)

abbrev width : ℕ → ℕ
width c = if ltb c 0x10000 then 1 else 2

-- `s.slice(0, n)`; a pair of surrogates that would be cut is left out.
unfoldable pub take_units : ℕ → String → String
take_units n String.[] = String.[]
take_units n (String.◌∷◌ c s) =
    let rest = take_units (n - width (code c)) s in
    if leb (width (code c)) n then String.◌∷◌ c rest else String.[]

trim-both : trim "  a b \n" ≡ "a b"
unfolding trim
trim-both = refl

take_units-three : take_units 3 "λabc" ≡ "λab"
unfolding take_units
take_units-three = refl
