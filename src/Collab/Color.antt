-- ===== src/Collab/Color.antt =====
-- `colorForUserId`, `isHexColor` and `colorWithAlpha` of frontend/src/api/session.js.
pub mod Hash
pub mod Hex
use Prim.Native.String
use mathlib.Core.Bool.{◌&&◌, ◌||◌}
use sync_tex.Base.{
  ℕ, zero, suc, ◌+◌, ◌-◌, ◌*◌, ◌/◌, ◌%◌, ◌≤◌, ◌<◌, String, Option, none, some, List, [], ◌∷◌, Bool,
  true, false, ◌≡◌, refl, if◌then◌else◌, arith, ltb, leb, eqb, get_elem?, length, units, Value,
  undefined, null, bool, num, str, decimal, digit, All,
}

abbrev awareness_colors : List String
awareness_colors =
    "#1f80dd" ∷ "#0f9f6e" ∷ "#c2410c" ∷ "#7c3aed" ∷ "#be123c" ∷ "#047857" ∷ "#b45309" ∷ "#2563eb"
    ∷ "#db2777" ∷ "#0891b2" ∷ "#65a30d" ∷ "#9333ea" ∷ "#ea580c" ∷ "#0284c7" ∷ "#16a34a" ∷ "#e11d48"
    ∷ []

-- A signed 32-bit integer is held as its bit pattern, below 2 ^ 32.
abbrev pub word : ℕ
word = 0x1_0000_0000

-- `((hash << 5) - hash + unit) | 0`
hash_step : ℕ → ℕ → ℕ
hash_step hash unit = ((hash * 32) % word + word - hash + unit) % word

pub hash_from : ℕ → List ℕ → ℕ
unfolding hash_step
hash_from hash [] = hash
hash_from hash (unit ∷ rest) = hash_from (hash_step hash unit) rest

-- `Math.abs(hash)`, of the integer that the pattern stands for
abbrev abs_word : ℕ → ℕ
abs_word hash = if ltb hash 0x8000_0000 then hash else word - hash

unfoldable pub color_index : String → ℕ
unfolding hash_from
color_index id = abs_word (hash_from 0 (units id)) % length awareness_colors

-- An index out of range gives undefined.
unfoldable pub color_for_user_id : String → Option String
unfolding color_index
color_for_user_id id = get_elem? awareness_colors (color_index id)

pub is_hex_digit : ℕ → Bool
is_hex_digit c =
    (leb b'0' c && leb c b'9') || (leb b'a' c && leb c b'f') || (leb b'A' c && leb c b'F')

-- `/^#[0-9a-f]{6}$/i`
abbrev pub matches_hex : List ℕ → Bool
matches_hex (h ∷ a ∷ b ∷ c ∷ d ∷ e ∷ f ∷ []) =
    eqb h b'#'
    && is_hex_digit a
    && is_hex_digit b
    && is_hex_digit c
    && is_hex_digit d
    && is_hex_digit e
    && is_hex_digit f
matches_hex _ = false

unfoldable pub is_hex_color : Value → Bool
unfolding units is_hex_digit
is_hex_color (str s) = matches_hex (units s)
is_hex_color _ = false

-- The value of one digit for `parseInt(…, 16)`.
pub hex_value : ℕ → ℕ
hex_value c = if leb c b'9' then c - b'0' else if leb c b'F' then c - b'A' + 10 else c - b'a' + 10

abbrev pub rgba : ℕ → ℕ → ℕ → String → String
rgba r g b alpha =
    let ◌+s◌ = String.◌++◌ in
    ◌+s◌ "rgba(" (
      ◌+s◌ (decimal (suc r) r) (
        ◌+s◌ ", " (
          ◌+s◌ (decimal (suc g) g)
            (◌+s◌ ", " (◌+s◌ (decimal (suc b) b) (◌+s◌ ", " (◌+s◌ alpha ")")))))))

-- The three channels of a colour, each from two digits.
pub record Channels : Type 0 where
  pub red : ℕ
  pub green : ℕ
  pub blue : ℕ

abbrev two_digits : ℕ → ℕ → ℕ
two_digits a b = hex_value a * 16 + hex_value b

unfoldable pub channels : List ℕ → Channels
channels (h ∷ a ∷ b ∷ c ∷ d ∷ e ∷ f ∷ _) = record {
  red = two_digits a b;
  green = two_digits c d;
  blue = two_digits e f;
}
channels _ = record { red = 0; green = 0; blue = 0 }

unfoldable pub color_with_alpha : Value → String → String
unfolding is_hex_color channels hex_value decimal digit
color_with_alpha (str s) alpha =
    let c = channels (units s) in
    if is_hex_color (str s) then rgba c.red c.green c.blue alpha else rgba 31 128 221 alpha
color_with_alpha _ alpha = rgba 31 128 221 alpha

color_tests :
    (color_for_user_id "user-42" ≡ some "#1f80dd")
    × (color_with_alpha (str "#1f80DD") "0.18" ≡ "rgba(31, 128, 221, 0.18)")
    × (is_hex_color (str "#12345g") ≡ false)
unfolding color_for_user_id color_with_alpha
color_tests = (refl, refl, refl)
