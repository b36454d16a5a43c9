-- ===== src/Collab/Color/Hex.antt =====
-- What `colorWithAlpha` reads from a colour that `isHexColor` accepts.
use sync_tex.Base.{
  Bool-cases, inl, inr, ◌⊎◌, ℕ, ◌+◌, ◌*◌, ◌<◌, String, List, [], ◌∷◌, true, false, ◌≡◌, arith,
  units, str,
}
use sync_tex.Collab.Color.{
  is_hex_digit, hex_value, matches_hex, is_hex_color, channels, rgba, color_with_alpha,
}

hex_value-lt : (c : ℕ) → is_hex_digit c ≡ true → hex_value c < 16
unfolding is_hex_digit hex_value
hex_value-lt c h = ground arith

-- The number that hexadecimal digits stand for.
abbrev pub hex_number : ℕ → List ℕ → ℕ
hex_number acc [] = acc
hex_number acc (c ∷ cs) = hex_number (acc * 16 + hex_value c) cs

abbrev pub after_hash : List ℕ → List ℕ
after_hash [] = []
after_hash (c ∷ cs) = cs

channels_lem :
    (us : List ℕ)
    → matches_hex us ≡ true
    → ((channels us).red < 256)
      × ((channels us).green < 256)
      × ((channels us).blue < 256)
      × ((channels us).red * 65536 + (channels us).green * 256 + (channels us).blue
          ≡ hex_number 0 (after_hash us))
unfolding channels
channels_lem (h ∷ a ∷ b ∷ c ∷ d ∷ e ∷ f ∷ []) m = ground (
  arith,
  hex_value-lt a,
  hex_value-lt b,
  hex_value-lt c,
  hex_value-lt d,
  hex_value-lt e,
  hex_value-lt f,
)
channels_lem _ m = cc

-- The text for a colour that `isHexColor` accepts holds three channels, each a byte, which
-- together are the number that the six digits stand for; any other value gives the default blue.
pub color_with_alpha_lem :
    (s alpha : String)
    → ((is_hex_color (str s) ≡ true)
        × (color_with_alpha (str s) alpha
            ≡ rgba
                (channels (units s)).red
                (channels (units s)).green
                (channels (units s)).blue
                alpha)
        × ((channels (units s)).red < 256)
        × ((channels (units s)).green < 256)
        × ((channels (units s)).blue < 256)
        × ((channels (units s)).red * 65536
              + (channels (units s)).green * 256
              + (channels (units s)).blue
            ≡ hex_number 0 (after_hash (units s))))
      ⊎ ((is_hex_color (str s) ≡ false) × (color_with_alpha (str s) alpha ≡ rgba 31 128 221 alpha))
unfolding color_with_alpha
color_with_alpha_lem s alpha = elim (Bool-cases (is_hex_color (str s))) [
  | inl good ↦ let (r, g, b, sum) = channels_lem (units s) good in inl (good, rw good, r, g, b, sum)
  | inr bad ↦ inr (bad, rw bad)
]
