-- ===== src/Theme.antt =====
-- frontend/src/contexts/ThemeContext.jsx: the preference that is stored and the theme that is shown.
mod Tests
use sync_tex.Base.{
  String, Option, none, some, List, [], ◌∷◌, ◌==◌, ◌≡◌, Bool, true, false, if◌then◌else◌, has,
  Bool-cases, inl, inr, refl,
}

-- What the browser has: whether it prefers dark, and `localStorage`, if it does not deny it.
pub record Browser : Type 0 where
  pub prefers_dark : Bool
  pub denied : Bool
  -- 'theme_preference'
  pub stored : Option String

pub record Theme : Type 0 where
  pub theme_preference : String
  pub resolved_theme : String
  -- `document.documentElement.dataset.theme`
  pub shown : String

abbrev theme_preferences : List String
theme_preferences = "system" ∷ "light" ∷ "dark" ∷ []

-- `validPreferences.has(value)`
abbrev pub is_valid : String → Bool
is_valid value = has value theme_preferences

unfoldable pub get_system_theme : Browser → String
get_system_theme b = if b.prefers_dark then "dark" else "light"

unfoldable pub resolve_theme : Browser → String → String
resolve_theme b preference = if preference == "system" then get_system_theme b else preference

abbrev valid_or_system : Option String → String
valid_or_system none = "system"
valid_or_system (some value) = if is_valid value then value else "system"

unfoldable pub get_stored_theme_preference : Browser → String
get_stored_theme_preference b = if b.denied then "system" else valid_or_system b.stored

-- The provider's first render, with its effects.
unfoldable pub theme_provider : Browser → Theme
theme_provider b =
    let theme = resolve_theme b (get_stored_theme_preference b) in
    record {
      theme_preference = get_stored_theme_preference b;
      resolved_theme = theme;
      shown = theme;
    }

-- The effects on the preference and on the theme that it resolves to.
unfoldable pub effects_ran : Browser → Theme → Theme
effects_ran b s =
    let theme = resolve_theme b s.theme_preference in
    record s { resolved_theme = theme; shown = theme }

-- `setThemePreference`
unfoldable pub set_theme_preference : String → Browser × Theme → Browser × Theme
set_theme_preference next (b, s) =
    if is_valid next
    then (
      if b.denied then b else record b { stored = some next },
      record s { theme_preference = next },
    )
    else (b, s)

-- `handleChange`: the media query changed; it is heard only for the preference 'system'.
unfoldable pub system_changed : Bool → Browser × Theme → Browser × Theme
system_changed dark (b, s) =
    let b' = record b { prefers_dark = dark } in
    (
      b',
      if s.theme_preference == "system"
          then record s { resolved_theme = get_system_theme b'; shown = get_system_theme b' }
          else s,
    )
