-- ===== src/Theme/Tests.antt =====
-- The theme in a browser that prefers dark.
use sync_tex.Base.{has, some, ◌≡◌, refl, true, false}
use sync_tex.Theme.{
  Browser, theme_provider, set_theme_preference, get_stored_theme_preference, resolve_theme,
  get_system_theme,
}

abbrev browser : Browser
browser = record { prefers_dark = true; denied = false; stored = some "blue" }

dark_by_system : (theme_provider browser).shown ≡ "dark"
unfolding theme_provider get_stored_theme_preference resolve_theme get_system_theme has
dark_by_system = refl

light_is_kept :
    (theme_provider (set_theme_preference "light" (browser, theme_provider browser)).0).shown
    ≡ "light"
unfolding theme_provider get_stored_theme_preference resolve_theme get_system_theme
    set_theme_preference has
light_is_kept = refl
