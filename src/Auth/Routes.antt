-- ===== src/Auth/Routes.antt =====
-- frontend/src/App.jsx: which view a path leads to, and which views only a user sees who is signed in.
-- A path is given by its segments. The router compares fixed segments without regard to case; they
-- are given in lower case.
use sync_tex.Base.{
  String, Option, none, some, List, [], ◌∷◌, ◌==◌, Bool, true, false, if◌then◌else◌,
}
use sync_tex.Auth.{Auth}
use sync_tex.Auth.Views.{Shown, page, protected_route}

pub data View : Type 0 where
  landing login privacy terms oauth_callback join settings dashboard : View
  project : String → View

-- The routes; `none` is a path that no route fits.
unfoldable pub view_at : List String → Option View
view_at [] = some landing
view_at (a ∷ []) =
    if a == "login"
    then some login
    else if a == "privacy"
    then some privacy
    else if a == "terms"
    then some terms
    else if a == "tos"
    then some terms
    else if a == "join"
    then some join
    else if a == "settings"
    then some settings
    else if a == "dashboard"
    then some dashboard
    else none
view_at (a ∷ b ∷ []) =
    if a == "project"
    then some (project b)
    else if a == "oauth"
    then (if b == "callback" then some oauth_callback else none)
    else none
view_at (a ∷ b ∷ c ∷ rest) = none

-- The views within `ProtectedRoute`.
unfoldable pub is_protected : View → Bool
is_protected settings = true
is_protected dashboard = true
is_protected (project id) = true
is_protected _ = false

-- What is shown at a path: `none` where no route fits. The views that need no user decide themselves.
unfoldable pub shown_at {ℓ} : {U : Type ℓ} → List String → Auth U → Option (Shown × View)
unfolding view_at is_protected protected_route
shown_at path s = elim (view_at path) [
  | none ↦ none
  | some v ↦ some (if is_protected v then protected_route s else page, v)
]
