-- ===== src/Auth/Views.antt =====
-- The pages around signing in: frontend/src/views/LoginView.jsx, OAuthCallback.jsx and JoinView.jsx, and
-- frontend/src/components/ProtectedRoute.jsx. `encodeURIComponent` is a parameter.
use text.Mathlib.Text.{starts_with}
use sync_tex.Base.{
  String, Option, none, some, [], ◌∷◌, ◌==◌, Bool, true, false, not, ◌&&◌, if◌then◌else◌, Answer,
  resolved, rejected, template,
}
use sync_tex.Clients.{Reply}
use sync_tex.Auth.{Auth, given, given_or, check_auth, login, signup, login_with_oauth}

-- `redirect && redirect.startsWith('/') && !redirect.startsWith('//')`
abbrev pub is_local : String → Bool
is_local redirect =
    not (redirect == "") && starts_with redirect "/" && not (starts_with redirect "//")

-- `getRedirectTarget`
unfoldable pub redirect_target : Option String → String
redirect_target none = "/dashboard"
redirect_target (some redirect) = if is_local redirect then redirect else "/dashboard"

abbrev pub is_authenticated {ℓ} : {U : Type ℓ} → Auth U → Bool
is_authenticated s = elim s.user [ none ↦ false | some user ↦ true ]

abbrev pub navigate {ℓ} : {U : Type ℓ} → String → Auth U → Auth U
navigate to s = record s { place = to }

-- The effect of `LoginView` that leaves it.
unfoldable pub leave_login {ℓ} : {U : Type ℓ} → Option String → Auth U → Auth U
unfolding redirect_target
leave_login redirect s = if is_authenticated s then navigate (redirect_target redirect) s else s

pub data Mode : Type 0 where
  login_mode : Mode
  signup_mode : Mode

pub record Form : Type 0 where
  pub mode : Mode
  pub error : String
  pub loading : Bool

abbrev pub submitted {ℓ} :
    {U : Type ℓ} → Mode → String → Reply (String × U) → Auth U → Answer (Unit {0}) × Auth U
submitted login_mode unreadable reply s = login unreadable reply s
submitted signup_mode unreadable reply s = signup unreadable reply s

abbrev pub form_error : Answer (Unit {0}) → String
form_error (resolved success) = ""
form_error (rejected message) = message

-- The effect that shows the error of OAuth; `decode` is `decodeURIComponent`.
unfoldable pub note_oauth_error : (String → String) → Option String → Form → Form
note_oauth_error decode oauth_error form = elim oauth_error [
  | none ↦ form
  | some text ↦ if text == "" then form else record form { error = decode text }
]

-- `handleSubmit`, the request awaited.
unfoldable pub handle_submit {ℓ} :
    {U : Type ℓ} → String → Reply (String × U) → Form × Auth U → Form × Auth U
handle_submit unreadable reply (form, s) =
    let (result, s') = submitted form.mode unreadable reply s in
    (record form { error = form_error result; loading = false }, s')

-- `handleGithubLogin` and `handleGoogleLogin`
unfoldable pub handle_oauth_login {ℓ} :
    {U : Type ℓ} → String → String → Option String → Auth U → Auth U
handle_oauth_login here provider redirect s =
    login_with_oauth here provider (some (redirect_target redirect)) s

-- `handleCallback` after `await checkAuth()`
unfoldable pub callback_done {ℓ} : {U : Type ℓ} → Auth U → Auth U
callback_done s = record s { place = given_or s.oauth_redirect "/dashboard"; oauth_redirect = none }

-- What the address of the page that OAuth returns to has.
pub record Search : Type 0 where
  pub token : Option String
  pub error : Option String

abbrev text_of : Option String → String
text_of none = ""
text_of (some text) = text

-- `handleCallback`
unfoldable pub handle_callback {ℓ} :
    {U : Type ℓ} → (String → String) → Search → Reply U → Auth U → Auth U
handle_callback encode address reply s =
    if given address.error
    then navigate (template ("/login?error=" ∷ encode (text_of address.error) ∷ [])) s
    else if given address.token
    then callback_done (check_auth reply (record s { token = address.token }))
    else navigate "/login?error=Authentication failed" s

-- What `ProtectedRoute` shows.
pub data Shown : Type 0 where
  spinner : Shown
  login_page : Shown
  page : Shown

unfoldable pub protected_route {ℓ} : {U : Type ℓ} → Auth U → Shown
protected_route s = if s.loading then spinner else if is_authenticated s then page else login_page

abbrev joined {ℓ} : {U : Type ℓ} → Answer String → Auth U → Auth U
joined (resolved project_id) s = navigate (template ("/project/" ∷ project_id ∷ [])) s
joined (rejected message) s = navigate "/dashboard?join_error=invalid_or_expired" s

-- The effect of `JoinView`; the answer of `acceptCollaboratorLink` is the project's id.
unfoldable pub join {ℓ} :
    {U : Type ℓ} → (String → String) → String → Option String → Answer String → Auth U → Auth U
join encode here token answer s =
    if s.loading
    then s
    else if is_authenticated s
    then if given token then joined answer s else navigate "/dashboard?join_error=missing_token" s
    else navigate (template ("/login?redirect=" ∷ encode here ∷ [])) s
