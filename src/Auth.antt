-- ===== src/Auth.antt =====
-- frontend/src/contexts/AuthContext.jsx: the token in `localStorage`, the user, and the handlers that
-- change them; each is in two parts where it awaits a request, so that answers may come in any order.
-- The redirect for OAuth and the router's place stand in the same state.
pub mod Views
pub mod Session
pub mod Return
pub mod Routes
mod Tests
use Prim.Native.String
use sync_tex.Base.{
  String, Option, none, some, List, [], ◌∷◌, ◌==◌, Bool, true, false, not, if◌then◌else◌, Answer,
  resolved, rejected, or_value, str, to_text, template,
}
use sync_tex.Clients.{Fault, Response, Reply, lost, replied, is_ok}

pub record Auth {ℓ} (U : Type ℓ) : Type ℓ where
  -- `localStorage`, keys 'auth_token' and 'oauth_redirect'
  pub token : Option String
  pub oauth_redirect : Option String
  pub user : Option U
  pub loading : Bool
  pub error : Option String
  -- where the last navigation went
  pub place : String

-- `if (text)`
abbrev pub given : Option String → Bool
given none = false
given (some text) = not (text == "")

-- `text || other`
abbrev pub given_or : Option String → String → String
given_or none other = other
given_or (some text) other = if text == "" then other else text

abbrev pub checked {ℓ} : {U : Type ℓ} → Bool → Answer U → Auth U → Auth U
checked true (resolved user) s = record s { user = some user }
checked true (rejected message) s = record s { token = none; user = none }
checked false content s = record s { token = none; user = none }

-- `checkAuth` from its answer on.
unfoldable pub check_answered {ℓ} : {U : Type ℓ} → Reply U → Auth U → Auth U
check_answered (lost message) s = record s { token = none; user = none; loading = false }
check_answered (replied r) s =
    let s' = checked (is_ok r.status) r.content s in record s' { loading = false }

-- `checkAuth`
unfoldable pub check_auth {ℓ} : {U : Type ℓ} → Reply U → Auth U → Auth U
unfolding check_answered
check_auth reply s =
    let s' = check_answered reply s in
    if given s.token then s' else record s { loading = false; user = none }

-- `setError(null)` of `login` and `signup`
unfoldable pub entered {ℓ} : {U : Type ℓ} → Auth U → Auth U
entered s = record s { error = none }

-- The message of a refused login; `unreadable` is that of a body that is no JSON.
abbrev pub refusal : String → String → Option Fault → String
refusal fallback unreadable none = unreadable
refusal fallback unreadable (some f) = to_text (or_value f.message (str fallback))

abbrev pub granted {ℓ} : {U : Type ℓ} → Answer (String × U) → Auth U → Answer (Unit {0}) × Auth U
granted (resolved (token, user)) s =
    (resolved tt, record s { token = some token; user = some user })
granted (rejected message) s = (rejected message, record s { error = some message })

-- `login` and `signup` from the answer on: `{ success: true }`, or the error.
unfoldable pub log_in_answered {ℓ} :
    {U : Type ℓ} → String → String → Reply (String × U) → Auth U → Answer (Unit {0}) × Auth U
unfolding to_text
log_in_answered fallback unreadable (lost message) s =
    (rejected message, record s { error = some message })
log_in_answered fallback unreadable (replied r) s =
    let failed = refusal fallback unreadable r.fault in
    if is_ok r.status
    then granted r.content s
    else (rejected failed, record s { error = some failed })

unfoldable pub login {ℓ} :
    {U : Type ℓ} → String → Reply (String × U) → Auth U → Answer (Unit {0}) × Auth U
unfolding log_in_answered entered
login unreadable reply s = log_in_answered "Login failed" unreadable reply (entered s)

unfoldable pub signup {ℓ} :
    {U : Type ℓ} → String → Reply (String × U) → Auth U → Answer (Unit {0}) × Auth U
unfolding log_in_answered entered
signup unreadable reply s = log_in_answered "Signup failed" unreadable reply (entered s)

-- `loginWithOAuth`; `here` is the path and search of the page.
unfoldable pub login_with_oauth {ℓ} :
    {U : Type ℓ} → String → String → Option String → Auth U → Auth U
login_with_oauth here provider redirect_to s = record s {
  oauth_redirect = some (given_or redirect_to here);
  place = template ("/auth/" ∷ provider ∷ "/login" ∷ []);
}

-- `logout` once its request is settled, however it is.
unfoldable pub logout {ℓ} : {U : Type ℓ} → Auth U → Auth U
logout s = record s { token = none; user = none }
