-- ===== src/Auth/Return.antt =====
-- The way out to an OAuth provider and back.
use text.Mathlib.Text.{starts_with}
use sync_tex.Base.{
  String, Option, none, some, ◌==◌, Bool, true, false, not, ◌&&◌, if◌then◌else◌, ◌≡◌, refl, ◌∙◌,
  inl, inr, ap, sym, eq_iff, arith, Bool-cases, Answer, resolved, rejected,
}
use sync_tex.Clients.{Reply, lost, replied, is_ok}
use sync_tex.Auth.{Auth, given, given_or, checked, check_answered, check_auth, login_with_oauth}
use sync_tex.Auth.Views.{
  Search, handle_callback, redirect_target, is_local, handle_oauth_login, callback_done,
}

checked-redirect {ℓ} :
    {U : Type ℓ} (b : Bool) (content : Answer U) (s : Auth U)
    → (checked b content s).oauth_redirect ≡ s.oauth_redirect
checked-redirect true (resolved user) s = refl
checked-redirect true (rejected message) s = refl
checked-redirect false content s = refl

check_answered-redirect {ℓ} :
    {U : Type ℓ} (reply : Reply U) (s : Auth U)
    → (check_answered reply s).oauth_redirect ≡ s.oauth_redirect
unfolding check_answered
check_answered-redirect (lost message) s = refl
check_answered-redirect (replied r) s = checked-redirect (is_ok r.status) r.content s

check_auth-redirect {ℓ} :
    {U : Type ℓ} (reply : Reply U) (s : Auth U)
    → (check_auth reply s).oauth_redirect ≡ s.oauth_redirect
unfolding check_auth
check_auth-redirect reply s = go (given s.token)
  where
    go :
        (b : Bool)
        → (if b
            then check_answered reply s
            else record s { loading = false; user = none }).oauth_redirect
          ≡ s.oauth_redirect
    go true = check_answered-redirect reply s
    go false = refl

-- Where a token came back, the effect checks it and leaves.
handle_callback-token {ℓ} :
    {U : Type ℓ} (encode : String → String) (address : Search) (reply : Reply U) (s : Auth U)
    → given address.error ≡ false
    → given address.token ≡ true
    → handle_callback encode address reply s
      ≡ callback_done (check_auth reply (record s { token = address.token }))
unfolding handle_callback
handle_callback-token encode address reply s no_error has_token = rw (no_error, has_token) refl

callback-place {ℓ} :
    {U : Type ℓ} (encode : String → String) (address : Search) (reply : Reply U) (s : Auth U)
    → given address.error ≡ false
    → given address.token ≡ true
    → (handle_callback encode address reply s).place ≡ given_or s.oauth_redirect "/dashboard"
unfolding callback_done
callback-place encode address reply s no_error has_token =
    ap (λ x. x.place) (handle_callback-token encode address reply s no_error has_token)
    ∙ ap (λ x. given_or x "/dashboard")
        (check_auth-redirect reply (record s { token = address.token }))

callback-redirect {ℓ} :
    {U : Type ℓ} (encode : String → String) (address : Search) (reply : Reply U) (s : Auth U)
    → given address.error ≡ false
    → given address.token ≡ true
    → (handle_callback encode address reply s).oauth_redirect ≡ none
unfolding callback_done
callback-redirect encode address reply s no_error has_token =
    ap (λ x. x.oauth_redirect) (handle_callback-token encode address reply s no_error has_token)

-- A target is a path of this site, so it is not empty.
redirect_target-given : (redirect : Option String) → (redirect_target redirect == "") ≡ false
unfolding redirect_target
redirect_target-given none = refl
redirect_target-given (some redirect) = elim (Bool-cases (is_local redirect)) [
  | inl local ↦ rw local (not_empty redirect local)
  | inr foreign ↦ rw foreign refl
]
  where
    not_true : (b c d : Bool) → (not b && c && d) ≡ true → b ≡ false
    not_true false c d h = refl
    not_true true c d h = sym h

    not_empty : (r : String) → is_local r ≡ true → (r == "") ≡ false
    not_empty r h = not_true (r == "") (starts_with r "/") (not (starts_with r "//")) h

-- A text that starts with a slash is not empty.
starts_with_slash-given : (r : String) → starts_with r "/" ≡ true → (r == "") ≡ false
starts_with_slash-given r h = elim (Bool-cases (r == "")) [
  | inl empty ↦
      let same : r ≡ "" = (eq_iff r "").0 empty in
      let never : false ≡ true = sym (ap (λ x. starts_with x "/") same) ∙ h in cc
  | inr full ↦ full
]

-- A path of this site: one slash, and not two, at the start.
pub data IsPath (place : String) : Type 0 where
  path : starts_with place "/" ≡ true → starts_with place "//" ≡ false → IsPath place

-- Where a login page has to lead that was asked to lead somewhere: there if that is a path of this site,
-- and else to the dashboard.
pub data IsTarget (redirect : Option String) (place : String) : Type 0 where
  asked : redirect ≡ some place → IsPath place → IsTarget redirect place
  dashboard :
      place ≡ "/dashboard"
      → ((r : String) → redirect ≡ some r → ¬ IsPath r)
      → IsTarget redirect place

local_of_path : (r : String) → IsPath r → is_local r ≡ true
local_of_path r (path one two) = rw (starts_with_slash-given r one, one, two) refl

redirect_target-IsTarget : (redirect : Option String) → IsTarget redirect (redirect_target redirect)
unfolding redirect_target
redirect_target-IsTarget none = dashboard refl (λ r e is. cc)
redirect_target-IsTarget (some r) = elim (Bool-cases (is_local r)) [
  | inl local ↦ rw local (asked refl (path (ground (arith, local)) (ground (arith, local))))
  | inr foreign ↦ rw foreign (
      dashboard refl λ r' e is.
        let same : r' ≡ r = cc in
        let no : true ≡ false = sym (local_of_path r' is) ∙ ap is_local same ∙ foreign in cc)
]

module _ {ℓ} {U : Type ℓ} (encode : String → String) (here provider : String)
    (redirect : Option String) (address : Search) (reply reply' : Reply U) (s : Auth U)
    (no_error : given address.error ≡ false) (has_token : given address.token ≡ true) where
  place_of_return :
      (handle_callback encode address reply (handle_oauth_login here provider redirect s)).place
      ≡ redirect_target redirect
  unfolding handle_oauth_login login_with_oauth
  place_of_return =
      callback-place encode address reply (handle_oauth_login here provider redirect s) no_error
        has_token
      ∙ ap (λ b. given_or (some (if b then here else redirect_target redirect)) "/dashboard")
          (redirect_target-given redirect)
      ∙ ap (λ b. if b then "/dashboard" else redirect_target redirect)
          (redirect_target-given redirect)

  -- OAuth that a login page starts brings its user back, where the answer carries a token and no error:
  -- to the page that the login page was asked to lead to if that starts with one slash and not with two,
  -- and else to the dashboard. A second run of the same effect goes to the dashboard, whichever page that
  -- was.
  pub oauth_returns :
      IsTarget redirect
        (handle_callback encode address reply (handle_oauth_login here provider redirect s)).place
      × ((handle_callback encode address reply' (
            handle_callback encode address reply
              (handle_oauth_login here provider redirect s))).place
          ≡ "/dashboard")
  oauth_returns = (
    rw place_of_return (redirect_target-IsTarget redirect),
    callback-place encode address reply'
          (handle_callback encode address reply (handle_oauth_login here provider redirect s))
          no_error has_token
        ∙ ap (λ o. given_or o "/dashboard")
            (callback-redirect encode address reply (handle_oauth_login here provider redirect s)
              no_error has_token),
  )
