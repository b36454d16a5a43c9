-- ===== src/Auth/Session.antt =====
-- The token and the user over runs of the handlers.
use sync_tex.Base.{
  String, Option, none, some, List, [], ◌∷◌, Bool, true, false, if◌then◌else◌, ◌≡◌, ◌≢◌, refl, inl,
  inr, Bool-cases, Answer, resolved, rejected,
}
use sync_tex.Clients.{Reply, lost, replied, is_ok}
use sync_tex.Auth.{
  Auth, given, checked, granted, refusal, check_answered, check_auth, login, log_in_answered,
  entered, signup, login_with_oauth, logout,
}
use sync_tex.Auth.Views.{Search, handle_callback, navigate, callback_done}

-- A handler with what the server answers; one ends before the next starts.
pub data Action {ℓ} (U : Type ℓ) : Type ℓ where
  check : Reply U → Action U
  log_in : String → Reply (String × U) → Action U
  sign_up : String → Reply (String × U) → Action U
  log_out : Action U
  oauth : String → String → Option String → Action U
  callback : Search → Reply U → Action U

module _ {ℓ} {U : Type ℓ} (encode : String → String) where
  unfoldable pub perform : Action U → Auth U → Auth U
  perform (check reply) s = check_auth reply s
  perform (log_in unreadable reply) s = (login unreadable reply s).1
  perform (sign_up unreadable reply) s = (signup unreadable reply s).1
  perform log_out s = logout s
  perform (oauth here provider redirect) s = login_with_oauth here provider redirect s
  perform (callback address reply) s = handle_callback encode address reply s

  unfoldable pub perform_all : List (Action U) → Auth U → Auth U
  perform_all [] s = s
  perform_all (action ∷ actions) s = perform_all actions (perform action s)

-- A page that was just opened; `checkAuth` has not run yet.
abbrev pub opened {ℓ} : {U : Type ℓ} → Option String → String → Auth U
opened token place = record {
  token = token;
  oauth_redirect = none;
  user = none;
  loading = true;
  error = none;
  place = place;
}

-- Nobody is signed in, or a token is stored.
pub data IsStored {ℓ} {U : Type ℓ} (s : Auth U) : Type ℓ where
  signed_out : s.user ≡ none → IsStored s
  stored : (token : String) → s.token ≡ some token → IsStored s

check_answered-IsStored {ℓ} :
    {U : Type ℓ} (reply : Reply U) (s : Auth U) (token : String)
    → s.token ≡ some token
    → IsStored (check_answered reply s)
unfolding check_answered
check_answered-IsStored (lost message) s token h = signed_out refl
check_answered-IsStored {U = U} (replied r) s token h = go (is_ok r.status) r.content
  where
    go :
        (b : Bool) (content : Answer U)
        → IsStored (record (checked b content s) { loading = false })
    go true (resolved user) = stored token h
    go true (rejected message) = signed_out refl
    go false content = signed_out refl

false-true : false ≢ true
false-true h = cc

token_of_given : (o : Option String) → given o ≡ true → (token : String) × (o ≡ some token)
token_of_given none h = elim (false-true h) [ ]
token_of_given (some token) h = (token, refl)

check_auth-IsStored {ℓ} :
    {U : Type ℓ} (reply : Reply U) (s : Auth U) → IsStored (check_auth reply s)
unfolding check_auth
check_auth-IsStored reply s = elim (Bool-cases (given s.token)) [
  | inl has_token ↦
      let (token, h) = token_of_given s.token has_token in
      rw has_token (check_answered-IsStored reply s token h)
  | inr no_token ↦ rw no_token (signed_out refl)
]

-- Storing an error changes neither the token nor the user.
keep-IsStored {ℓ} :
    {U : Type ℓ} {s : Auth U} (error : Option String)
    → IsStored s
    → IsStored (record s { error = error })
keep-IsStored error (signed_out h) = signed_out h
keep-IsStored error (stored token h) = stored token h

move-IsStored {ℓ} : {U : Type ℓ} {s : Auth U} (to : String) → IsStored s → IsStored (navigate to s)
move-IsStored to (signed_out h) = signed_out h
move-IsStored to (stored token h) = stored token h

done-IsStored {ℓ} : {U : Type ℓ} (s : Auth U) → IsStored s → IsStored (callback_done s)
unfolding callback_done
done-IsStored s (signed_out h) = signed_out h
done-IsStored s (stored token h) = stored token h

oauth-IsStored {ℓ} :
    {U : Type ℓ} {s : Auth U} (place : String) (redirect : Option String)
    → IsStored s
    → IsStored (record s { oauth_redirect = redirect; place = place })
oauth-IsStored place redirect (signed_out h) = signed_out h
oauth-IsStored place redirect (stored token h) = stored token h

log_in_answered-IsStored {ℓ} :
    {U : Type ℓ} (fallback unreadable : String) (reply : Reply (String × U)) (s : Auth U)
    → IsStored s
    → IsStored (log_in_answered fallback unreadable reply s).1
unfolding log_in_answered
log_in_answered-IsStored fallback unreadable (lost message) s h = keep-IsStored (some message) h
log_in_answered-IsStored {U = U} fallback unreadable (replied r) s h = go (is_ok r.status) r.content
  where
    failed : String
    failed = refusal fallback unreadable r.fault

    go :
        (b : Bool) (content : Answer (String × U))
        → IsStored
            (if b then granted content s else (rejected failed, record s { error = some failed })).1
    go true (resolved (token, user)) = stored token refl
    go true (rejected message) = keep-IsStored (some message) h
    go false content = keep-IsStored (some failed) h

handle_callback-IsStored {ℓ} :
    {U : Type ℓ} (encode : String → String) (address : Search) (reply : Reply U) (s : Auth U)
    → IsStored s
    → IsStored (handle_callback encode address reply s)
unfolding handle_callback
handle_callback-IsStored encode address reply s h = elim (Bool-cases (given address.error)) [
  | inl refused ↦ rw refused (move-IsStored _ h)
  | inr not_refused ↦ elim (Bool-cases (given address.token)) [
    | inl has_token ↦
        rw (not_refused, has_token)
          (done-IsStored _ (check_auth-IsStored reply (record s { token = address.token })))
    | inr no_token ↦ rw (not_refused, no_token) (move-IsStored _ h)
  ]
]

perform-IsStored {ℓ} :
    {U : Type ℓ} (encode : String → String) (action : Action U) (s : Auth U)
    → IsStored s
    → IsStored (perform encode action s)
unfolding perform login signup entered logout login_with_oauth
perform-IsStored encode (check reply) s h = check_auth-IsStored reply s
perform-IsStored encode (log_in unreadable reply) s h =
    log_in_answered-IsStored _ unreadable reply (entered s) (keep-IsStored none h)
perform-IsStored encode (sign_up unreadable reply) s h =
    log_in_answered-IsStored _ unreadable reply (entered s) (keep-IsStored none h)
perform-IsStored encode log_out s h = signed_out refl
perform-IsStored encode (oauth here provider redirect) s h = oauth-IsStored _ _ h
perform-IsStored encode (callback address reply) s h =
    handle_callback-IsStored encode address reply s h

perform_all-IsStored {ℓ} :
    {U : Type ℓ} (encode : String → String) (actions : List (Action U)) (s : Auth U)
    → IsStored s
    → IsStored (perform_all encode actions s)
unfolding perform_all
perform_all-IsStored encode [] s h = h
perform_all-IsStored encode (action ∷ actions) s h =
    perform_all-IsStored encode actions (perform encode action s)
      (perform-IsStored encode action s h)

-- After any handlers, each ended before the next starts, and whatever the server answers them, a page
-- that was opened with any token, or with none, has nobody signed in or has a token stored.
pub signed_in_has_token {ℓ} :
    {U : Type ℓ} (encode : String → String) (actions : List (Action U)) (token : Option String)
    (place : String)
    → IsStored (perform_all encode actions (opened token place))
signed_in_has_token encode actions token place =
    perform_all-IsStored encode actions (opened token place) (signed_out refl)
