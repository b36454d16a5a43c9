-- ===== src/Sessions/Retry.antt =====
-- The attempts to bind a session to an editor whose text model is not ready.
use sync_tex.Base.{
  ℕ, suc, ◌+◌, refl, ◌≤◌, String, Option, List, [], ◌∷◌, ◌==◌, Bool, true, not, ◌||◌, ◌≡◌, arith,
  ltb, lookup, Bool-cases, Option-cases, inl, inr,
}
use sync_tex.Sessions.{
  Registry, Outcome, skipped, retry, bind_session, bind_active_session, retry_due, is_session,
  is_bound,
}

-- What the timer finds when it runs out.
pub record Look : Type 0 where
  pub registry : Registry
  pub model : Option ℕ
  pub ok : Bool

-- How many timers run out, one after the other, for one call of `bindActiveSession`.
unfoldable pub timers : String → Outcome → List Look → ℕ
timers id (retry session attempt) (look ∷ looks) =
    suc (timers id (retry_due id session attempt look.model look.ok look.registry).0 looks)
timers id (retry session attempt) [] = 0
timers id skipped looks = 0
timers id Outcome.bound looks = 0
timers id Outcome.failed looks = 0

-- Where the outcome of an attempt is a further one, that is the next, and at most the tenth.
abbrev Next : ℕ → Outcome → Type 0
Next attempt (retry session next) = (next ≡ attempt + 1) × (next ≤ 10)
Next attempt skipped = Unit
Next attempt Outcome.bound = Unit
Next attempt Outcome.failed = Unit

bind_session-Next :
    (id : String) (session attempt : ℕ) (model : Option ℕ) (ok : Bool) (s : Registry)
    → Next attempt (bind_session id session attempt model ok s).0
unfolding bind_session
bind_session-Next id session attempt model ok s =
    elim (Bool-cases (is_bound (lookup id s.bound_editors) session model)) [
      | inl same ↦ rw same tt
      | inr other ↦ elim (Bool-cases ok) [
        | inl works ↦ rw (other, works) tt
        | inr fails ↦ elim (Bool-cases (ltb attempt 10)) [
          | inl more ↦ rw (other, fails, more) (refl, ground (arith, more))
          | inr last ↦ rw (other, fails, last) tt
        ]
      ]
    ]

bind_active_session-Next :
    (id : String) (is_collab : Bool) (attempt : ℕ) (model : Option ℕ) (ok : Bool) (s : Registry)
    → Next attempt (bind_active_session id is_collab attempt model ok s).0
unfolding bind_active_session
bind_active_session-Next id is_collab attempt model ok s =
    elim (Bool-cases (not is_collab || (id == ""))) [
      | inl off ↦ rw off tt
      | inr on ↦ elim (Option-cases (lookup id s.collab_sessions)) [
        | inl none_there ↦ rw (bind_active_session, on, none_there) tt
        | inr (session, there) ↦
            rw (bind_active_session, on, there) (bind_session-Next id session attempt model ok s)
      ]
    ]

retry_due-Next :
    (id : String) (session attempt : ℕ) (model : Option ℕ) (ok : Bool) (s : Registry)
    → Next attempt (retry_due id session attempt model ok s).0
unfolding retry_due
retry_due-Next id session attempt model ok s =
    elim (Bool-cases (is_session session (lookup id s.collab_sessions))) [
      | inl current ↦ rw current (bind_active_session-Next id true attempt model ok s)
      | inr stale ↦ rw stale tt
    ]

timers-bound :
    (id : String) (attempt : ℕ) (outcome : Outcome) (looks : List Look)
    → Next attempt outcome
    → attempt ≤ 10
    → timers id outcome looks + attempt ≤ 10
unfolding timers
timers-bound id attempt (retry session next) (look ∷ looks) (e, h) low =
    let ih =
      timers-bound id next (retry_due id session next look.model look.ok look.registry).0 looks
        (retry_due-Next id session next look.model look.ok look.registry) h in
    omega (arith, ih, e)
timers-bound id attempt (retry session next) [] h low = omega (arith, low)
timers-bound id attempt skipped looks h low = omega (arith, low)
timers-bound id attempt Outcome.bound looks h low = omega (arith, low)
timers-bound id attempt Outcome.failed looks h low = omega (arith, low)

-- One call of `bindActiveSession` leads to at most ten further attempts, whatever each of them finds.
pub retries_bounded :
    (id : String) (is_collab : Bool) (model : Option ℕ) (ok : Bool) (s : Registry)
    (looks : List Look)
    → timers id (bind_active_session id is_collab 0 model ok s).0 looks ≤ 10
retries_bounded id is_collab model ok s looks = omega (
  arith,
  timers-bound id 0 (bind_active_session id is_collab 0 model ok s).0 looks
      (bind_active_session-Next id is_collab 0 model ok s) (omega arith),
)
