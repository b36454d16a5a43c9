-- ===== src/Sessions/Stale.antt =====
-- What is left of a session that was closed: the timers of its further attempts.
use sync_tex.Base.{
  ℕ, refl, ◌<◌, String, Option, List, [], ◌∷◌, ◌==◌, eq_refl, Dict, Bool, true, false, not, ◌||◌,
  ◌≡◌, arith, ltb, lookup, lookup-insert, Bool-cases, Option-cases, inl, inr,
}
use sync_tex.Sessions.{
  Registry, Callback, close_all, unmount, skipped, open_collab_session, close_collab_session,
  bind_session, bind_active_session, retry_due, on_callback, is_session, is_bound, is_given,
  register,
}
use sync_tex.Sessions.Sound.{on_callback_lem, on_callbacks_lem}
use sync_tex.Sessions.Run.{
  Event, opened, closed, called, bound, retried, unmounted, step, run, sessions_of_closed,
}

-- The session `n` was made, and is not the one of the file.
abbrev pub Gone : String → ℕ → Registry → Type 0
Gone id n s = (n < s.made) × (is_session n (lookup id s.collab_sessions) ≡ false)

Gone-of_same :
    (id : String) (n : ℕ) (s t : Registry)
    → t.collab_sessions ≡ s.collab_sessions
    → t.made ≡ s.made
    → Gone id n s
    → Gone id n t
Gone-of_same id n s t sessions made h = rw (sessions, made) h

register-Gone :
    (id j : String) (n : ℕ) (cs : List Callback) (s : Registry)
    → Gone id n s
    → Gone id n (register j cs s)
register-Gone id j n cs s (made, h) =
    (omega (arith, made), ground (arith, made, h, lookup-insert j id s.made s.collab_sessions))

open_collab_session-Gone :
    (id j : String) (n : ℕ) (token : Option String) (cs : List Callback) (s : Registry)
    → Gone id n s
    → Gone id n (open_collab_session j token cs s)
unfolding open_collab_session
open_collab_session-Gone id j n token cs s h = elim (Option-cases (lookup j s.collab_sessions)) [
  | inl missing ↦ elim (Bool-cases (is_given token)) [
    | inl given ↦ rw (open_collab_session, missing, given) (register-Gone id j n cs s h)
    | inr not_given ↦ rw (open_collab_session, missing, not_given) h
  ]
  | inr (session, there) ↦ rw (open_collab_session, there) h
]

made_of_closed :
    (id : String) (cs : List Callback) (s : Registry) → (close_collab_session id cs s).made ≡ s.made
unfolding close_collab_session
made_of_closed id cs s = elim (Option-cases (lookup id s.collab_sessions)) [
  | inl missing ↦ rw (close_collab_session, missing) refl
  | inr (session, there) ↦ rw (close_collab_session, there) (on_callbacks_lem id cs s).2
]

close_collab_session-Gone :
    (id j : String) (n : ℕ) (cs : List Callback) (s : Registry)
    → Gone id n s
    → Gone id n (close_collab_session j cs s)
close_collab_session-Gone id j n cs s (made, h) =
    (rw (made_of_closed j cs s) made, ground (arith, h, sessions_of_closed j id cs s))

close_all-Gone :
    (id : String) (n : ℕ) (ids : Dict ℕ) (callbacks : String → List Callback) (s : Registry)
    → Gone id n s
    → Gone id n (close_all ids callbacks s)
unfolding close_all
close_all-Gone id n [] callbacks s h = h
close_all-Gone id n ((j, session) ∷ ids) callbacks s h =
    close_all-Gone id n ids callbacks (close_collab_session j (callbacks j) s)
      (close_collab_session-Gone id j n (callbacks j) s h)

-- Binding changes only the bindings.
bind_session-same :
    (id : String) (session attempt : ℕ) (model : Option ℕ) (ok : Bool) (s : Registry)
    → ((bind_session id session attempt model ok s).1.collab_sessions ≡ s.collab_sessions)
      × ((bind_session id session attempt model ok s).1.made ≡ s.made)
unfolding bind_session
bind_session-same id session attempt model ok s =
    elim (Bool-cases (is_bound (lookup id s.bound_editors) session model)) [
      | inl same ↦ rw same (refl, refl)
      | inr other ↦ elim (Bool-cases ok) [
        | inl works ↦ rw (other, works) (refl, refl)
        | inr fails ↦ elim (Bool-cases (ltb attempt 10)) [
          | inl more ↦ rw (other, fails, more) (refl, refl)
          | inr last ↦ rw (other, fails, last) (refl, refl)
        ]
      ]
    ]

pub bind_active_session-same :
    (id : String) (is_collab : Bool) (attempt : ℕ) (model : Option ℕ) (ok : Bool) (s : Registry)
    → ((bind_active_session id is_collab attempt model ok s).1.collab_sessions ≡ s.collab_sessions)
      × ((bind_active_session id is_collab attempt model ok s).1.made ≡ s.made)
unfolding bind_active_session
bind_active_session-same id is_collab attempt model ok s =
    elim (Bool-cases (not is_collab || (id == ""))) [
      | inl off ↦ rw off (refl, refl)
      | inr on ↦ elim (Option-cases (lookup id s.collab_sessions)) [
        | inl missing ↦ rw (bind_active_session, on, missing) (refl, refl)
        | inr (session, there) ↦
            rw (bind_active_session, on, there) (bind_session-same id session attempt model ok s)
      ]
    ]

pub retry_due-same :
    (id : String) (session attempt : ℕ) (model : Option ℕ) (ok : Bool) (s : Registry)
    → ((retry_due id session attempt model ok s).1.collab_sessions ≡ s.collab_sessions)
      × ((retry_due id session attempt model ok s).1.made ≡ s.made)
unfolding retry_due
retry_due-same id session attempt model ok s =
    elim (Bool-cases (is_session session (lookup id s.collab_sessions))) [
      | inl current ↦ rw current (bind_active_session-same id true attempt model ok s)
      | inr stale ↦ rw stale (refl, refl)
    ]

step-Gone : (id : String) (n : ℕ) (e : Event) (s : Registry) → Gone id n s → Gone id n (step e s)
unfolding step unmount
step-Gone id n (opened j token cs) s h = open_collab_session-Gone id j n token cs s h
step-Gone id n (closed j cs) s h = close_collab_session-Gone id j n cs s h
step-Gone id n (called j c) s h =
    Gone-of_same id n s (on_callback j c s) (on_callback_lem j c s).0 (on_callback_lem j c s).2 h
step-Gone id n (bound j is_collab model ok) s h =
    let (sessions, made) = bind_active_session-same j is_collab 0 model ok s in
    Gone-of_same id n s (bind_active_session j is_collab 0 model ok s).1 sessions made h
step-Gone id n (retried j session attempt model ok) s h =
    let (sessions, made) = retry_due-same j session attempt model ok s in
    Gone-of_same id n s (retry_due j session attempt model ok s).1 sessions made h
step-Gone id n (unmounted callbacks) s h = close_all-Gone id n s.collab_sessions callbacks s h

run-Gone :
    (id : String) (n : ℕ) (es : List Event) (s : Registry) → Gone id n s → Gone id n (run es s)
unfolding run
run-Gone id n [] s h = h
run-Gone id n (e ∷ es) s h = run-Gone id n es (step e s) (step-Gone id n e s h)

-- A further attempt for a session that was closed does nothing, whatever happened since, even where
-- the file was opened again.
pub retry_of_closed_session :
    (id : String) (n attempt : ℕ) (model : Option ℕ) (ok : Bool) (cs : List Callback)
    (es : List Event) (s : Registry)
    → n < s.made
    → retry_due id n attempt model ok (run es (close_collab_session id cs s))
      ≡ (skipped, run es (close_collab_session id cs s))
unfolding retry_due
retry_of_closed_session id n attempt model ok cs es s made =
    rw
      (run-Gone id n es (close_collab_session id cs s)
        (rw (made_of_closed id cs s) made, rw (sessions_of_closed id id cs s, eq_refl id) refl)).1
      refl
