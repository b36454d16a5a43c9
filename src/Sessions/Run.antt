-- ===== src/Sessions/Run.antt =====
-- The registry over any sequence of calls, and when the editor is left.
use sync_tex.Base.{
  ℕ, String, Option, none, some, List, [], ◌∷◌, ◌==◌, eq_iff, Bool, true, false, ◌≡◌, refl, arith,
  if◌then◌else◌, is_some, Dict, lookup, lookup-remove, Bool-cases, Option-cases, inl, inr,
}
use sync_tex.Sessions.{
  Registry, Binding, Callback, on_callback, open_collab_session, close_collab_session,
  bind_active_session, retry_due, close_all, unmount,
}
use sync_tex.Sessions.Sound.{
  EntriesSound, Sound, on_callback-Sound, on_callbacks_lem, open_collab_session-Sound,
  close_collab_session-Sound, bind_active_session-Sound, retry_due-Sound, close_all-Sound,
}

-- The calls of the hook, and the callbacks of its sessions.
pub data Event : Type 0 where
  opened : String → Option String → List Callback → Event
  closed : String → List Callback → Event
  called : String → Callback → Event
  bound : String → Bool → Option ℕ → Bool → Event
  retried : String → ℕ → ℕ → Option ℕ → Bool → Event
  unmounted : (String → List Callback) → Event

unfoldable pub step : Event → Registry → Registry
unfolding open_collab_session close_collab_session on_callback bind_active_session retry_due unmount
step (opened id token callbacks) s = open_collab_session id token callbacks s
step (closed id callbacks) s = close_collab_session id callbacks s
step (called id callback) s = on_callback id callback s
step (bound id is_collab model ok) s = (bind_active_session id is_collab 0 model ok s).1
step (retried id session attempt model ok) s = (retry_due id session attempt model ok s).1
step (unmounted callbacks) s = unmount callbacks s

unfoldable pub run : List Event → Registry → Registry
unfolding step
run [] s = s
run (e ∷ es) s = run es (step e s)

-- A session that is destroyed calls nothing back.
abbrev pub Allowed : Event → Registry → Type 0
Allowed (called id callback) s = is_some (lookup id s.collab_sessions) ≡ true
Allowed _ s = Unit

abbrev pub AllAllowed : List Event → Registry → Type 0
AllAllowed [] s = Unit
AllAllowed (e ∷ es) s = Allowed e s × AllAllowed es (step e s)

step-Sound : (e : Event) (s : Registry) → Allowed e s → Sound s → Sound (step e s)
unfolding step unmount
step-Sound (opened id token callbacks) s a h = open_collab_session-Sound id token callbacks s h
step-Sound (closed id callbacks) s a h = close_collab_session-Sound id callbacks s h
step-Sound (called id callback) s a h = on_callback-Sound id callback s a h
step-Sound (bound id is_collab model ok) s a h =
    bind_active_session-Sound id is_collab 0 model ok s h
step-Sound (retried id session attempt model ok) s a h =
    retry_due-Sound id session attempt model ok s h
step-Sound (unmounted callbacks) s a h = close_all-Sound s.collab_sessions callbacks s h

-- After any calls of the hook, in which only sessions that are open call back, a file without a
-- session has no binding, no status and no users, and a binding is one to the file's own session.
pub run-Sound : (es : List Event) (s : Registry) → AllAllowed es s → Sound s → Sound (run es s)
unfolding run
run-Sound [] s a h = h
run-Sound (e ∷ es) s a h = run-Sound es (step e s) a.1 (step-Sound e s a.0 h)

pub sessions_of_closed :
    (id j : String) (cs : List Callback) (s : Registry)
    → lookup j (close_collab_session id cs s).collab_sessions
      ≡ (if id == j then none else lookup j s.collab_sessions)
unfolding close_collab_session
sessions_of_closed id j cs s = elim (Option-cases (lookup id s.collab_sessions)) [
  | inl missing ↦ rw (close_collab_session, missing) (ground (arith, missing, eq_iff id j))
  | inr (session, there) ↦
      rw (close_collab_session, there, (on_callbacks_lem id cs s).0)
        (lookup-remove id j s.collab_sessions)
]

no_session_of_closed :
    (j : String) (ids : Dict ℕ) (callbacks : String → List Callback) (s : Registry)
    → (lookup j ids ≡ none → lookup j s.collab_sessions ≡ none)
    → lookup j (close_all ids callbacks s).collab_sessions ≡ none
unfolding close_all lookup
no_session_of_closed j [] callbacks s h = h refl
no_session_of_closed j ((id, session) ∷ ids) callbacks s h =
    no_session_of_closed j ids callbacks (close_collab_session id (callbacks id) s) λ missing.
      elim (Bool-cases (id == j)) [
        | inl same ↦ rw (sessions_of_closed id j (callbacks id) s, same) refl
        | inr other ↦ rw (sessions_of_closed id j (callbacks id) s, other) (h (rw other missing))
      ]

EntriesSound-of_none :
    (session : Option ℕ) (b : Option Binding) (status live : Bool)
    → session ≡ none
    → EntriesSound session b status live
    → (b ≡ none) × (status ≡ false) × (live ≡ false)
EntriesSound-of_none none none status live e h = (refl, h.0, h.1)
EntriesSound-of_none none (some b) status live e h = absurd h
EntriesSound-of_none (some n) b status live e h = ground (arith, e)

-- When the editor is left, every session is closed, and no binding, status or user is left.
pub unmount_lem :
    (callbacks : String → List Callback) (s : Registry) (j : String)
    → Sound s
    → (lookup j (unmount callbacks s).collab_sessions ≡ none)
      × (lookup j (unmount callbacks s).bound_editors ≡ none)
      × (is_some (lookup j (unmount callbacks s).collab_status) ≡ false)
      × (is_some (lookup j (unmount callbacks s).live_editors_by_file) ≡ false)
unfolding unmount
unmount_lem callbacks s j h =
    let gone = no_session_of_closed j s.collab_sessions callbacks s (λ e. e) in
    let (b, status, live) =
      EntriesSound-of_none _ _ _ _ gone (close_all-Sound s.collab_sessions callbacks s h j) in
    (gone, b, status, live)
