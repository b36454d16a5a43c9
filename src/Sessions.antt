-- ===== src/Sessions.antt =====
-- frontend/src/hooks/useCollabSessions.js: the sessions of the open files, their bindings to the
-- editor, and what is shown of them. Sessions and text models are objects that the hook only
-- compares, so they are numbers here; `made` counts the sessions so far, and numbers the next one.
pub mod Sound
pub mod Run
pub mod Retry
pub mod Stale
mod Tests
use sync_tex.Base.{
  ℕ, zero, suc, ◌+◌, String, Option, none, some, List, [], ◌∷◌, ◌==◌, Bool, true, false, not, ◌&&◌,
  ◌||◌, if◌then◌else◌, eqb, ltb, Dict, lookup, insert, remove,
}
use sync_tex.Collab.Presence.{AwarenessUser}
use sync_tex.Collab.Session.{Status, connected, connecting, disconnected}

pub record Binding : Type 0 where
  pub session : ℕ
  pub model : Option ℕ

pub record Registry : Type 0 where
  pub collab_sessions : Dict ℕ
  pub bound_editors : Dict Binding
  pub collab_status : Dict Status
  pub live_editors_by_file : Dict (List AwarenessUser)
  pub made : ℕ

abbrev pub no_sessions : Registry
no_sessions = record {
  collab_sessions = [];
  bound_editors = [];
  collab_status = [];
  live_editors_by_file = [];
  made = 0;
}

-- What a session calls back: a status, with what its `getAwarenessUsers` gives then, or the users.
pub data Callback : Type 0 where
  reported_status : Status → List AwarenessUser → Callback
  reported_users : List AwarenessUser → Callback

-- `!token`, `!activeTabId`
abbrev pub is_given : Option String → Bool
is_given none = false
is_given (some s) = not (s == "")

abbrev users_if_open : Option ℕ → List AwarenessUser → List AwarenessUser
users_if_open none users = []
users_if_open (some session) users = users

abbrev live_users : Status → Option ℕ → List AwarenessUser → List AwarenessUser
live_users connected session users = users_if_open session users
live_users connecting session users = []
live_users disconnected session users = []

-- `onStatus` and `onAwarenessChange`
unfoldable pub on_callback : String → Callback → Registry → Registry
on_callback id (reported_status status users) s = record s {
  collab_status = insert id status s.collab_status;
  live_editors_by_file =
      insert id (live_users status (lookup id s.collab_sessions) users) s.live_editors_by_file;
}
on_callback id (reported_users users) s = record s {
  live_editors_by_file = insert id users s.live_editors_by_file;
}

unfoldable pub on_callbacks : String → List Callback → Registry → Registry
unfolding on_callback
on_callbacks id [] s = s
on_callbacks id (c ∷ cs) s = on_callbacks id cs (on_callback id c s)

-- The callbacks are those that `createCollabSession` makes before it returns.
abbrev register : String → List Callback → Registry → Registry
register id callbacks s = record (on_callbacks id callbacks s) {
  collab_sessions = insert id s.made s.collab_sessions;
  made = s.made + 1;
}

unfoldable pub open_collab_session : String → Option String → List Callback → Registry → Registry
unfolding on_callbacks
open_collab_session id token callbacks s = elim (lookup id s.collab_sessions) [
  | some session ↦ s
  | none ↦ if is_given token then register id callbacks s else s
]

abbrev forget : String → Registry → Registry
forget id s = record s {
  bound_editors = remove id s.bound_editors;
  collab_sessions = remove id s.collab_sessions;
  collab_status = remove id s.collab_status;
  live_editors_by_file = remove id s.live_editors_by_file;
}

-- The callbacks are those that `session.destroy()` makes.
unfoldable pub close_collab_session : String → List Callback → Registry → Registry
unfolding on_callbacks
close_collab_session id callbacks s = elim (lookup id s.collab_sessions) [
  | none ↦ s
  | some session ↦ forget id (on_callbacks id callbacks s)
]

-- What a call of `bindActiveSession` leads to: nothing, a binding, a further attempt in 50 ms, which
-- the closure makes for this session and with this number, or the error message.
pub data Outcome : Type 0 where
  skipped : Outcome
  bound : Outcome
  retry : ℕ → ℕ → Outcome
  failed : Outcome

abbrev same_model : Option ℕ → Option ℕ → Bool
same_model none none = true
same_model none (some n) = false
same_model (some m) none = false
same_model (some m) (some n) = eqb m n

abbrev is_bound : Option Binding → ℕ → Option ℕ → Bool
is_bound none session model = false
is_bound (some b) session model = eqb b.session session && same_model b.model model

-- From `editor.getModel()` on; `ok` is what `session.bindEditor(editor)` answers if it is called.
unfoldable pub bind_session : String → ℕ → ℕ → Option ℕ → Bool → Registry → Outcome × Registry
bind_session id session attempt model ok s =
    if is_bound (lookup id s.bound_editors) session model
    then (skipped, s)
    else if ok
    then (
      bound,
      record s {
        bound_editors = insert id (record { session = session; model = model }) s.bound_editors;
      },
    )
    else if ltb attempt 10
    then (retry session (attempt + 1), s)
    else (failed, s)

unfoldable pub bind_active_session :
    String → Bool → ℕ → Option ℕ → Bool → Registry → Outcome × Registry
unfolding bind_session
bind_active_session id is_collab attempt model ok s =
    if not is_collab || (id == "") then (skipped, s) else elim (lookup id s.collab_sessions) [
      | none ↦ (skipped, s)
      | some session ↦ bind_session id session attempt model ok s
    ]

abbrev is_session : ℕ → Option ℕ → Bool
is_session session none = false
is_session session (some current) = eqb current session

-- The timer of a further attempt runs out.
unfoldable pub retry_due : String → ℕ → ℕ → Option ℕ → Bool → Registry → Outcome × Registry
unfolding bind_active_session
retry_due id session attempt model ok s =
    if is_session session (lookup id s.collab_sessions)
    then bind_active_session id true attempt model ok s
    else (skipped, s)

-- `Object.keys(collabSessions.current).forEach(closeCollabSession)`
unfoldable pub close_all : Dict ℕ → (String → List Callback) → Registry → Registry
unfolding close_collab_session
close_all [] callbacks s = s
close_all ((id, session) ∷ rest) callbacks s =
    close_all rest callbacks (close_collab_session id (callbacks id) s)

unfoldable pub unmount : (String → List Callback) → Registry → Registry
unfolding close_all
unmount callbacks s = close_all s.collab_sessions callbacks s
