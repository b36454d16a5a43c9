-- ===== src/Collab/Session/Run.antt =====
-- What can happen to a session: the browser's callbacks, the user's edits and the calls of the client,
-- each where the browser allows it.
use sync_tex.Base.{ℕ, some, List, Bool, false, true, ◌≡◌, ◌≢◌}
use mathlib.Core.Option
use sync_tex.Collab.Yjs.{Yjs, PresenceEvent}
use sync_tex.Collab.Session.{
  Session, Ready, open_ready, closed, local, on_open, on_message, on_close, connect,
  on_document_update, on_presence_events, bind_editor, destroy,
}

module _ {Y : Yjs} where
  -- The browser sets the state of the socket before it calls back.
  abbrev pub with_socket : Ready → Session Y → Session Y
  with_socket r s = record s { socket = Option.map (λ _. r) s.socket }

  pub data Step : Session Y → Session Y → Type 0 where
    opened :
        {s : Session Y}
        → s.socket ≡ some Ready.connecting
        → Step s (on_open (with_socket open_ready s))
    received :
        {s : Session Y} (bytes : List ℕ) → s.socket ≡ some open_ready → Step s (on_message bytes s)
    -- The connection fails or ends; or the close of a destroyed session's socket completes.
    dropped : {s : Session Y} → s.socket ≢ some closed → Step s (on_close (with_socket closed s))
    -- The reconnect timer runs out.
    fired : {s : Session Y} → s.timer ≡ true → Step s (connect (record s { timer = false }))
    -- The editor changes the document.
    edited :
        {s : Session Y} (d : Y.Doc) (bytes : List ℕ)
        → Step s (on_document_update local bytes (record s { doc = d }))
    -- The editor changes the local awareness state, or an outdated peer is removed.
    moved :
        {s : Session Y} (p : Y.Presence) (events : List PresenceEvent)
        → Step s (on_presence_events local events (record s { presence = p }))
    bound_editor :
        {s : Session Y} (has_model : Bool)
        → s.destroyed ≡ false
        → Step s (bind_editor has_model s).1
    destroyed_session : {s : Session Y} → Step s (destroy s)

  pub data Reach (s : Session Y) : Session Y → Type 0 where
    here : Reach s s
    next : {t u : Session Y} → Reach s t → Step t u → Reach s u
