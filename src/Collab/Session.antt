-- ===== src/Collab/Session.antt =====
-- `createCollabSession` of frontend/src/api/session.js: one function per handler, over the state
-- that the closure holds. What the session does to the outside is kept in a log, newest first.
pub mod Log
pub mod Run
pub mod Invariant
pub mod Safety
pub mod Echo
use sync_tex.Base.{
  ℕ, ◌+◌, String, Option, none, some, List, [], ◌∷◌, ◌++◌, Bool, true, false, not, ◌&&◌, ◌||◌,
  if◌then◌else◌, is_some, leb, map_some,
}
use sync_tex.Collab.Presence.{AwarenessUser, row, same_key, awareness_styles}
use sync_tex.Collab.User.{Source, normalize_awareness_user}
use sync_tex.Collab.Wire.{
  sync_frame, awareness_frame, Incoming, ignored, document, presence, decode,
}
use sync_tex.Collab.Yjs.{Yjs, PresenceEvent, change, update}

abbrev pub reconnect_delay_ms : ℕ
reconnect_delay_ms = 2000

abbrev pub max_reconnect_attempts : ℕ
max_reconnect_attempts = 5

-- `ws.readyState`; CLOSING is left out, since no handler tells it from CLOSED.
pub data Ready : Type 0 where
  connecting open_ready closed : Ready

pub data Status : Type 0 where
  connecting connected disconnected : Status

pub data Origin : Type 0 where
  local remote : Origin

pub data Effect : Type 0 where
  -- `onStatus`
  status : Status → Effect
  -- `new WebSocket(url)`, `ws.send(frame)`, `ws.close()`
  opened_socket closed_socket : Effect
  sent : List ℕ → Effect
  -- `onAwarenessChange`
  users : List AwarenessUser → Effect
  -- `setTimeout(connect, delay)`
  armed : ℕ → Effect
  -- `new MonacoBinding(…)`, `binding.destroy()`
  bound unbound : Effect

abbrev pub is_open : Option Ready → Bool
is_open (some open_ready) = true
is_open _ = false

-- `clientIds.length === 0`
abbrev is_empty : List ℕ → Bool
is_empty [] = true
is_empty (_ ∷ _) = false

pub record Session (Y : Yjs) : Type 0 where
  pub doc : Y.Doc
  pub presence : Y.Presence
  pub socket : Option Ready
  pub binding : Bool
  pub destroyed : Bool
  pub reconnect_attempts : ℕ
  -- a reconnect timer is running
  pub timer : Bool
  -- the text of the style element, if there is one
  pub style : Option String
  -- the users of the last key; none for the empty key
  pub last_users : Option (List AwarenessUser)
  -- `emitAwarenessChange` is registered for `change`
  pub listening : Bool
  pub log : List Effect

module _ {Y : Yjs} where
  abbrev pub emit : Effect → Session Y → Session Y
  emit e s = record s { log = e ∷ s.log }

  unfoldable pub get_awareness_users : Session Y → List AwarenessUser
  get_awareness_users s = map_some (row (Y.client_id s.presence)) (Y.states s.presence)

  unfoldable pub emit_awareness_change : Session Y → Session Y
  emit_awareness_change s =
      let us = get_awareness_users s in
      if same_key us s.last_users then s else record s {
        last_users = some us;
        style = some (awareness_styles us);
        log = users us ∷ s.log;
      }

  unfoldable pub send_awareness_update : List ℕ → Session Y → Session Y
  send_awareness_update client_ids s =
      if not (is_open s.socket) || is_empty client_ids
      then s
      else emit (sent (awareness_frame (Y.encode s.presence client_ids))) s

  -- The listeners of `awareness.on('change')` and `awareness.on('update')`.
  unfoldable pub on_presence_event : Origin → PresenceEvent → Session Y → Session Y
  unfolding send_awareness_update emit_awareness_change
  on_presence_event origin change s = if s.listening then emit_awareness_change s else s
  on_presence_event remote (update added updated removed) s = s
  on_presence_event local (update added updated removed) s =
      send_awareness_update (added ++ (updated ++ removed)) s

  unfoldable pub on_presence_events : Origin → List PresenceEvent → Session Y → Session Y
  unfolding on_presence_event
  on_presence_events origin [] s = s
  on_presence_events origin (e ∷ es) s = on_presence_events origin es (on_presence_event origin e s)

  abbrev with_presence : Origin → Y.Presence × List PresenceEvent → Session Y → Session Y
  with_presence origin (p, events) s = on_presence_events origin events (record s { presence = p })

  -- The listener of `ydoc.on('update')`.
  unfoldable pub on_document_update : Origin → List ℕ → Session Y → Session Y
  on_document_update remote bytes s = s
  on_document_update local bytes s =
      if is_open s.socket then emit (sent (sync_frame bytes)) s else s

  unfoldable pub on_document_updates : Origin → List (List ℕ) → Session Y → Session Y
  on_document_updates origin [] s = s
  on_document_updates origin (u ∷ us) s =
      on_document_updates origin us (on_document_update origin u s)

  abbrev with_doc : Origin → Y.Doc × List (List ℕ) → Session Y → Session Y
  with_doc origin (d, fired) s = on_document_updates origin fired (record s { doc = d })

  unfoldable pub connect : Session Y → Session Y
  connect s = if s.destroyed then s else record s {
    socket = some Ready.connecting;
    log = opened_socket ∷ status Status.connecting ∷ s.log;
  }

  -- `ws.onopen`; the browser has set the socket's state.
  unfoldable pub on_open : Session Y → Session Y
  unfolding send_awareness_update emit_awareness_change
  on_open s = emit_awareness_change (
      send_awareness_update (Y.client_id s.presence ∷ [])
        (record s { reconnect_attempts = 0; log = status connected ∷ s.log }))

  abbrev pub act_on : Incoming → Session Y → Session Y
  act_on ignored s = s
  act_on (document payload) s =
      let applied = with_doc remote (Y.apply_update payload s.doc) s in
      if s.binding then with_presence local (Y.follow payload s.doc s.presence) applied else applied
  act_on (presence payload) s = with_presence remote (Y.apply_presence payload s.presence) s

  -- `ws.onmessage`
  unfoldable pub on_message : List ℕ → Session Y → Session Y
  on_message bytes s = act_on (decode bytes) s

  unfoldable pub schedule_reconnect : Session Y → Session Y
  schedule_reconnect s =
      if s.destroyed || leb max_reconnect_attempts s.reconnect_attempts then s else record s {
        reconnect_attempts = s.reconnect_attempts + 1;
        timer = true;
        log = armed reconnect_delay_ms ∷ s.log;
      }

  -- `ws.onclose`
  unfoldable pub on_close : Session Y → Session Y
  unfolding schedule_reconnect
  on_close s = if s.destroyed then s else schedule_reconnect (emit (status disconnected) s)

  abbrev unbind : Session Y → Session Y
  unbind s = if s.binding then record s { binding = false; log = unbound ∷ s.log } else s

  -- `bindEditor`: whether the editor has a model yet.
  unfoldable pub bind_editor : Bool → Session Y → Bool × Session Y
  bind_editor false s = (false, unbind s)
  bind_editor true s =
      let s' = unbind s in (true, record s' { binding = true; log = bound ∷ s'.log })

  unfoldable pub get_content : Session Y → String
  get_content s = Y.content s.doc

  abbrev leave : Session Y → Session Y
  leave s =
      if is_open s.socket && Y.has_local_state s.presence
      then with_presence local (Y.clear_local_state s.presence) s
      else s

  abbrev close_socket : Session Y → Session Y
  close_socket s =
      if is_some s.socket then record s { socket = none; log = closed_socket ∷ s.log } else s

  -- The statements of `destroy` from `destroyed = true` to `onAwarenessChange([])`.
  pub unhook : Session Y → Session Y
  unhook s =
      let s' = close_socket (unbind (record s { destroyed = true; timer = false })) in
      record s' { listening = false; style = none; log = users [] ∷ s'.log }

  shut_down : Session Y → Session Y
  unfolding unhook
  shut_down s = with_presence local (Y.dispose (unhook s).presence) (unhook s)

  unfoldable pub destroy : Session Y → Session Y
  unfolding shut_down on_presence_events
  destroy s = if s.destroyed then s else shut_down (leave s)

module _ (Y : Yjs) where
  -- The state before the first `connect`.
  unfoldable pub fresh : Option Source → Session Y
  fresh source = record {
    doc = Y.new_doc;
    presence = (Y.set_local_user (normalize_awareness_user source) (Y.new_presence Y.new_doc)).0;
    socket = none;
    binding = false;
    destroyed = false;
    reconnect_attempts = 0;
    timer = false;
    style = none;
    last_users = none;
    listening = true;
    log = [];
  }

  -- `createCollabSession`; the source is `localUser ?? user`.
  unfoldable pub create_collab_session : Option Source → Session Y
  unfolding fresh connect emit_awareness_change
  create_collab_session source = emit_awareness_change (connect (fresh source))
