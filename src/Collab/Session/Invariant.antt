-- ===== src/Collab/Session/Invariant.antt =====
-- The invariant of a session, over every sequence of events.
use sync_tex.Base.{
  ℕ, ◌+◌, ◌≤◌, Option, none, some, List, [], ◌∷◌, ◌++◌, Bool, true, false, not, ◌&&◌, ◌||◌, ◌≡◌,
  ◌≢◌, is_some, arith, Bool-cases, if_both, inl, inr,
}
use sync_tex.Collab.User.{Source}
use sync_tex.Collab.Wire.{Incoming, ignored, document, presence, decode}
use sync_tex.Collab.Yjs.{Yjs, PresenceEvent, change, update}
use sync_tex.Collab.Presence.{same_key}
use sync_tex.Collab.Session.{
  Session, Ready, open_ready, closed, connected, status, Origin, local, remote, is_open, is_empty,
  get_awareness_users, emit_awareness_change, send_awareness_update, on_presence_event,
  on_presence_events, on_document_update, on_document_updates, on_open, on_message, on_close,
  connect, act_on, bind_editor, destroy, leave, unhook, shut_down, fresh, create_collab_session,
  max_reconnect_attempts,
}
use sync_tex.Collab.Session.Log.{online, SentOnline, tries, first_try, pending}
use sync_tex.Collab.Session.Run.{
  with_socket, Step, opened, received, dropped, fired, edited, moved, bound_editor,
  destroyed_session, Reach, here, next,
}

module _ {Y : Yjs} where
  pub record IsValid (s : Session Y) : Type 0 where
    pub online_if_open : online s.log ≡ is_open s.socket
    pub sent_online : SentOnline s.log
    pub attempts_bound : s.reconnect_attempts ≤ max_reconnect_attempts
    pub tries_bound : tries s.log + pending s.timer ≤ s.reconnect_attempts + first_try s.log
    pub timer_closed : s.timer ≡ true → s.socket ≡ some closed
    pub alive_socket : s.destroyed ≡ false → is_some s.socket ≡ true
    pub gone_socket : s.destroyed ≡ true → s.socket ≡ none
    pub gone_timer : s.destroyed ≡ true → s.timer ≡ false
    pub gone_listener : s.destroyed ≡ true → s.listening ≡ false

  emit_awareness_change-IsValid : {s : Session Y} → IsValid s → IsValid (emit_awareness_change s)
  unfolding emit_awareness_change
  emit_awareness_change-IsValid {s} v =
      elim (Bool-cases (same_key (get_awareness_users s) s.last_users)) [
        | inl same ↦ rw same v
        | inr other ↦ rw other (ground arith)
      ]

  send_awareness_update-IsValid :
      (ids : List ℕ) {s : Session Y} → IsValid s → IsValid (send_awareness_update ids s)
  unfolding send_awareness_update
  send_awareness_update-IsValid ids {s} v =
      elim (Bool-cases (not (is_open s.socket) || is_empty ids)) [
        | inl quiet ↦ rw quiet v
        | inr sends ↦ rw sends (ground arith)
      ]

  on_presence_event-IsValid :
      (o : Origin) (e : PresenceEvent) {s : Session Y}
      → IsValid s
      → IsValid (on_presence_event o e s)
  on_presence_event-IsValid o change {s} v =
      unfold on_presence_event in
      if_both IsValid s.listening (λ _. emit_awareness_change-IsValid v) (λ _. v)
  on_presence_event-IsValid remote (update added updated removed) v = unfold on_presence_event in v
  on_presence_event-IsValid local (update added updated removed) v =
      unfold on_presence_event in send_awareness_update-IsValid (added ++ (updated ++ removed)) v

  on_presence_events-IsValid :
      (o : Origin) (es : List PresenceEvent) {s : Session Y}
      → IsValid s
      → IsValid (on_presence_events o es s)
  unfolding on_presence_events
  on_presence_events-IsValid o [] v = v
  on_presence_events-IsValid o (e ∷ es) v =
      on_presence_events-IsValid o es (on_presence_event-IsValid o e v)

  with_presence-IsValid :
      (o : Origin) (p : Y.Presence) (es : List PresenceEvent) {s : Session Y}
      → IsValid s
      → IsValid (on_presence_events o es (record s { presence = p }))
  with_presence-IsValid o p es {s} v = on_presence_events-IsValid o es (ground arith)

  on_document_update-IsValid :
      (o : Origin) (bytes : List ℕ) {s : Session Y}
      → IsValid s
      → IsValid (on_document_update o bytes s)
  unfolding on_document_update
  on_document_update-IsValid remote bytes v = v
  on_document_update-IsValid local bytes {s} v = elim (Bool-cases (is_open s.socket)) [
    | inl open_now ↦ rw open_now (ground arith)
    | inr shut ↦ rw shut v
  ]

  on_document_updates-IsValid :
      (o : Origin) (us : List (List ℕ)) {s : Session Y}
      → IsValid s
      → IsValid (on_document_updates o us s)
  unfolding on_document_updates
  on_document_updates-IsValid o [] v = v
  on_document_updates-IsValid o (u ∷ us) v =
      on_document_updates-IsValid o us (on_document_update-IsValid o u v)

  abbrev connected_now : Session Y → Session Y
  connected_now s = record (with_socket open_ready s) {
    reconnect_attempts = 0;
    log = status connected ∷ s.log;
  }

  on_open-IsValid :
      (s : Session Y)
      → IsValid s
      → s.socket ≡ some Ready.connecting
      → IsValid (on_open (with_socket open_ready s))
  on_open-IsValid s v e =
      unfold on_open in
      emit_awareness_change-IsValid (
        send_awareness_update-IsValid (Y.client_id s.presence ∷ []) {s = connected_now s}
          (ground arith))

  on_message-IsValid : (bytes : List ℕ) (s : Session Y) → IsValid s → IsValid (on_message bytes s)
  unfolding on_message
  on_message-IsValid bytes s v = go (decode bytes)
    where
      go : (m : Incoming) → IsValid (act_on m s)
      go ignored = v
      go (document payload) =
          let applied : IsValid (
              on_document_updates remote (Y.apply_update payload s.doc).1
                (record s { doc = (Y.apply_update payload s.doc).0 })) =
            on_document_updates-IsValid remote _ (ground arith) in
          if_both IsValid s.binding (λ _. with_presence-IsValid local _ _ applied) (λ _. applied)
      go (presence payload) = with_presence-IsValid remote _ _ v

  on_close-IsValid :
      (s : Session Y)
      → IsValid s
      → s.socket ≢ some closed
      → IsValid (on_close (with_socket closed s))
  unfolding on_close
  on_close-IsValid s v n = ground arith

  connect-IsValid :
      (s : Session Y) → IsValid s → s.timer ≡ true → IsValid (connect (record s { timer = false }))
  unfolding connect
  connect-IsValid s v e = ground arith

  bind_editor-IsValid : (m : Bool) (s : Session Y) → IsValid s → IsValid (bind_editor m s).1
  unfolding bind_editor
  bind_editor-IsValid false s v = ground arith
  bind_editor-IsValid true s v = ground arith

  leave-IsValid : (s : Session Y) → IsValid s → IsValid (leave s)
  leave-IsValid s v =
      if_both IsValid (is_open s.socket && Y.has_local_state s.presence)
        (λ _.
          with_presence-IsValid local (Y.clear_local_state s.presence).0
            (Y.clear_local_state s.presence).1 v)
        (λ _. v)

  unhook-IsValid : (s : Session Y) → IsValid s → IsValid (unhook s)
  unfolding unhook
  unhook-IsValid s v = ground arith

  shut_down-IsValid : (s : Session Y) → IsValid s → IsValid (shut_down s)
  shut_down-IsValid s v =
      unfold shut_down in
      with_presence-IsValid local (Y.dispose (unhook s).presence).0
        (Y.dispose (unhook s).presence).1 (unhook-IsValid s v)

  destroy-IsValid : (s : Session Y) → IsValid s → IsValid (destroy s)
  destroy-IsValid s v =
      unfold destroy in
      if_both IsValid s.destroyed (λ _. v) (λ _. shut_down-IsValid (leave s) (leave-IsValid s v))

  pub Step-IsValid : {s t : Session Y} → Step s t → IsValid s → IsValid t
  Step-IsValid (opened {s} e) v = on_open-IsValid s v e
  Step-IsValid (received {s} bytes e) v = on_message-IsValid bytes s v
  Step-IsValid (dropped {s} n) v = on_close-IsValid s v n
  Step-IsValid (fired {s} e) v = connect-IsValid s v e
  Step-IsValid (edited {s} d bytes) v =
      on_document_update-IsValid local bytes {s = record s { doc = d }} (ground arith)
  Step-IsValid (moved {s} p events) v = with_presence-IsValid local p events v
  Step-IsValid (bound_editor {s} m e) v = bind_editor-IsValid m s v
  Step-IsValid (destroyed_session {s}) v = destroy-IsValid s v

  pub Reach-IsValid : {s t : Session Y} → IsValid s → Reach s t → IsValid t
  Reach-IsValid v here = v
  Reach-IsValid v (next r st) = Step-IsValid st (Reach-IsValid v r)

module _ (Y : Yjs) (source : Option Source) where
  pub create_collab_session-IsValid : IsValid (create_collab_session Y source)
  create_collab_session-IsValid =
      unfold create_collab_session in emit_awareness_change-IsValid started
    where
      started : IsValid (connect (fresh Y source))
      started = unfold fresh connect in ground arith
