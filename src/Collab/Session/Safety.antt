-- ===== src/Collab/Session/Safety.antt =====
-- What holds of a session in every state that it can reach.
use sync_tex.Base.{
  ◌+◌, ◌≤◌, Option, List, [], ◌∷◌, ◌++◌, true, false, ◌||◌, not, ◌≡◌, refl, ◌∙◌, arith, if_both, ap,
}
use sync_tex.Collab.User.{Source}
use sync_tex.Collab.Wire.{awareness_frame}
use sync_tex.Collab.Yjs.{Yjs, PresenceEvent, change, update}
use sync_tex.Collab.Session.{
  Session, Status, connected, disconnected, Effect, status, sent, is_empty, emit, Origin, local,
  remote, is_open, on_presence_event, on_presence_events, on_document_update, on_close, destroy,
  create_collab_session, max_reconnect_attempts,
}
use sync_tex.Collab.Session.Log.{SentOnline, tries, first_try}
use sync_tex.Collab.Session.Run.{
  Step, opened, received, dropped, fired, edited, moved, bound_editor, destroyed_session, Reach,
  here, next,
}
use sync_tex.Collab.Session.Invariant.{IsValid, Reach-IsValid, create_collab_session-IsValid}

first_try-le : (log : List Effect) → first_try log ≤ 1
first_try-le [] = omega arith
first_try-le (status connected ∷ log) = omega arith
first_try-le (status Status.connecting ∷ log) = first_try-le log
first_try-le (status disconnected ∷ log) = first_try-le log
first_try-le (_ ∷ log) = first_try-le log

module _ {Y : Yjs} where
  deaf-event :
      (o : Origin) (e : PresenceEvent) (s : Session Y)
      → s.listening ≡ false
      → is_open s.socket ≡ false
      → on_presence_event o e s ≡ s
  unfolding on_presence_event
  deaf-event o change s l c = if_both (λ x. x ≡ s) s.listening (λ on. cc) (λ off. refl)
  deaf-event remote (update added updated removed) s l c = refl
  deaf-event local (update added updated removed) s l c =
      if_both (λ x. x ≡ s) (not (is_open s.socket) || is_empty (added ++ (updated ++ removed)))
        {y = emit (sent (awareness_frame (Y.encode s.presence (added ++ (updated ++ removed))))) s}
        (λ quiet. refl) (λ sends. ground arith)

  deaf-events :
      (o : Origin) (es : List PresenceEvent) (s : Session Y)
      → s.listening ≡ false
      → is_open s.socket ≡ false
      → on_presence_events o es s ≡ s
  unfolding on_presence_events
  deaf-events o [] s l c = refl
  deaf-events o (e ∷ es) s l c =
      ap (on_presence_events o es) (deaf-event o e s l c) ∙ deaf-events o es s l c

  -- What a destroyed session keeps, whatever happens.
  gone-Step :
      {s t : Session Y}
      → Step s t
      → IsValid s
      → s.destroyed ≡ true
      → (t.log ≡ s.log) × (t.destroyed ≡ true)
  gone-Step (opened {s} e) v g = cc (v.gone_socket g)
  gone-Step (received {s} bytes e) v g = cc (v.gone_socket g)
  gone-Step (dropped {s} n) v g = unfold on_close in ground arith
  gone-Step (fired {s} e) v g = cc (v.gone_timer g)
  gone-Step (edited {s} d bytes) v g = unfold on_document_update in ground arith
  gone-Step (moved {s} p events) v g =
      let shut : is_open s.socket ≡ false = ground (arith, v.gone_socket g) in
      let e = deaf-events local events (record s { presence = p }) (v.gone_listener g) shut in
      (ap (λ x. x.log) e, ap (λ x. x.destroyed) e ∙ g)
  gone-Step (bound_editor {s} m e) v g = cc
  gone-Step (destroyed_session {s}) v g = unfold destroy in ground arith

module _ (Y : Yjs) (source : Option Source) {s : Session Y}
    (reached : Reach (create_collab_session Y source) s) where
  reached-IsValid : IsValid s
  reached-IsValid = Reach-IsValid (create_collab_session-IsValid Y source) reached

  -- However connections open, fail and drop, the counter of reconnects is at most five, and at most
  -- five sockets are opened since the last connection that succeeded, with one more where none has.
  pub reconnects_bounded :
      (s.reconnect_attempts ≤ max_reconnect_attempts)
      × (first_try s.log ≤ 1)
      × (tries s.log ≤ 5 + first_try s.log)
  reconnects_bounded =
      let v = reached-IsValid in
      (v.attempts_bound, first_try-le s.log, omega (arith, v.tries_bound, v.attempts_bound))

  -- Every frame that the session sent, it sent after it reported `connected` and before it reported
  -- the end of that connection or closed the socket.
  pub frames-SentOnline : SentOnline s.log
  frames-SentOnline = reached-IsValid.sent_online

  -- Nothing leaves a destroyed session: after any further events its log is what it was, so it has
  -- sent no frame, opened no socket, armed no timer and made no callback.
  pub destroyed_silent :
      {t : Session Y} → s.destroyed ≡ true → Reach s t → (t.log ≡ s.log) × (t.destroyed ≡ true)
  destroyed_silent gone here = (refl, gone)
  destroyed_silent gone (next r st) =
      let (same, still) = destroyed_silent gone r in
      let (same', still') = gone-Step st (Reach-IsValid reached-IsValid r) still in
      (same' ∙ same, still')
