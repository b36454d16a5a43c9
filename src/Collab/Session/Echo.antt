-- ===== src/Collab/Session/Echo.antt =====
-- The traffic of a session: no echo of what arrives, and delivery of what is edited.
use sync_tex.Base.{
  Bool-cases, inl, inr, ◌⊎◌, ℕ, List, [], ◌∷◌, ◌++◌, not, ◌||◌, Bool, if◌then◌else◌, true, false,
  ◌≡◌, refl, ◌∙◌, arith, if_both, ap,
}
use sync_tex.Collab.Wire.{
  Incoming, ignored, document, presence, decode, sync_frame, awareness_frame,
}
use sync_tex.Collab.Yjs.{Yjs, PresenceEvent, change, update}
use sync_tex.Collab.Presence.{same_key}
use sync_tex.Collab.Session.{
  Session, Origin, local, remote, is_open, is_empty, on_presence_event, on_presence_events,
  on_document_update, on_document_updates, on_message, act_on, send_awareness_update,
  get_awareness_users,
}
use sync_tex.Collab.Session.Log.{frames}

-- What a session sends itself of its awareness state.
abbrev pub IsPresenceFrame : List ℕ → Type 0
IsPresenceFrame frame = (payload : List ℕ) × (frame ≡ 1 ∷ payload)

-- The frames of a log, and others of the awareness state before them.
pub data Adds (old : List (List ℕ)) : List (List ℕ) → Type 0 where
  none_more : Adds old old
  one_more :
      {new : List (List ℕ)} (frame : List ℕ)
      → IsPresenceFrame frame
      → Adds old new
      → Adds old (frame ∷ new)

-- Without the first branch, a choice is the second.
if_or_true {ℓ} :
    {A : Type ℓ} (b : Bool) (x y z : A) → y ≡ z → ((if b then x else y) ≡ z) ⊎ (b ≡ true)
if_or_true true x y z e = inr refl
if_or_true false x y z e = inl e

module _ {Y : Yjs} where
  remote-event-frames :
      (e : PresenceEvent) (s : Session Y) → frames (on_presence_event remote e s).log ≡ frames s.log
  unfolding on_presence_event
  remote-event-frames change s =
      if_both (λ (x : Session Y). frames x.log ≡ frames s.log) s.listening
        (λ on.
          if_both (λ (x : Session Y). frames x.log ≡ frames s.log)
            (same_key (get_awareness_users s) s.last_users) (λ same. refl) (λ other. refl))
        (λ off. refl)
  remote-event-frames (update added updated removed) s = refl

  remote-events-frames :
      (es : List PresenceEvent) (s : Session Y)
      → frames (on_presence_events remote es s).log ≡ frames s.log
  unfolding on_presence_events
  remote-events-frames [] s = refl
  remote-events-frames (e ∷ es) s =
      remote-events-frames es (on_presence_event remote e s) ∙ remote-event-frames e s

  remote-updates-same : (us : List (List ℕ)) (s : Session Y) → on_document_updates remote us s ≡ s
  unfolding on_document_updates on_document_update
  remote-updates-same [] s = refl
  remote-updates-same (u ∷ us) s = remote-updates-same us s

  Adds-event :
      (old : List (List ℕ)) (o : Origin) (e : PresenceEvent) (s : Session Y)
      → Adds old (frames s.log)
      → Adds old (frames (on_presence_event o e s).log)
  Adds-event old o change s h =
      unfold on_presence_event in
      if_both (λ (x : Session Y). Adds old (frames x.log)) s.listening
        (λ on.
          if_both (λ (x : Session Y). Adds old (frames x.log))
            (same_key (get_awareness_users s) s.last_users) (λ same. h) (λ other. h))
        (λ off. h)
  Adds-event old remote (update added updated removed) s h = unfold on_presence_event in h
  Adds-event old local (update added updated removed) s h =
      unfold on_presence_event send_awareness_update awareness_frame in
      if_both (λ (x : Session Y). Adds old (frames x.log))
        (not (is_open s.socket) || is_empty (added ++ (updated ++ removed))) (λ quiet. h)
        (λ sends. one_more _ (Y.encode s.presence (added ++ (updated ++ removed)), refl) h)

  Adds-events :
      (old : List (List ℕ)) (o : Origin) (es : List PresenceEvent) (s : Session Y)
      → Adds old (frames s.log)
      → Adds old (frames (on_presence_events o es s).log)
  unfolding on_presence_events
  Adds-events old o [] s h = h
  Adds-events old o (e ∷ es) s h =
      Adds-events old o es (on_presence_event o e s) (Adds-event old o e s h)

  -- What a session does with a message that has been read.
  act_on-Adds : (m : Incoming) (s : Session Y) → Adds (frames s.log) (frames (act_on m s).log)
  act_on-Adds ignored s = none_more
  act_on-Adds (document payload) s =
      let applied =
        on_document_updates remote (Y.apply_update payload s.doc).1
          (record s { doc = (Y.apply_update payload s.doc).0 }) in
      let h : Adds (frames s.log) (frames applied.log) =
        rw
          (remote-updates-same (Y.apply_update payload s.doc).1
            (record s { doc = (Y.apply_update payload s.doc).0 }))
          none_more in
      if_both (λ (x : Session Y). Adds (frames s.log) (frames x.log)) s.binding
        (λ bound. Adds-events (frames s.log) local _ _ h) (λ free. h)
  act_on-Adds (presence payload) s = Adds-events (frames s.log) remote _ _ none_more

  act_on-frames :
      (m : Incoming) (s : Session Y)
      → (frames (act_on m s).log ≡ frames s.log)
        ⊎ ((s.binding ≡ true) × ((payload : List ℕ) × (m ≡ document payload)))
  act_on-frames ignored s = inl refl
  act_on-frames (document payload) s = elim (Bool-cases s.binding) [
    | inl bound ↦ inr (bound, (payload, refl))
    | inr free ↦ inl (rw free (ap (λ x. frames x.log) (remote-updates-same _ _)))
  ]
  act_on-frames (presence payload) s = inl (remote-events-frames _ _)

  -- Whatever bytes arrive, and whatever updates and events applying them fires: no document update is
  -- sent in return, since every frame that is sent then is one of the awareness state; and no frame at
  -- all is sent unless an editor is bound and the bytes are a document update.
  pub on_message-frames :
      (bytes : List ℕ) (s : Session Y)
      → Adds (frames s.log) (frames (on_message bytes s).log)
        × ((frames (on_message bytes s).log ≡ frames s.log)
            ⊎ ((s.binding ≡ true) × ((payload : List ℕ) × (decode bytes ≡ document payload))))
  unfolding on_message
  on_message-frames bytes s = (act_on-Adds (decode bytes) s, act_on-frames (decode bytes) s)

  doc_of_event :
      (o : Origin) (e : PresenceEvent) (s : Session Y) → (on_presence_event o e s).doc ≡ s.doc
  doc_of_event o change s =
      unfold on_presence_event in
      if_both (λ (x : Session Y). x.doc ≡ s.doc) s.listening
        (λ on.
          if_both (λ (x : Session Y). x.doc ≡ s.doc) (same_key (get_awareness_users s) s.last_users)
            (λ same. refl) (λ other. refl))
        (λ off. refl)
  doc_of_event remote (update added updated removed) s = unfold on_presence_event in refl
  doc_of_event local (update added updated removed) s =
      unfold on_presence_event send_awareness_update in
      if_both (λ (x : Session Y). x.doc ≡ s.doc)
        (not (is_open s.socket) || is_empty (added ++ (updated ++ removed))) (λ quiet. refl)
        (λ sends. refl)

  doc_of_events :
      (o : Origin) (es : List PresenceEvent) (s : Session Y)
      → (on_presence_events o es s).doc ≡ s.doc
  unfolding on_presence_events
  doc_of_events o [] s = refl
  doc_of_events o (e ∷ es) s = doc_of_events o es (on_presence_event o e s) ∙ doc_of_event o e s

  -- A document update that arrives is applied, and where no editor is bound nothing else is done.
  received_update :
      (u : List ℕ) (t : Session Y)
      → ((act_on (document u) t).doc ≡ (Y.apply_update u t.doc).0)
        × ((act_on (document u) t ≡ record t { doc = (Y.apply_update u t.doc).0 })
            ⊎ (t.binding ≡ true))
  received_update u t =
      let e =
        remote-updates-same (Y.apply_update u t.doc).1
          (record t { doc = (Y.apply_update u t.doc).0 }) in
      (
        if_both (λ (x : Session Y). x.doc ≡ (Y.apply_update u t.doc).0) t.binding
            (λ bound. doc_of_events local _ _ ∙ ap (λ x. x.doc) e) (λ free. ap (λ x. x.doc) e),
        if_or_true t.binding _ _ _ e,
      )

  -- An edit in an open session sends one frame, of the bytes 0 and 2 and the edit's update; an edit
  -- sends nothing when the socket is not open. A session that receives that frame applies just the
  -- edit's update to its document, and does nothing else unless an editor is bound.
  pub edit-delivered :
      (u : List ℕ) (s t : Session Y)
      → (((is_open s.socket ≡ true)
            × (frames (on_document_update local u s).log ≡ (0 ∷ 2 ∷ u) ∷ frames s.log))
          ⊎ ((is_open s.socket ≡ false) × (on_document_update local u s ≡ s)))
        × ((on_message (0 ∷ 2 ∷ u) t).doc ≡ (Y.apply_update u t.doc).0)
        × ((on_message (0 ∷ 2 ∷ u) t ≡ record t { doc = (Y.apply_update u t.doc).0 })
            ⊎ (t.binding ≡ true))
  unfolding on_document_update on_message sync_frame decode
  edit-delivered u s t = (
    elim (Bool-cases (is_open s.socket)) [
      | inl online ↦ inl (online, rw online refl)
      | inr offline ↦ inr (offline, ground (arith, offline))
    ],
    (received_update u t).0,
    (received_update u t).1,
  )

  -- The local awareness state of clients that an open session announces reaches a peer as the encoded
  -- update, unless the encoding is empty; no clients, or a socket that is not open, send nothing.
  pub awareness-delivered :
      (ids bytes : List ℕ) (b : ℕ) (s t : Session Y)
      → is_empty ids ≡ false
      → Y.encode s.presence ids ≡ b ∷ bytes
      → is_open s.socket ≡ true
      → (frames (send_awareness_update ids s).log ≡ awareness_frame (b ∷ bytes) ∷ frames s.log)
        × (on_message (awareness_frame (b ∷ bytes)) t
            ≡ on_presence_events remote
                (Y.apply_presence (b ∷ bytes) t.presence).1
                (record t { presence = (Y.apply_presence (b ∷ bytes) t.presence).0 }))
  unfolding on_message awareness_frame decode send_awareness_update
  awareness-delivered ids bytes b s t i e o = (ground arith, refl)
