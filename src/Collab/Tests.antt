-- ===== src/Collab/Tests.antt =====
-- Runs of a session over a small stand-in for yjs, and the theorems at concrete inputs.
use sync_tex.Base.{
  ◌⊎◌, ℕ, ◌≤◌, ◌<◌, ◌+◌, ◌*◌, some, List, [], ◌∷◌, ◌++◌, Bool, true, false, ◌≡◌, refl, str, num,
  units, to_text,
}
use sync_tex.Collab.Color.{
  hash_from, color_for_user_id, is_hex_color, color_with_alpha, channels, rgba,
}
use sync_tex.Collab.Color.Hash.{hash_from-eq-sum}
use sync_tex.Collab.Color.Hex.{color_with_alpha_lem, hex_number, after_hash}
use sync_tex.Collab.User.{Source, empty_source, normalize_awareness_user}
use sync_tex.Collab.User.Idempotent.{published, normalize_awareness_user_idem}
use sync_tex.Collab.Wire.{awareness_frame, decode, document}
use sync_tex.Collab.Yjs.{Yjs, change, update}
use sync_tex.Collab.Presence.{same_users}
use sync_tex.Collab.Session.{
  Session, Ready, open_ready, is_open, on_open, on_presence_events, on_document_updates,
  on_document_update, on_message, destroy, create_collab_session, max_reconnect_attempts, local,
  get_awareness_users,
}
use sync_tex.Collab.Session.Log.{frames, SentOnline, tries, first_try}
use sync_tex.Collab.Session.Run.{opened, edited, destroyed_session, Reach, here, next}
use sync_tex.Collab.Session.Safety.{reconnects_bounded, frames-SentOnline, destroyed_silent}
use sync_tex.Collab.Session.Echo.{Adds, on_message-frames, edit-delivered}

abbrev ada : Source
ada = record empty_source { id = num 7; name = str "Ada"; color = str "blue" }

ada_normalized :
    normalize_awareness_user (some ada)
    ≡ record { id = "7"; name = "Ada"; email = ""; avatar_url = ""; color = some "#2563eb" }
unfolding normalize_awareness_user to_text color_for_user_id is_hex_color
ada_normalized = refl

normalize_awareness_user_idem_example :
    normalize_awareness_user (some (published (normalize_awareness_user (some ada))))
    ≡ normalize_awareness_user (some ada)
normalize_awareness_user_idem_example = normalize_awareness_user_idem (some ada)

hash_from-eq-sum_example : hash_from 0 (97 ∷ 98 ∷ 99 ∷ []) ≡ 96354
hash_from-eq-sum_example = hash_from-eq-sum (97 ∷ 98 ∷ 99 ∷ [])

color_with_alpha_lem_example :
    ((is_hex_color (str "#1f80dd") ≡ true)
      × (color_with_alpha (str "#1f80dd") "0.18"
          ≡ rgba
              (channels (units "#1f80dd")).red
              (channels (units "#1f80dd")).green
              (channels (units "#1f80dd")).blue
              "0.18")
      × ((channels (units "#1f80dd")).red < 256)
      × ((channels (units "#1f80dd")).green < 256)
      × ((channels (units "#1f80dd")).blue < 256)
      × ((channels (units "#1f80dd")).red * 65536
            + (channels (units "#1f80dd")).green * 256
            + (channels (units "#1f80dd")).blue
          ≡ hex_number 0 (after_hash (units "#1f80dd"))))
    ⊎ ((is_hex_color (str "#1f80dd") ≡ false)
        × (color_with_alpha (str "#1f80dd") "0.18" ≡ rgba 31 128 221 "0.18"))
color_with_alpha_lem_example = color_with_alpha_lem "#1f80dd" "0.18"

-- A document is the bytes of its updates; the awareness state is whether the local user is there.
abbrev toy : Yjs
toy = record {
  Doc = List ℕ;
  Presence = Bool;
  new_doc = [];
  new_presence = λ d. false;
  apply_update = λ u d. (d ++ u, u ∷ []);
  follow = λ u d p. (p, change ∷ update [] (7 ∷ []) [] ∷ []);
  content = λ d. "";
  client_id = λ p. 7;
  states = λ p. (7, some ada) ∷ [];
  has_local_state = λ p. p;
  set_local_user = λ u p. (true, change ∷ update [] (7 ∷ []) [] ∷ []);
  clear_local_state = λ p. (false, change ∷ update [] [] (7 ∷ []) ∷ []);
  encode = λ p ids. 9 ∷ ids;
  apply_presence = λ bytes p. (p, change ∷ update (8 ∷ []) [] [] ∷ []);
  dispose = λ p. (false, update [] [] (7 ∷ []) ∷ []);
}

abbrev created : Session toy
created = create_collab_session toy (some ada)

abbrev opened_once : Session toy
opened_once = on_open (record created { socket = some open_ready })

created_socket : created.socket ≡ some Ready.connecting
unfolding create_collab_session
created_socket = refl

one_opened : Reach created opened_once
unfolding create_collab_session
one_opened = next here (opened refl)

abbrev gone : Session toy
gone = destroy opened_once

one_destroyed : Reach created gone
one_destroyed = next one_opened (destroyed_session)

gone_frames : frames gone.log ≡ (1 ∷ 9 ∷ 7 ∷ []) ∷ (1 ∷ 9 ∷ 7 ∷ []) ∷ []
unfolding create_collab_session on_open destroy awareness_frame same_users get_awareness_users
    normalize_awareness_user to_text is_hex_color color_for_user_id
gone_frames = refl

reconnects_bounded_example :
    (gone.reconnect_attempts ≤ max_reconnect_attempts)
    × (first_try gone.log ≤ 1)
    × (tries gone.log ≤ 5 + first_try gone.log)
reconnects_bounded_example = reconnects_bounded toy (some ada) one_destroyed

frames-SentOnline_example : SentOnline gone.log
frames-SentOnline_example = frames-SentOnline toy (some ada) one_destroyed

gone_destroyed : gone.destroyed ≡ true
unfolding create_collab_session on_open destroy same_users get_awareness_users
    normalize_awareness_user to_text is_hex_color color_for_user_id
gone_destroyed = refl

destroyed_silent_example :
    ((on_document_update local (4 ∷ []) (record gone { doc = 4 ∷ [] })).log ≡ gone.log)
    × ((on_document_update local (4 ∷ []) (record gone { doc = 4 ∷ [] })).destroyed ≡ true)
destroyed_silent_example =
    destroyed_silent toy (some ada) one_destroyed gone_destroyed
      (next here (edited (4 ∷ []) (4 ∷ [])))

on_message-frames_example :
    Adds (frames opened_once.log) (frames (on_message (0 ∷ 2 ∷ 5 ∷ []) opened_once).log)
    × ((frames (on_message (0 ∷ 2 ∷ 5 ∷ []) opened_once).log ≡ frames opened_once.log)
        ⊎ ((opened_once.binding ≡ true)
            × ((payload : List ℕ) × (decode (0 ∷ 2 ∷ 5 ∷ []) ≡ document payload))))
on_message-frames_example = on_message-frames (0 ∷ 2 ∷ 5 ∷ []) opened_once

-- Where an editor is bound, a document update may be answered by a frame of the awareness state.
answered_update :
    frames (on_message (0 ∷ 2 ∷ 5 ∷ []) (record opened_once { binding = true })).log
    ≡ (1 ∷ 9 ∷ 7 ∷ []) ∷ frames opened_once.log
unfolding create_collab_session on_open on_message decode awareness_frame same_users
    on_presence_events on_document_updates on_document_update get_awareness_users
    normalize_awareness_user to_text is_hex_color color_for_user_id
answered_update = refl

edit-delivered_example :
    (((is_open opened_once.socket ≡ true)
        × (frames (on_document_update local (5 ∷ []) opened_once).log
            ≡ (0 ∷ 2 ∷ 5 ∷ []) ∷ frames opened_once.log))
      ⊎ ((is_open opened_once.socket ≡ false)
          × (on_document_update local (5 ∷ []) opened_once ≡ opened_once)))
    × ((on_message (0 ∷ 2 ∷ 5 ∷ []) created).doc ≡ created.doc ++ 5 ∷ [])
    × ((on_message (0 ∷ 2 ∷ 5 ∷ []) created ≡ record created { doc = created.doc ++ 5 ∷ [] })
        ⊎ (created.binding ≡ true))
edit-delivered_example = edit-delivered (5 ∷ []) opened_once created
