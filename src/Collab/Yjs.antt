-- ===== src/Collab/Yjs.antt =====
-- What frontend/src/api/session.js uses of the packages yjs, y-protocols and y-monaco. Their calls fire
-- events synchronously; here each call returns the events that it fired, in order.
use sync_tex.Base.{ℕ, String, Option, List, Bool}
use sync_tex.Collab.User.{Source, User}

-- An event of an awareness instance: `change`, or `update` with the client ids that were added,
-- updated and removed.
pub data PresenceEvent : Type 0 where
  change : PresenceEvent
  update : List ℕ → List ℕ → List ℕ → PresenceEvent

pub record Yjs : Type 1 where
  pub Doc : Type 0
  pub Presence : Type 0
  pub new_doc : Doc
  -- `new Awareness(ydoc)`
  pub new_presence : Doc → Presence
  -- `Y.applyUpdate`, with the updates that it fires
  pub apply_update : List ℕ → Doc → Doc × List (List ℕ)
  -- what a `MonacoBinding` does to the awareness state when `Y.applyUpdate` changes the document: the
  -- selection of the editor may move, which it publishes as a change of the local state
  pub follow : List ℕ → Doc → Presence → Presence × List PresenceEvent
  -- `ytext.toString()`
  pub content : Doc → String
  -- `awareness.clientID`
  pub client_id : Presence → ℕ
  -- `awareness.getStates()`, with the `user` of each state
  pub states : Presence → List (ℕ × Option Source)
  -- `awareness.getLocalState() !== null`
  pub has_local_state : Presence → Bool
  -- `awareness.setLocalStateField('user', …)`
  pub set_local_user : User → Presence → Presence × List PresenceEvent
  -- `awareness.setLocalState(null)`
  pub clear_local_state : Presence → Presence × List PresenceEvent
  -- `encodeAwarenessUpdate`
  pub encode : Presence → List ℕ → List ℕ
  -- `applyAwarenessUpdate`
  pub apply_presence : List ℕ → Presence → Presence × List PresenceEvent
  -- `awareness.destroy()`
  pub dispose : Presence → Presence × List PresenceEvent
