-- ===== src/Collab/Wire.antt =====
-- The frames of frontend/src/api/session.js, as lists of bytes: what `sendAwarenessUpdate` and the
-- document observer write, and what `onmessage` reads.
use sync_tex.Base.{ℕ, List, [], ◌∷◌, if◌then◌else◌, eqb}

unfoldable pub sync_frame : List ℕ → List ℕ
sync_frame update = 0 ∷ 2 ∷ update

unfoldable pub awareness_frame : List ℕ → List ℕ
awareness_frame update = 1 ∷ update

-- What a frame asks for: nothing, to apply a document update, or to apply an awareness update.
pub data Incoming : Type 0 where
  ignored : Incoming
  document : List ℕ → Incoming
  presence : List ℕ → Incoming

abbrev decode_sync : List ℕ → Incoming
decode_sync [] = ignored
decode_sync (inner ∷ payload) =
    if eqb inner 1 then document payload else if eqb inner 2 then document payload else ignored

abbrev decode_awareness : List ℕ → Incoming
decode_awareness [] = ignored
decode_awareness (b ∷ payload) = presence (b ∷ payload)

-- The tests of `onmessage`, in order.
unfoldable pub decode : List ℕ → Incoming
decode [] = ignored
decode (outer ∷ rest) =
    if eqb outer 0 then decode_sync rest else if eqb outer 1 then decode_awareness rest else ignored
