-- ===== src/Collab.antt =====
-- frontend/src/api/session.js: a collaborative session on one file. Its children model the colours
-- of users, the user metadata, the frames of the wire, and the session's state machine.
pub mod Color
pub mod User
pub mod Wire
pub mod Yjs
pub mod Presence
pub mod Session
mod Tests
