-- ===== src/Collab/Session/Log.antt =====
-- What the log of a session says of its connection.
use sync_tex.Base.{ℕ, suc, List, [], ◌∷◌, Bool, true, false, ◌≡◌}
use sync_tex.Collab.Session.{
  Status, connected, disconnected, Effect, status, opened_socket, closed_socket, sent, users, armed,
  bound, unbound,
}

-- Whether the log ends in an open connection: reported, and not closed since.
abbrev pub online : List Effect → Bool
online [] = false
online (status connected ∷ log) = true
online (status Status.connecting ∷ log) = false
online (status disconnected ∷ log) = false
online (closed_socket ∷ log) = false
online (opened_socket ∷ log) = false
online (sent frame ∷ log) = online log
online (users us ∷ log) = online log
online (armed delay ∷ log) = online log
online (bound ∷ log) = online log
online (unbound ∷ log) = online log

-- Every frame was sent while the connection was open.
abbrev pub SentOnline : List Effect → Type 0
SentOnline [] = Unit
SentOnline (sent frame ∷ log) = (online log ≡ true) × SentOnline log
SentOnline (status st ∷ log) = SentOnline log
SentOnline (closed_socket ∷ log) = SentOnline log
SentOnline (opened_socket ∷ log) = SentOnline log
SentOnline (users us ∷ log) = SentOnline log
SentOnline (armed delay ∷ log) = SentOnline log
SentOnline (bound ∷ log) = SentOnline log
SentOnline (unbound ∷ log) = SentOnline log

-- The sockets that were opened since the last connection that succeeded, or since the start.
abbrev pub tries : List Effect → ℕ
tries [] = 0
tries (status connected ∷ log) = 0
tries (status Status.connecting ∷ log) = tries log
tries (status disconnected ∷ log) = tries log
tries (opened_socket ∷ log) = suc (tries log)
tries (closed_socket ∷ log) = tries log
tries (sent frame ∷ log) = tries log
tries (users us ∷ log) = tries log
tries (armed delay ∷ log) = tries log
tries (bound ∷ log) = tries log
tries (unbound ∷ log) = tries log

-- 1 until a connection has succeeded: the first attempt is no reconnect.
abbrev pub first_try : List Effect → ℕ
first_try [] = 1
first_try (status connected ∷ log) = 0
first_try (_ ∷ log) = first_try log

abbrev pub pending : Bool → ℕ
pending true = 1
pending false = 0

-- The frames that were sent, newest first.
abbrev pub frames : List Effect → List (List ℕ)
frames [] = []
frames (sent frame ∷ log) = frame ∷ frames log
frames (status st ∷ log) = frames log
frames (closed_socket ∷ log) = frames log
frames (opened_socket ∷ log) = frames log
frames (users us ∷ log) = frames log
frames (armed delay ∷ log) = frames log
frames (bound ∷ log) = frames log
frames (unbound ∷ log) = frames log
