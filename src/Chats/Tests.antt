-- ===== src/Chats/Tests.antt =====
-- The theorems on chats at concrete states.
use sync_tex.Base.{
  String, [], ◌∷◌, some, ◌==◌, false, ◌≡◌, refl, if◌then◌else◌, resolved, rejected, lookup,
}
use sync_tex.Tabs.{Chat}
use sync_tex.Chats.{
  Chats, no_chats, project_changed, chats_listed, needs_messages, ensure_chat_messages,
  messages_answered,
}
use sync_tex.Chats.Messages.{messages_requested_once}
use sync_tex.Chats.Project.{last_project_wins}

abbrev thesis : Chat
thesis = record { id = "c1"; title = "Thesis" }

abbrev tables : Chat
tables = record { id = "c2"; title = "Tables" }

abbrev listed : Chats String
listed = record (no_chats String) { chats = thesis ∷ [] }

messages_requested_once_example :
    (needs_messages "c1" (ensure_chat_messages "c1" listed)
      ≡ (if "c1" == "c1" then false else needs_messages "c1" listed))
    × (needs_messages "c1"
          (messages_answered "c1" (resolved ("hello" ∷ [])) (ensure_chat_messages "c1" listed))
        ≡ (if "c1" == "c1" then false else needs_messages "c1" listed))
    × (lookup "c1"
          (messages_answered "c1"
            (resolved ("hello" ∷ []))
            (ensure_chat_messages "c1" listed)).messages_by_chat_id
        ≡ some ("hello" ∷ []))
    × (needs_messages "c1"
          (messages_answered "c1" (rejected "404") (ensure_chat_messages "c1" listed))
        ≡ needs_messages "c1" listed)
unfolding needs_messages lookup
messages_requested_once_example = messages_requested_once "c1" "c1" ("hello" ∷ []) "404" listed refl

last_project_wins_example :
    (chats_listed 0
        (resolved (thesis ∷ []))
        (chats_listed 1 (resolved (tables ∷ [])) (project_changed listed))
      ≡ chats_listed 1 (resolved (tables ∷ [])) (project_changed listed))
    × (chats_listed 1
          (resolved (tables ∷ []))
          (chats_listed 0 (resolved (thesis ∷ [])) (project_changed listed))
        ≡ chats_listed 1 (resolved (tables ∷ [])) (project_changed listed))
last_project_wins_example =
    last_project_wins (resolved (thesis ∷ [])) (resolved (tables ∷ [])) listed
