-- ===== src/Chats/Former.antt =====
-- frontend/src/components/Editor/AIPanel/AIPanel.jsx, the panel that the chat tabs replaced: its chats,
-- the chat that is active and that chat's messages. Each effect's runs are numbered; the cleanup of a
-- run cancels it.
use sync_tex.Base.{
  ℕ, ◌+◌, String, Option, none, some, List, [], ◌∷◌, map, ◌==◌, Bool, true, false, not,
  if◌then◌else◌, keep, eqb, Answer, resolved, rejected, find,
}
use sync_tex.Tabs.{Chat}

module _ (Message : Type 0) where
  pub record Former : Type 0 where
    pub chats : List Chat
    pub chats_loading : Bool
    pub active_chat_id : Option String
    pub messages : List Message
    pub messages_loading : Bool
    pub list_run : ℕ
    pub messages_run : ℕ

abbrev is_id : Option String → String → Bool
is_id none id = false
is_id (some other) id = other == id

module _ {Message : Type 0} where
  -- The effect on the project; the effect on the active chat runs where that changes.
  unfoldable pub project_changed : Former Message → Former Message
  project_changed s = record s {
    chats_loading = true;
    active_chat_id = none;
    messages = [];
    list_run = s.list_run + 1;
  }

  unfoldable pub chats_listed : ℕ → Answer (List Chat) → Former Message → Former Message
  chats_listed run (resolved list) s =
      if eqb run s.list_run then record s { chats = list; chats_loading = false } else s
  chats_listed run (rejected message) s =
      if eqb run s.list_run then record s { chats_loading = false } else s

  -- The effect on `activeChatId`, and whether it asks for the messages.
  unfoldable pub active_changed : Former Message → Bool × Former Message
  active_changed s = elim s.active_chat_id [
    | none ↦ (false, record s { messages = []; messages_run = s.messages_run + 1 })
    | some id ↦
        if id == ""
        then (false, record s { messages = []; messages_run = s.messages_run + 1 })
        else (true, record s { messages_loading = true; messages_run = s.messages_run + 1 })
  ]

  unfoldable pub messages_answered : ℕ → Answer (List Message) → Former Message → Former Message
  messages_answered run (resolved list) s =
      if eqb run s.messages_run then record s { messages = list; messages_loading = false } else s
  messages_answered run (rejected message) s =
      if eqb run s.messages_run then record s { messages_loading = false } else s

  -- `handleNewChat`
  unfoldable pub handle_new_chat : Answer Chat → Former Message → Former Message
  handle_new_chat (rejected message) s = s
  handle_new_chat (resolved c) s = record s {
    chats = c ∷ s.chats;
    active_chat_id = some c.id;
    messages = [];
  }

  -- `handleDeleteChat`, with the active chat of the call.
  unfoldable pub handle_delete_chat :
      String → Option String → Answer (Unit {0}) → Former Message → Former Message
  handle_delete_chat id active (rejected message) s = s
  handle_delete_chat id active (resolved _) s =
      if is_id active id
      then record s {
        chats = keep (λ c. not (c.id == id)) s.chats;
        active_chat_id = none;
        messages = [];
      }
      else record s { chats = keep (λ c. not (c.id == id)) s.chats }

  -- `handleChatTitleUpdate`
  unfoldable pub handle_chat_title_update : String → String → Former Message → Former Message
  handle_chat_title_update id title s = record s {
    chats = map (λ c. if c.id == id then record c { title = title } else c) s.chats;
  }

  -- `handleMessagesUpdate`
  unfoldable pub handle_messages_update :
      (List Message → List Message) → Former Message → Former Message
  handle_messages_update updater s = record s { messages = updater s.messages }

  -- `onSelectChat`
  unfoldable pub select_chat : String → Former Message → Former Message
  select_chat id s = record s { active_chat_id = some id }

  -- The chat that the window is given.
  unfoldable pub active_chat : Former Message → Option Chat
  active_chat s = find (λ c. is_id s.active_chat_id c.id) s.chats
