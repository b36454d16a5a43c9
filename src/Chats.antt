-- ===== src/Chats.antt =====
-- frontend/src/hooks/useChatManager.js: the chats of a project and the cache of their messages.
pub mod Messages
pub mod Project
pub mod Former
mod Tests
use mathlib.Core.Option
use sync_tex.Base.{
  ℕ, ◌+◌, String, Option, none, some, List, [], ◌∷◌, map, ◌==◌, Bool, true, false, not, ◌||◌,
  if◌then◌else◌, is_some, eqb, keep, Answer, resolved, rejected, Task, ◌>>=◌, ◌>>◌, await, done,
  update, Dict, lookup, insert, remove,
}
use sync_tex.Tabs.{Chat}

module _ (Message : Type 0) where
  pub record Chats : Type 0 where
    pub chats : List Chat
    pub chats_loading : Bool
    pub messages_by_chat_id : Dict (List Message)
    pub messages_loading_by_chat_id : Dict Bool
    -- which run of the effect on the project is not cancelled
    pub effect_run : ℕ

  abbrev pub no_chats : Chats
  no_chats = record {
    chats = [];
    chats_loading = true;
    messages_by_chat_id = [];
    messages_loading_by_chat_id = [];
    effect_run = 0;
  }

abbrev is_loading : Option Bool → Bool
is_loading none = false
is_loading (some b) = b

module _ {Message : Type 0} where
  -- The effect on `projectId`: the cleanup of the run before cancels that run.
  unfoldable pub project_changed : Chats Message → Chats Message
  project_changed s = record {
    chats = [];
    chats_loading = true;
    messages_by_chat_id = [];
    messages_loading_by_chat_id = [];
    effect_run = s.effect_run + 1;
  }

  -- The answer of `listChats` to the given run of the effect.
  unfoldable pub chats_listed : ℕ → Answer (List Chat) → Chats Message → Chats Message
  chats_listed run (resolved list) s =
      if eqb run s.effect_run then record s { chats = list; chats_loading = false } else s
  chats_listed run (rejected message) s =
      if eqb run s.effect_run then record s { chats_loading = false } else s

  -- `ensureChatMessages` up to its request: whether it asks for the messages. It reads the state that
  -- was rendered last, so calls stand for calls with a render in between.
  unfoldable pub needs_messages : String → Chats Message → Bool
  needs_messages chat_id s = not (
      chat_id == ""
      || is_loading (lookup chat_id s.messages_loading_by_chat_id)
      || is_some (lookup chat_id s.messages_by_chat_id))

  unfoldable pub ensure_chat_messages : String → Chats Message → Chats Message
  unfolding needs_messages
  ensure_chat_messages chat_id s =
      if needs_messages chat_id s
      then record s {
        messages_loading_by_chat_id = insert chat_id true s.messages_loading_by_chat_id;
      }
      else s

  -- `ensureChatMessages` from the answer on, `finally` included.
  unfoldable pub messages_answered : String → Answer (List Message) → Chats Message → Chats Message
  messages_answered chat_id (resolved messages) s = record s {
    messages_by_chat_id = insert chat_id messages s.messages_by_chat_id;
    messages_loading_by_chat_id = insert chat_id false s.messages_loading_by_chat_id;
  }
  messages_answered chat_id (rejected message) s = record s {
    messages_loading_by_chat_id = insert chat_id false s.messages_loading_by_chat_id;
  }

  unfoldable pub create_new_chat : Answer Chat → Task (Chats Message) Chat
  create_new_chat answer = do
    chat ← await answer
    update λ s. record s {
      chats = chat ∷ s.chats;
      messages_by_chat_id = insert chat.id [] s.messages_by_chat_id;
    }
    done chat

  unfoldable pub remove_chat : String → Answer (Unit {0}) → Task (Chats Message) (Unit {0})
  remove_chat chat_id answer = do
    await answer
    update λ s. record s {
      chats = keep (λ (c : Chat). not (c.id == chat_id)) s.chats;
      messages_by_chat_id = remove chat_id s.messages_by_chat_id;
      messages_loading_by_chat_id = remove chat_id s.messages_loading_by_chat_id;
    }

  unfoldable pub update_chat_title : String → String → Chats Message → Chats Message
  update_chat_title chat_id title s = record s {
    chats = map (λ (c : Chat). if c.id == chat_id then record c { title = title } else c) s.chats;
  }

  -- A value for `updater` is the constant function.
  unfoldable pub update_chat_messages :
      String → (List Message → List Message) → Chats Message → Chats Message
  update_chat_messages chat_id updater s = record s {
    messages_by_chat_id =
        insert chat_id (updater (Option.get_or (lookup chat_id s.messages_by_chat_id) []))
          s.messages_by_chat_id;
  }
