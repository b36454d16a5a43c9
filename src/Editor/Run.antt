-- ===== src/Editor/Run.antt =====
-- The events of frontend/src/views/EditorView.jsx: what a user, a server or a session can do to the
-- files, the sessions, the tabs and the chats of an open project, in any order.
pub mod Open
pub mod Owned
pub mod Returned
pub mod Steps
pub mod Always
pub mod Marked
pub mod Failed
mod Tests
use mathlib.Core.Option
use sync_tex.Base.{
  ℕ, String, Option, none, some, List, [], ◌∷◌, ◌==◌, Bool, false, ◌≡◌, if◌then◌else◌, is_some,
  Answer, Value, null, lookup, has, true,
}
use sync_tex.Tabs.{
  Tabs, no_tabs, Tab, TabPatch, FileInfo, Chat, handle_tab_select, update_tab, chat_tab_id,
}
use sync_tex.Tabs.Ids.{ids}
use sync_tex.Tree.{Directories}
use sync_tex.Files.{
  Files, no_files, ItemType, Response, Save, refresh_tree, handle_editor_change, begin_save,
  end_save,
}
use sync_tex.Sessions.{no_sessions, Callback, on_callback, bind_active_session, retry_due}
use sync_tex.Chats.{Chats, update_chat_title}
use sync_tex.Editor.Opened.{Opened, load_answered}
use sync_tex.Editor.{Client, close, file_loaded, handle_file_select, delete_item_and_close}
use sync_tex.Editor.Items.{
  Updated, create_file_and_open, image_upload_and_open, rename_item_and_update_tab,
}
use sync_tex.Editor.Shown.{
  active_file_id, handle_open_chat_tab, handle_create_chat_tab, handle_delete_chat,
}

-- An answer is given with the event in which the handler goes on. What a call finds of `isCollab`
-- and the token is given too.
pub data Event : Type 0 where
  selected : Bool → Option String → List Callback → FileInfo → Event
  refreshed : Answer Directories → Event
  project_loaded : Answer ((Value × Value) × Value) → Event
  loaded : String → Answer String → Event
  edited : Option String → Event
  save_began : Event
  save_ended : Save → Answer (Unit {0}) → Event
  created : Bool → Option String → List Callback → Answer Response → Answer Directories → Event
  uploaded : Answer Response → Answer Directories → Event
  renamed :
      String → ItemType → String → Answer (Option Updated) → Answer Directories → List Tab → Event
  deleted : String → ItemType → Answer (Unit {0}) → Answer Directories → List Callback → Event
  tab_selected : String → Event
  tab_closed : String → List Callback → Event
  chat_opened : String → Event
  chat_created : Answer Chat → Event
  chat_deleted : String → Answer (Unit {0}) → Event
  chat_titled : String → String → Event
  called : String → Callback → Event
  bound : String → Bool → Option ℕ → Bool → Event
  retried : String → ℕ → ℕ → Option ℕ → Bool → Event

module _ (Message : Type 0) where
  pub record View : Type 0 where
    pub client : Client
    pub opened : Opened
    pub chats : Chats Message

abbrev pub empty_client : Client
empty_client = record { files = no_files; sessions = no_sessions; tabs = no_tabs }

-- Nothing is known of the project yet.
abbrev pub opening : Opened
opening = record {
  loading = true;
  project_name = "Project";
  user_role = null;
  is_collab = false;
  last_active_file = none;
}

-- The view before anything is loaded.
abbrev pub mounted : {Message : Type 0} → Chats Message → View Message
mounted chats = record { client = empty_client; opened = opening; chats = chats }

abbrev title_patch : String → TabPatch
title_patch title = record {
  id = none;
  kind = none;
  resource_id = none;
  title = some (if title == "" then "Untitled chat" else title);
  filename = none;
  file = none;
  chat = none;
}

-- `lower` is `toLowerCase`, and `document n` the text of the session `n`.
module _ {Message : Type 0} (lower : String → String) (document : ℕ → String) where
  abbrev with_files : Files → View Message → View Message
  with_files files v = record v { client = record v.client { files = files } }

  abbrev with_tabs : Tabs → View Message → View Message
  with_tabs tabs v = record v { client = record v.client { tabs = tabs } }

  abbrev with_chats : Chats Message × Tabs → View Message → View Message
  with_chats (chats, tabs) v = record v { client = record v.client { tabs = tabs }; chats = chats }

  unfoldable pub step : Event → View Message → View Message
  step (selected is_collab token callbacks f) v = record v {
    client = (handle_file_select lower is_collab token callbacks f v.client).1;
  }
  step (refreshed tree) v = with_files (refresh_tree tree v.client.files).1 v
  step (project_loaded answer) v =
      let (opened, files) = load_answered answer (v.opened, v.client.files) in
      record v { client = record v.client { files = files }; opened = opened }
  step (loaded id content) v = with_files (file_loaded id content v.client.files) v
  step (edited value) v =
      with_files
        (handle_editor_change (λ j. is_some (lookup j v.client.sessions.collab_sessions)) value
          (active_file_id v.client.tabs) v.client.files)
        v
  step save_began v =
      with_files
        (begin_save (λ j. Option.map document (lookup j v.client.sessions.collab_sessions))
          (active_file_id v.client.tabs) v.client.files).1
        v
  step (save_ended job answer) v = with_files (end_save job answer v.client.files) v
  step (created is_collab token callbacks response tree) v = record v {
    client = (create_file_and_open is_collab token callbacks response tree v.client).1;
  }
  step (uploaded response tree) v = record v {
    client = (image_upload_and_open response tree v.client).1;
  }
  step (renamed id type name answer tree open_tabs) v = record v {
    client = (rename_item_and_update_tab id type name answer tree open_tabs v.client).1;
  }
  step (deleted id type answer tree callbacks) v = record v {
    client = delete_item_and_close id type answer tree callbacks v.client;
  }
  step (tab_selected tab_id) v = with_tabs (handle_tab_select tab_id v.client.tabs) v
  step (tab_closed tab_id callbacks) v = record v { client = close callbacks tab_id v.client }
  step (chat_opened id) v = with_chats (handle_open_chat_tab id (v.chats, v.client.tabs)) v
  step (chat_created answer) v =
      with_chats (handle_create_chat_tab answer (v.chats, v.client.tabs)) v
  step (chat_deleted id answer) v =
      with_chats (handle_delete_chat id answer (v.chats, v.client.tabs)) v
  step (chat_titled id title) v =
      let patch = title_patch title in
      with_chats
        (
          update_chat_title id (if title == "" then "Untitled chat" else title) v.chats,
          update_tab (chat_tab_id id) patch v.client.tabs,
        )
        v
  step (called id callback) v = record v {
    client = record v.client { sessions = on_callback id callback v.client.sessions };
  }
  step (bound id is_collab model ok) v = record v {
    client = record v.client {
      sessions = (bind_active_session id is_collab 0 model ok v.client.sessions).1;
    };
  }
  step (retried id session attempt model ok) v = record v {
    client = record v.client {
      sessions = (retry_due id session attempt model ok v.client.sessions).1;
    };
  }

  unfoldable pub run : List Event → View Message → View Message
  unfolding step
  run [] v = v
  run (e ∷ es) v = run es (step e v)

-- The files that the explorer offers have ids.
abbrev pub HasId : Event → Type 0
HasId (selected is_collab token callbacks f) = (f.id == "") ≡ false
HasId _ = Unit

abbrev pub AllHaveIds : List Event → Type 0
AllHaveIds [] = Unit
AllHaveIds (e ∷ es) = HasId e × AllHaveIds es
