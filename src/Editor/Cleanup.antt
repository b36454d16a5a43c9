-- ===== src/Editor/Cleanup.antt =====
-- What is left when a tab is closed.
use text.Mathlib.TextPositions.{
  len-append, slice-append_right, slice-append_left, starts_with-append,
}
use sync_tex.Base.{
  String, none, some, List, ◌==◌, false, ◌≡◌, refl, arith, if◌then◌else◌, lookup, has, has-discard,
  lookup-remove,
}
use sync_tex.Tabs.{file_tab_id, chat_tab_id, close_tab, handle_tab_close}
use sync_tex.Files.{clear_file_content}
use sync_tex.Sessions.{Callback, close_collab_session}
use sync_tex.Sessions.Run.{sessions_of_closed}
use sync_tex.Editor.{Client, resource_id_from_tab_id, tab_closed, close}

pub resource_id-file_tab_id :
    (id : String) → resource_id_from_tab_id (file_tab_id id) "file:" ≡ some id
unfolding resource_id_from_tab_id file_tab_id
resource_id-file_tab_id id =
    rw (starts_with-append "file:" id, len-append "file:" id, slice-append_right "file:" id) refl

pub resource_id-chat_tab_id :
    (id : String) → resource_id_from_tab_id (chat_tab_id id) "file:" ≡ none
unfolding resource_id_from_tab_id chat_tab_id
resource_id-chat_tab_id id = rw (slice-append_left "chat:" id) refl

-- Closing a chat's tab closes the tab and nothing else, even where a file has the chat's id.
pub close_chat_tab :
    (callbacks : List Callback) (id : String) (c : Client)
    → close callbacks (chat_tab_id id) c ≡ record c { tabs = close_tab (chat_tab_id id) c.tabs }
unfolding close tab_closed handle_tab_close
close_chat_tab callbacks id c = rw (tab_closed, resource_id-chat_tab_id id) refl

tab_closed_of_file :
    (callbacks : List Callback) (id : String) (c : Client)
    → (id == "") ≡ false
    → close callbacks (file_tab_id id) c ≡ record {
      files = clear_file_content id c.files;
      sessions = close_collab_session id callbacks c.sessions;
      tabs = close_tab (file_tab_id id) c.tabs;
    }
unfolding close tab_closed handle_tab_close
tab_closed_of_file callbacks id c given = rw (tab_closed, resource_id-file_tab_id id, given) refl

-- Closing a file's tab closes the tab, and leaves the file without a session, content, mark or saved
-- text; every other file keeps its own.
pub close_file_tab :
    (callbacks : List Callback) (id j : String) (c : Client)
    → (id == "") ≡ false
    → ((close callbacks (file_tab_id id) c).tabs ≡ close_tab (file_tab_id id) c.tabs)
      × (lookup j (close callbacks (file_tab_id id) c).sessions.collab_sessions
          ≡ (if id == j then none else lookup j c.sessions.collab_sessions))
      × (lookup j (close callbacks (file_tab_id id) c).files.file_contents
          ≡ (if id == j then none else lookup j c.files.file_contents))
      × (has j (close callbacks (file_tab_id id) c).files.unsaved_files
          ≡ (if id == j then false else has j c.files.unsaved_files))
      × (lookup j (close callbacks (file_tab_id id) c).files.original_contents
          ≡ (if id == j then none else lookup j c.files.original_contents))
unfolding clear_file_content
close_file_tab callbacks id j c given = rw (tab_closed_of_file callbacks id c given) (
  refl,
  sessions_of_closed id j callbacks c.sessions,
  lookup-remove id j c.files.file_contents,
  ground (arith, has-discard id j c.files.unsaved_files),
  lookup-remove id j c.files.original_contents,
)
