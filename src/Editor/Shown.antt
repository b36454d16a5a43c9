-- ===== src/Editor/Shown.antt =====
-- What frontend/src/views/EditorView.jsx derives from the hooks' states and passes to its children, and
-- the handlers of the chat list. The prefetch is left out.
use sync_tex.Base.{
  String, Option, none, some, or_else, List, [], ◌∷◌, ◌==◌, Bool, true, false, not, ◌&&◌,
  if◌then◌else◌, find, keep, is_some, has, Answer, resolved, rejected, Dict, lookup,
}
use sync_tex.Tabs.{
  Tabs, Tab, Kind, file, chat, FileInfo, Chat, chat_tab_id, add_tab, handle_tab_select, close_tab,
  make_chat_tab, active_tab,
}
use sync_tex.Files.{Files}
use sync_tex.Sessions.{Registry}
use sync_tex.Collab.Session.{Status, connected}
use sync_tex.Collab.Presence.{AwarenessUser}
use sync_tex.Chats.{Chats, ensure_chat_messages, create_new_chat, remove_chat}
use sync_tex.Editor.{is_image_type}

abbrev pub is_kind : Kind → Kind → Bool
is_kind file file = true
is_kind chat chat = true
is_kind _ _ = false

abbrev of_kind : Kind → Option Tab → Option Tab
of_kind kind none = none
of_kind kind (some t) = if is_kind t.kind kind then some t else none

-- `activeFileTab`, `activeChatTab`
unfoldable pub active_file_tab : Tabs → Option Tab
unfolding active_tab
active_file_tab s = of_kind file (active_tab s)

unfoldable pub active_chat_tab : Tabs → Option Tab
unfolding active_tab
active_chat_tab s = of_kind chat (active_tab s)

-- `activeFile`
unfoldable pub active_file : Tabs → Option FileInfo
active_file s = elim (active_file_tab s) [ none ↦ none | some t ↦ t.file ]

-- `activeFileId`
unfoldable pub active_file_id : Tabs → Option String
active_file_id s = elim (active_file s) [ none ↦ none | some f ↦ some f.id ]

-- `activeChatId`
unfoldable pub active_chat_id : Tabs → Option String
active_chat_id s = elim (active_chat_tab s) [ none ↦ none | some t ↦ some t.resource_id ]

abbrev chat_of : Option Tab → Option Chat
chat_of none = none
chat_of (some t) = t.chat

abbrev pub non_empty : Option String → Option String
non_empty none = none
non_empty (some id) = if id == "" then none else some id

module _ {Message : Type 0} where
  -- `activeChat`
  unfoldable pub active_chat : Chats Message → Tabs → Option Chat
  active_chat chats s = elim (non_empty (active_chat_id s)) [
    | none ↦ none
    | some id ↦ or_else (find (λ c. c.id == id) chats.chats) (chat_of (active_chat_tab s))
  ]

  -- `activeMessages`
  unfoldable pub active_messages : Chats Message → Tabs → List Message
  active_messages chats s = elim (non_empty (active_chat_id s)) [
    | none ↦ []
    | some id ↦ elim (lookup id chats.messages_by_chat_id) [ none ↦ [] | some messages ↦ messages ]
  ]

  -- `messagesLoading`
  unfoldable pub messages_loading : Chats Message → Tabs → Bool
  messages_loading chats s = elim (non_empty (active_chat_id s)) [
    | none ↦ false
    | some id ↦ elim (lookup id chats.messages_loading_by_chat_id) [ none ↦ false | some b ↦ b ]
  ]

  -- `handleOpenChatTab`, up to the request for the messages.
  unfoldable pub handle_open_chat_tab : String → Chats Message × Tabs → Chats Message × Tabs
  handle_open_chat_tab chat_id (chats, s) = elim (find (λ c. c.id == chat_id) chats.chats) [
    | none ↦ (chats, s)
    | some c ↦ (
      ensure_chat_messages c.id chats,
      if is_some (find (λ t. t.id == chat_tab_id c.id) s.open_tabs)
          then handle_tab_select (chat_tab_id c.id) s
          else add_tab (make_chat_tab c) s,
    )
  ]

  abbrev with_chat : Answer Chat × Chats Message → Tabs → Chats Message × Tabs
  with_chat (resolved c, chats) s = (chats, add_tab (make_chat_tab c) s)
  with_chat (rejected message, chats) s = (chats, s)

  -- `handleCreateChatTab`
  unfoldable pub handle_create_chat_tab : Answer Chat → Chats Message × Tabs → Chats Message × Tabs
  handle_create_chat_tab answer (chats, s) = with_chat (create_new_chat answer chats) s

  abbrev without_chat : String → Answer (Unit {0}) × Chats Message → Tabs → Chats Message × Tabs
  without_chat chat_id (resolved success, chats) s = (chats, close_tab (chat_tab_id chat_id) s)
  without_chat chat_id (rejected message, chats) s = (chats, s)

  -- `handleDeleteChat`; the tab's cleanup does nothing for a chat.
  unfoldable pub handle_delete_chat :
      String → Answer (Unit {0}) → Chats Message × Tabs → Chats Message × Tabs
  handle_delete_chat chat_id answer (chats, s) =
      without_chat chat_id (remove_chat chat_id answer chats) s

abbrev is_image : (String → String) → Option FileInfo → Bool
is_image lower none = false
is_image lower (some f) = is_image_type lower f.file_type

-- `isActiveImage`
unfoldable pub is_active_image : (String → String) → Tabs → Bool
is_active_image lower s = is_image lower (active_file s)

-- `isActiveCollab`
unfoldable pub is_active_collab : (String → String) → Registry → Tabs → Bool
is_active_collab lower sessions s = elim (non_empty (active_file_id s)) [
  | none ↦ false
  | some id ↦ not (is_active_image lower s) && is_some (lookup id sessions.collab_sessions)
]

-- `activeCollabStatus`
unfoldable pub active_collab_status : Registry → Tabs → Option Status
active_collab_status sessions s = elim (non_empty (active_file_id s)) [
  | none ↦ none
  | some id ↦ lookup id sessions.collab_status
]

abbrev text_or_empty : Option (Option String) → String
text_or_empty none = ""
text_or_empty (some none) = ""
text_or_empty (some (some text)) = text

-- `activeContent`
unfoldable pub active_content : (String → String) → Registry → Files → Tabs → String
active_content lower sessions files s = elim (non_empty (active_file_id s)) [
  | none ↦ ""
  | some id ↦
      if is_active_collab lower sessions s
      then ""
      else text_or_empty (lookup id files.file_contents)
]

abbrev languages : Dict String
languages =
    ("tex", "latex")
    ∷ ("bib", "bibtex")
    ∷ ("pdf", "text")
    ∷ ("txt", "text")
    ∷ ("md", "markdown")
    ∷ ("json", "json")
    ∷ ("xml", "xml")
    ∷ ("py", "python")
    ∷ ("other", "latex")
    ∷ ("js", "javascript")
    ∷ ("ts", "typescript")
    ∷ ("html", "html")
    ∷ ("css", "css")
    ∷ []

-- `getLanguage`
unfoldable pub get_language : Option String → String
unfolding lookup
get_language none = "latex"
get_language (some type) = elim (lookup type languages) [ none ↦ "latex" | some l ↦ l ]

-- `activeLanguage`
unfoldable pub active_language : Tabs → String
active_language s = elim (active_file s) [ none ↦ "latex" | some f ↦ get_language f.file_type ]

-- `isActiveFileDirty`
unfoldable pub is_active_file_dirty : (String → String) → Registry → Files → Tabs → Bool
is_active_file_dirty lower sessions files s = elim (non_empty (active_file_id s)) [
  | none ↦ false
  | some id ↦ not (is_active_collab lower sessions s) && has id files.unsaved_files
]

-- `imageUrl`
unfoldable pub image_url : (String → String) → Files → Tabs → Option String
image_url lower files s = elim (active_file_id s) [
  | none ↦ none
  | some id ↦
      if is_active_image lower s
      then elim (lookup id files.file_contents) [ none ↦ none | some url ↦ url ]
      else none
]

abbrev is_connected : Option Status → Bool
is_connected (some connected) = true
is_connected _ = false

abbrev list_or_empty : Option (List AwarenessUser) → List AwarenessUser
list_or_empty none = []
list_or_empty (some users) = users

-- `activeLiveEditors`
unfoldable pub active_live_editors : Registry → Tabs → List AwarenessUser
active_live_editors sessions s = elim (non_empty (active_file_id s)) [
  | none ↦ []
  | some id ↦
      if is_connected (active_collab_status sessions s)
      then keep (λ e. not e.is_local) (list_or_empty (lookup id sessions.live_editors_by_file))
      else []
]
