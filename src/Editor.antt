-- ===== src/Editor.antt =====
-- The seams of frontend/src/views/EditorView.jsx, where one event reaches several hooks: closing a
-- tab, selecting a file and deleting an item. `toLowerCase` is a parameter.
pub mod Cleanup
pub mod Selection
pub mod Items
pub mod Layout
pub mod Shown
pub mod Opened
pub mod Widths
pub mod Run
pub mod Pane
pub mod Deleted
pub mod Page
mod Tests
use text.Mathlib.Text.{starts_with}
use Prim.Native.String.{len, slice}
use sync_tex.Base.{
  String, Option, none, some, List, [], ◌∷◌, ◌==◌, Bool, true, false, if◌then◌else◌, find, is_some,
  has, template, Answer, resolved, rejected,
}
use sync_tex.Tabs.{
  Tabs, Tab, FileInfo, file_tab_id, handle_tab_close, add_tab, handle_tab_select, make_file_tab,
}
use sync_tex.Tree.{Directories}
use sync_tex.Files.{
  Files, ItemType, content_loaded, clear_file_content, handle_delete_item, set_file_url,
}
use sync_tex.Sessions.{Registry, Callback, open_collab_session, close_collab_session}

-- The states of the three hooks.
pub record Client : Type 0 where
  pub files : Files
  pub sessions : Registry
  pub tabs : Tabs

unfoldable pub resource_id_from_tab_id : String → String → Option String
resource_id_from_tab_id tab_id prefix =
    if starts_with tab_id prefix then some (slice tab_id (len prefix) (len tab_id)) else none

abbrev end_file : String → List Callback → Files × Registry → Files × Registry
end_file id callbacks s =
    if id == "" then s else (clear_file_content id s.0, close_collab_session id callbacks s.1)

-- `handleTabCloseWithCleanup`; the callbacks are those of the session's `destroy`.
unfoldable pub tab_closed : List Callback → String → Files × Registry → Files × Registry
unfolding resource_id_from_tab_id
tab_closed callbacks tab_id s = elim (resource_id_from_tab_id tab_id "file:") [
  | none ↦ s
  | some id ↦ end_file id callbacks s
]

-- `handleTabClose` of the tab manager, as the view sets it up.
unfoldable pub close : List Callback → String → Client → Client
unfolding tab_closed handle_tab_close
close callbacks tab_id c =
    let ((files, sessions), tabs) =
      handle_tab_close (some (tab_closed callbacks)) tab_id ((c.files, c.sessions), c.tabs) in
    record { files = files; sessions = sessions; tabs = tabs }

abbrev image_types : List String
image_types = "png" ∷ "jpg" ∷ "jpeg" ∷ "gif" ∷ "svg" ∷ "webp" ∷ "bmp" ∷ "image" ∷ []

abbrev pub is_image_type : (String → String) → Option String → Bool
is_image_type lower none = false
is_image_type lower (some type) = has (lower type) image_types

-- `handleFileSelect` up to its request, and whether it calls `loadFileContent`.
unfoldable pub handle_file_select :
    (String → String) → Bool → Option String → List Callback → FileInfo → Client → Bool × Client
unfolding add_tab handle_tab_select set_file_url open_collab_session
handle_file_select lower is_collab token callbacks f c =
    if is_some (find (λ t. t.id == file_tab_id f.id) c.tabs.open_tabs)
    then (false, record c { tabs = handle_tab_select (file_tab_id f.id) c.tabs })
    else if is_image_type lower f.file_type
    then (
      false,
      record c {
        tabs = add_tab (make_file_tab f) c.tabs;
        files = set_file_url f.id f.download_url c.files;
      },
    )
    else if is_collab
    then (
      false,
      record c {
        tabs = add_tab (make_file_tab f) c.tabs;
        sessions = open_collab_session f.id token callbacks c.sessions;
      },
    )
    else (true, record c { tabs = add_tab (make_file_tab f) c.tabs })

-- `handleFileSelect` from the answer of `loadFileContent` on.
unfoldable pub file_loaded : String → Answer String → Files → Files
unfolding content_loaded
file_loaded id content s =
    let (answer, files) = content_loaded id content s in
    elim answer [
      | resolved done ↦ files
      | rejected message ↦ record files {
        error = some (template ("Failed to load file: " ∷ message ∷ []));
      }
    ]

abbrev close_if_file : ItemType → List Callback → String → Client → Client
close_if_file ItemType.file callbacks id c = close callbacks (file_tab_id id) c
close_if_file ItemType.folder callbacks id c = c

abbrev with_answer : Answer Bool → ItemType → List Callback → String → Client → Client
with_answer (rejected message) type callbacks id c = c
with_answer (resolved ok) type callbacks id c = close_if_file type callbacks id c

-- `handleDeleteItemAndClose`; the last active file is left out.
unfoldable pub delete_item_and_close :
    String → ItemType → Answer (Unit {0}) → Answer Directories → List Callback → Client → Client
unfolding close handle_delete_item
delete_item_and_close id type deleted tree callbacks c =
    let (answer, files) = handle_delete_item id type deleted tree c.files in
    with_answer answer type callbacks id (record c { files = files })
