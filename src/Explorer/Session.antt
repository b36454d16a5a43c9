-- ===== src/Explorer/Session.antt =====
-- The explorer of frontend/src/components/Editor/FileTree.jsx over any events, with the requests that it
-- makes of the view. What an answer belongs to is part of its event.
use sync_tex.Base.{ℕ, String, Option, none, some, List, [], ◌∷◌, ◌++◌, Bool, true, Answer}
use sync_tex.Explorer.{
  Locale, NodeType, Node, Index, Edit, Explorer, Request, Key, open_directory, begin_create,
  begin_rename, edit_changed, edit_cancelled, read_only_changed, begin_commit, end_commit,
  handle_list_key_down,
}
use sync_tex.Explorer.Tools.{
  Tools, Operation, tree_changed, visible_changed, select_node, open_row_menu, open_options_menu,
  close_menu, copy_path, begin_delete, end_delete, begin_upload, end_upload,
}
use sync_tex.Explorer.Menu.{enter_pressed, ask_delete, cancel_delete, retry_upload}

module _ (F : Type 0) where
  pub record Browser : Type 0 where
    pub index : Index
    pub tools : Tools F

  pub data Event : Type 0 where
    tree_arrived : Index → Event
    directory_opened : String → Event
    node_selected : Node → Event
    list_key : Key → Event
    list_enter : Event
    create_begun : NodeType → Event
    rename_begun : Node → Event
    typed : String → Event
    committed : Event
    commit_answered : Edit → String → Answer (Option String) → Event
    edit_left : Event
    row_menu_opened : Node → Event
    options_menu_opened : Event
    menu_closed : Event
    path_copied : String → Answer (Unit {0}) → Event
    delete_asked : Node → Event
    delete_confirmed : Event
    delete_cancelled : Event
    delete_answered : Node → Answer (Unit {0}) → Event
    image_picked : Option F → Event
    upload_retried : Event
    upload_answered : F → String → String → Answer String → Event

  -- What the view is asked to do: `onCreateFile`, `onCreateFolder`, `onRenameItem`, `onDeleteItem`,
  -- `onImageUpload`.
  pub data Asked : Type 0 where
    save : Request → Asked
    remove : Node → Asked
    upload : Option F → String → Asked

module _ {F : Type 0} (L : Locale) (rounds : ℕ) (read_only : Bool) where
  abbrev only : Explorer → Browser F → List (Asked F) × Browser F
  only s b = ([], record b { tools = record b.tools { explorer = s } })

  abbrev tool : Tools F → Browser F → List (Asked F) × Browser F
  tool s b = ([], record b { tools = s })

  abbrev saves : Option Request → List (Asked F)
  saves none = []
  saves (some r) = save r ∷ []

  abbrev removes : Option Node → List (Asked F)
  removes none = []
  removes (some node) = remove node ∷ []

  abbrev uploads : Option F → Option String → List (Asked F)
  uploads image none = []
  uploads image (some directory) = upload image directory ∷ []

  abbrev image_of : Option (Operation F) → Option F
  image_of none = none
  image_of (some operation) = some operation.image

  -- The effects on the tree, on the ids that are visible and on `readOnly` run after the event that
  -- changes these.
  unfoldable pub step : Event F → Browser F → List (Asked F) × Browser F
  step (tree_arrived index) b = (
    [],
    record {
      index = index;
      tools = record b.tools {
        explorer = visible_changed index (tree_changed rounds b.index index b.tools.explorer);
      };
    },
  )
  step (directory_opened id) b =
      only (visible_changed b.index (open_directory b.index id b.tools.explorer)) b
  step (node_selected node) b = only (select_node node true b.tools.explorer).1 b
  step (list_key key) b = only (handle_list_key_down b.index key b.tools.explorer) b
  step list_enter b = only (enter_pressed b.index b.tools.explorer).1 b
  step (create_begun type) b = only (begin_create read_only type b.tools.explorer) b
  step (rename_begun node) b = only (begin_rename read_only node b.tools.explorer) b
  step (typed value) b = only (edit_changed value b.tools.explorer) b
  step committed b =
      let (request, s) = begin_commit L b.index b.tools.explorer in (saves request, (only s b).1)
  step (commit_answered e name answer) b = only (end_commit e name answer b.tools.explorer) b
  step edit_left b = only (edit_cancelled b.tools.explorer) b
  step (row_menu_opened node) b = tool (open_row_menu node b.tools) b
  step options_menu_opened b = tool (open_options_menu b.tools) b
  step menu_closed b = tool (close_menu b.tools) b
  step (path_copied id answer) b = tool (copy_path rounds b.index id answer b.tools).1 b
  step (delete_asked node) b = tool (ask_delete node b.tools) b
  step delete_confirmed b =
      let (target, s) = begin_delete read_only b.tools in (removes target, (tool s b).1)
  step delete_cancelled b = tool (cancel_delete b.tools) b
  step (delete_answered node answer) b = tool (end_delete node answer b.tools) b
  step (image_picked image) b =
      let (directory, s) =
        begin_upload read_only image b.tools.explorer.current_directory_id b.tools in
      (uploads image directory, (tool s b).1)
  step upload_retried b =
      let (directory, s) = retry_upload read_only b.tools in
      (uploads (image_of b.tools.operation) directory, (tool s b).1)
  step (upload_answered image name directory answer) b =
      tool (end_upload image name directory answer b.tools) b

  -- The requests in their order, and the state at the end.
  unfoldable pub run : List (Event F) → Browser F → List (Asked F) × Browser F
  unfolding step
  run [] b = ([], b)
  run (e ∷ es) b =
      let (asked, b') = step e b in let (later, b'') = run es b' in (asked ++ later, b'')

  -- A viewer's explorer, with the effect on `readOnly`.
  unfoldable pub entered : Browser F → Browser F
  unfolding read_only_changed
  entered b = (only (read_only_changed read_only b.tools.explorer) b).1
