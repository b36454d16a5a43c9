-- ===== src/Explorer/Tools.antt =====
-- What else frontend/src/components/Editor/FileTree.jsx keeps: the row menu, the deletion that is asked
-- for, the upload and the message; and its effects on the directory and the selection. The menu's
-- position is left out, and so are focus and timers but for what they set.
use sync_tex.Base.{
  ℕ, zero, suc, String, Option, none, some, List, [], ◌∷◌, ◌==◌, Bool, true, false, not, ◌&&◌, ◌||◌,
  if◌then◌else◌, has, any, Answer, resolved, rejected, lookup, template,
}
use sync_tex.Explorer.{file, folder, Node, Index, Explorer, visible_ids, is_pending, message_from}
use sync_tex.Explorer.Paths.{parent_of, relative_path}

pub data ToastKind : Type 0 where
  success error : ToastKind

pub record Toast : Type 0 where
  pub message : String
  pub kind : ToastKind

pub data Menu : Type 0 where
  row_menu : String → Menu
  options_menu : Menu

-- An upload that is pending, or failed with a message.
pub record Operation {ℓ} (F : Type ℓ) : Type ℓ where
  pub image : F
  pub directory_id : String
  pub failure : Option String

pub record Tools {ℓ} (F : Type ℓ) : Type ℓ where
  pub explorer : Explorer
  pub menu : Option Menu
  pub delete_target : Option Node
  pub delete_pending : Bool
  pub operation : Option (Operation F)
  pub toast : Option Toast

abbrev toast : String → ToastKind → Option Toast
toast message kind = some (record { message = message; kind = kind })

abbrev is_folder_node : Option Node → Bool
is_folder_node none = false
is_folder_node (some node) = elim node.type [ folder ↦ true | file ↦ false ]

abbrev pub is_folder : Index → String → Bool
is_folder ix id = is_folder_node (lookup id ix.nodes_by_id)

abbrev pub given : Option String → Option String
given none = none
given (some id) = if id == "" then none else some id

-- The loop that climbs the previous tree to an ancestor that is still a folder, in at most so many
-- rounds.
unfoldable pub nearest_ancestor : ℕ → Index → Index → Option String → Option String → Option String
nearest_ancestor zero previous ix root ancestor = root
nearest_ancestor (suc n) previous ix root none = root
nearest_ancestor (suc n) previous ix root (some id) =
    let parent = given (parent_of (lookup id previous.parent_by_id)) in
    let above = nearest_ancestor n previous ix root parent in
    elim parent [ none ↦ root | some p ↦ if is_folder ix p then some p else above ]

abbrev pub head? : List String → Option String
head? [] = none
head? (x ∷ xs) = some x

-- The directory that is shown once the tree has changed.
unfoldable pub recovered : ℕ → Index → Index → Option String → Option String
unfolding nearest_ancestor
recovered rounds previous ix none = head? ix.roots
recovered rounds previous ix (some current) =
    if not (current == "") && is_folder ix current
    then some current
    else nearest_ancestor rounds previous ix (head? ix.roots) (given (some current))

unfoldable pub tree_changed : ℕ → Index → Index → Explorer → Explorer
unfolding recovered
tree_changed rounds previous ix s = record s {
  current_directory_id = recovered rounds previous ix s.current_directory_id;
}

abbrev if_visible : List String → Option String → Option String → Option String
if_visible visible none other = other
if_visible visible (some id) other = if has id visible then some id else other

-- The effect on the ids that are visible.
unfoldable pub visible_changed : Index → Explorer → Explorer
unfolding visible_ids
visible_changed ix s =
    let visible = visible_ids ix s in
    record s {
      selected_node_id = if_visible visible s.selected_node_id none;
      focused_node_id = if_visible visible s.focused_node_id (head? visible);
    }

-- `selectNode`, and whether it opens the file.
unfoldable pub select_node : Node → Bool → Explorer → Bool × Explorer
select_node node open_file s = (
  open_file && elim node.type [ file ↦ true | folder ↦ false ],
  record s { selected_node_id = some node.id; focused_node_id = some node.id },
)

abbrev copied : String → Answer (Unit {0}) → Option Toast
copied path (resolved written) = toast (template ("Copied " ∷ path ∷ [])) success
copied path (rejected message) = toast "Could not copy the relative path" error

module _ {ℓ} {F : Type ℓ} where
  -- `openRowMenu`
  unfoldable pub open_row_menu : Node → Tools F → Tools F
  open_row_menu node s = if is_pending s.explorer.edit then s else record s {
    explorer = record (select_node node false s.explorer).1 { context_menu = true };
    menu = some (row_menu node.id);
  }

  -- `openOptionsMenu`
  unfoldable pub open_options_menu : Tools F → Tools F
  open_options_menu s = record s {
    explorer = record s.explorer { context_menu = true };
    menu = some options_menu;
  }

  -- `closeMenu`
  unfoldable pub close_menu : Tools F → Tools F
  close_menu s = record s { explorer = record s.explorer { context_menu = false }; menu = none }

  -- `copyPath`: the path that is written, and what follows the answer.
  unfoldable pub copy_path : ℕ → Index → String → Answer (Unit {0}) → Tools F → String × Tools F
  copy_path rounds ix node_id answer s =
      let path = relative_path rounds ix node_id in
      (path, record (close_menu s) { toast = copied path answer })

  -- `confirmDelete` up to its request, and the item that it deletes, if any.
  unfoldable pub begin_delete : Bool → Tools F → Option Node × Tools F
  begin_delete read_only s =
      if s.delete_pending || read_only then (none, s) else elim s.delete_target [
        | none ↦ (none, s)
        | some target ↦ (some target, record s { delete_pending = true })
      ]

  -- `confirmDelete` from the answer on.
  unfoldable pub end_delete : Node → Answer (Unit {0}) → Tools F → Tools F
  end_delete target (resolved deleted) s = record s {
    toast = toast (template ("Deleted " ∷ target.label ∷ [])) success;
    delete_target = none;
    delete_pending = false;
  }
  end_delete target (rejected message) s = record s {
    toast = toast (message_from message (template ("Could not delete " ∷ target.label ∷ []))) error;
    delete_pending = false;
  }

  -- `uploadImage` up to its request: the directory that it uploads to, if it does.
  unfoldable pub begin_upload : Bool → Option F → Option String → Tools F → Option String × Tools F
  begin_upload read_only none target s = (none, s)
  begin_upload read_only (some image) target s = elim (given target) [
    | none ↦ (none, s)
    | some id ↦ if read_only then (none, s) else (
      some id,
      record s { operation = some (record { image = image; directory_id = id; failure = none }) },
    )
  ]

  -- `uploadImage` from the answer on, which is the new file's id.
  unfoldable pub end_upload : F → String → String → Answer String → Tools F → Tools F
  end_upload image name directory_id (resolved id) s = record s {
    operation = none;
    explorer = record s.explorer { selected_node_id = some id; focused_node_id = some id };
    toast = toast (template ("Saved " ∷ name ∷ [])) success;
  }
  end_upload image name directory_id (rejected message) s =
      let told = message_from message "Upload failed" in
      record s {
        operation =
            some (record { image = image; directory_id = directory_id; failure = some told });
        toast = toast (template ("Upload failed: " ∷ told ∷ [])) error;
      }

-- A text that ends with another.
unfoldable pub ends_with : String → String → Bool
ends_with String.[] ending = ending == ""
ends_with (String.◌∷◌ c s) ending =
    let rest = ends_with s ending in (String.◌∷◌ c s == ending) || rest

abbrev image_endings : List String
image_endings = ".png" ∷ ".jpg" ∷ ".jpeg" ∷ ".gif" ∷ ".svg" ∷ ".webp" ∷ ".bmp" ∷ []

-- The label of `filePresentation`; the arguments are the name and the type in lower case.
unfoldable pub file_presentation : String → String → String
unfolding ends_with
file_presentation name type =
    if (type == "image") || any (ends_with name) image_endings
    then "Image"
    else if (type == "pdf") || ends_with name ".pdf"
    then "PDF document"
    else if (type == "bib") || ends_with name ".bib"
    then "Bibliography"
    else if (type == "tex") || ends_with name ".tex"
    then "LaTeX source"
    else if (type == "txt") || (type == "text") || ends_with name ".txt"
    then "Plain text"
    else "File"
