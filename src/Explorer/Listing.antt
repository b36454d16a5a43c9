-- ===== src/Explorer/Listing.antt =====
-- What frontend/src/components/Editor/FileTree.jsx shows of the items: its header, the tools, and the rows
-- with the input of an edit.
use sync_tex.Base.{
  ℕ, String, Option, none, some, List, [], ◌∷◌, ◌==◌, Bool, true, false, not, ◌&&◌, ◌||◌,
  if◌then◌else◌, eqb, length, is_some, lookup, num, to_text, template,
}
use sync_tex.Markup.{Markup, text, element, titled, handles, blank, ◌&◌, shown_if, each, button}
use sync_tex.Explorer.{
  NodeType, file, folder, Node, Index, Edit, create, rename, Explorer, visible_nodes, is_pending,
}
use sync_tex.Explorer.Tools.{Operation}

pub data Call : Type 0 where
  toggle_theme options list_key pick_image image_chosen type_name edit_key leave_edit : Call
  retry confirm_delete cancel_delete menu_key : Call
  new_item : NodeType → Call
  open_directory focus copy_path : String → Call
  select row_actions rename_item ask_delete : Node → Call

-- What the component is given, and derives from its tree.
pub record Given : Type 0 where
  pub project_name : String
  pub read_only : Bool
  pub dark : Bool
  pub active_file_id : Option String
  pub crumbs : List Node
  pub presentation : Node → String

abbrev pub is_folder_type : NodeType → Bool
is_folder_type folder = true
is_folder_type file = false

abbrev pub is_id : Option String → String → Bool
is_id none id = false
is_id (some other) id = other == id

abbrev pub renames : Option Edit → String → Bool
renames none id = false
renames (some e) id = elim e.kind [ create ↦ false | rename node_id ↦ node_id == id ]

abbrev pub creates : Option Edit → Bool
creates none = false
creates (some e) = elim e.kind [ create ↦ true | rename node_id ↦ false ]

abbrev other_theme : Bool → String
other_theme dark = if dark then "Switch to light theme" else "Switch to dark theme"

abbrev pub title_row : Given → Markup Call
title_row g = element "div" "file-browser__title-row" (
    titled g.project_name (element "h1" "" (text g.project_name))
    & titled (other_theme g.dark) (button "file-browser__round-button" false toggle_theme "")
    & titled "Explorer options" (button "file-browser__round-button" false options ""))

abbrev pub mode : Bool → Markup Call
mode read_only = element "div" "file-browser__mode" (
    element "strong" "" (text (if read_only then "View only" else "Editing"))
    & text " · "
    & text (if read_only then "Changes disabled" else "Folder-focused browser"))

abbrev pub is_uploading {ℓ} : {F : Type ℓ} → Option (Operation F) → Bool
is_uploading none = false
is_uploading (some operation) = not (is_some operation.failure)

abbrev pub toolbar : Bool → Bool → Bool → Markup Call
toolbar read_only pending uploading = element "div" "file-browser__toolbar" (
    button "file-browser__tool file-browser__tool--primary" (read_only || pending) (new_item file)
      " New File"
    & button "file-browser__tool" (read_only || pending) (new_item folder) " New Folder"
    & titled "Upload image"
        (button "file-browser__round-button" (read_only || pending || uploading) pick_image "")
    -- the input of files, which is not seen but never disabled
    & handles (image_chosen ∷ []) (element "input" "file-browser__file-input" blank))

abbrev pub crumb : Node → Markup Call
crumb node = titled node.label (button "" false (open_directory node.id) node.label)

abbrev pub caption : ℕ → Option Node → Markup Call
caption count directory = element "div" "file-browser__caption" (
    text (
      template (
        to_text (num count)
        ∷ " "
        ∷ (if eqb count 1 then "item" else "items")
        ∷ " in "
        ∷ elim directory [ none ↦ "Project" | some node ↦ node.label ]
        ∷ [])))

-- The input of an edit, and its message.
abbrev input : Edit → String → Markup Call
input e placeholder = handles (if e.pending then [] else type_name ∷ []) (
    handles (edit_key ∷ leave_edit ∷ []) (
      element "input" "file-browser__inline-input"
        (text (if e.value == "" then placeholder else e.value))))

abbrev inline_error : Edit → Markup Call
inline_error e = shown_if (not (e.error == "")) (
    element "span" "file-browser__inline-error"
      (text e.error & shown_if e.retry (text " — edit and press Enter to retry")))

abbrev pub subtext : Given → Index → Node → String
subtext g ix node =
    if is_folder_type node.type
    then elim (lookup node.id ix.children_by_directory) [
      | none ↦ "Empty folder"
      | some ids ↦ if eqb (length ids) 0 then "Empty folder" else "Folder · open to browse"
    ]
    else g.presentation node

abbrev pub named : Given → Index → Explorer → Node → Markup Call
named g ix s node =
    titled node.label (element "span" "file-browser__name" (text node.label))
    & element "span" "file-browser__subtext" (text (subtext g ix node))

abbrev pub renamed_by : Option Edit → Markup Call
renamed_by none = blank
renamed_by (some e) = input e ""

abbrev pub renaming_error : Option Edit → Markup Call
renaming_error none = blank
renaming_error (some e) = inline_error e

abbrev pub class_if : Bool → String → String
class_if b name = if b then name else ""

abbrev pub row : Given → Index → Explorer → Node → Markup Call
row g ix s node = handles (focus node.id ∷ select node ∷ row_actions node ∷ []) (
    handles (if is_folder_type node.type then open_directory node.id ∷ [] else []) (
      element "div"
        (template (
          "file-browser__item"
          ∷ class_if (is_folder_type node.type) " file-browser__item--folder"
          ∷ class_if (is_id s.selected_node_id node.id) " is-selected"
          ∷ class_if (is_id s.focused_node_id node.id) " is-focused"
          ∷ class_if (is_id g.active_file_id node.id) " is-active"
          ∷ []))
        (element "span" "file-browser__metadata"
            (if renames s.edit node.id then renamed_by s.edit else named g ix s node)
          & titled (template ("Actions for " ∷ node.label ∷ []))
              (button "file-browser__dots" (is_pending s.edit) (row_actions node) "")
          & shown_if (renames s.edit node.id) (renaming_error s.edit))))

abbrev pub created_by : Option Edit → Markup Call
created_by none = blank
created_by (some e) =
    element "div"
      (template (
        "file-browser__item file-browser__item--editing"
        ∷ class_if (is_folder_type e.type) " file-browser__item--folder"
        ∷ []))
      (element "span" "file-browser__metadata"
          (input e (if is_folder_type e.type then "folder-name" else "chapter.tex"))
        & inline_error e)

abbrev pub empty_folder : Markup Call
empty_folder = element "div" "file-browser__empty" (
    element "strong" "" (text "This folder is empty")
    & text "Create a file here or return with the breadcrumb.")

abbrev pub items : Given → Index → Explorer → Markup Call
items g ix s = handles (list_key ∷ []) (
    element "div" "file-browser__items" (
      each (visible_nodes ix s) (row g ix s)
      & shown_if (creates s.edit) (created_by s.edit)
      & shown_if (eqb (length (visible_nodes ix s)) 0 && not (creates s.edit)) empty_folder))
