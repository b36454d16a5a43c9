-- ===== src/Explorer/Shown.antt =====
-- What frontend/src/components/Editor/FileTree.jsx shows, with DeleteConfirmModal.jsx, and what can be
-- called from there.
use sync_tex.Base.{
  String, Option, none, some, List, [], ◌∷◌, ◌==◌, Bool, true, false, ◌||◌, if◌then◌else◌, length,
  is_some, lookup, template,
}
use sync_tex.Markup.{
  Markup, text, element, titled, handles, disabled, blank, ◌&◌, shown_if, each, button,
}
use sync_tex.Explorer.{Node, Index, visible_nodes, is_pending}
use sync_tex.Explorer.Tools.{
  Tools, Toast, ToastKind, success, error, Operation, Menu, row_menu, options_menu,
}
use sync_tex.Explorer.Listing.{
  Given, Call, is_folder_type, is_id, title_row, mode, is_uploading, toolbar, crumb, caption,
  class_if, items, retry, confirm_delete, cancel_delete, menu_key, open_directory, copy_path,
  rename_item, ask_delete,
}

abbrev pub operation_end : Bool → Option String → Markup Call
operation_end read_only none = element "span" "" (text "Uploading…")
operation_end read_only (some message) =
    button "" read_only retry "Retry" & element "small" "" (text message)

abbrev pub operations {ℓ} : {F : Type ℓ} → Bool → (F → String) → Option (Operation F) → Markup Call
operations read_only name none = blank
operations read_only name (some o) = element "section" "file-browser__operations" (
    element "div" "file-browser__operations-heading"
      (text "Operations " & element "span" "" (text "Current session"))
    & element "div"
        (template ("file-browser__operation" ∷ class_if (is_some o.failure) " is-error" ∷ []))
        (titled (name o.image) (element "span" "" (text (name o.image)))
          & operation_end read_only o.failure))

abbrev pub is_at_root : Index → Option String → Bool
is_at_root ix current = elim ix.roots [ [] ↦ true | root ∷ rest ↦ root == "" || is_id current root ]

abbrev pub root_call : List String → List Call
root_call [] = []
root_call (root ∷ rest) = open_directory root ∷ []

abbrev pub why : Bool → Markup Call → Markup Call
why read_only v = if read_only then titled "Unavailable in view-only mode" v else v

abbrev unavailable : String → Markup Call
unavailable label =
    disabled true (element "button" "" (text label & element "small" "" (text "Unavailable")))

abbrev pub node_menu : Bool → Option Node → Markup Call
node_menu read_only none = blank
node_menu read_only (some node) =
    shown_if (is_folder_type node.type) (button "" false (open_directory node.id) " Open folder")
    & why read_only (button "" read_only (rename_item node) " Rename")
    & titled "Duplicate unavailable" (unavailable " Duplicate ")
    & button "" false (copy_path node.id) " Copy relative path"
    & titled "Download unavailable" (unavailable " Download ")
    & why read_only (button "file-browser__menu-delete" read_only (ask_delete node) " Delete")

abbrev pub menu_items : Bool → Index → Option String → Menu → Markup Call
menu_items read_only ix current options_menu =
    element "div" "file-browser__menu-note" (text (if read_only then "View only" else "Editing"))
    & disabled (is_at_root ix current)
        (handles (root_call ix.roots) (element "button" "" (text " Return to project root")))
menu_items read_only ix current (row_menu id) =
    node_menu read_only (if id == "" then none else lookup id ix.nodes_by_id)

abbrev pub menu : Bool → Index → Option String → Option Menu → Markup Call
menu read_only ix current none = blank
menu read_only ix current (some m) =
    handles (menu_key ∷ []) (element "div" "file-browser__menu" (menu_items read_only ix current m))

-- `DeleteConfirmModal`; the key Escape cancels too.
abbrev pub delete_dialog : Option Node → Markup Call
delete_dialog none = blank
delete_dialog (some node) = handles (cancel_delete ∷ []) (
    element "div" "modal-overlay" (
      element "div" "modal-content" (
        element "p" "modal-title"
          (text "Delete " & text (if is_folder_type node.type then "folder" else "file"))
        & element "p" "delete-message" (
            text "Are you sure you want to delete "
            & element "strong" "" (text node.label)
            & text "? This action cannot be undone.")
        & button "btn-cancel" false cancel_delete "Cancel"
        & button "btn-delete" false confirm_delete
            (if is_folder_type node.type then "Delete Folder" else "Delete File"))))

abbrev kind_of : ToastKind → String
kind_of success = "success"
kind_of error = "error"

abbrev pub toast_shown : Option Toast → Markup Call
toast_shown none = blank
toast_shown (some t) =
    element "div" (template ("file-browser__toast is-" ∷ kind_of t.kind ∷ [])) (text t.message)

-- `FileTree`
unfoldable pub file_tree {ℓ} : {F : Type ℓ} → Given → (F → String) → Index → Tools F → Markup Call
unfolding visible_nodes
file_tree g name ix s =
    let e = s.explorer in
    element "section" "file-browser" (
      element "header" "file-browser__header" (title_row g & mode g.read_only)
      & toolbar g.read_only (is_pending e.edit) (is_uploading s.operation)
      & element "nav" "file-browser__breadcrumbs" (each g.crumbs crumb)
      & caption (length (visible_nodes ix e))
          (elim e.current_directory_id [ none ↦ none | some id ↦ lookup id ix.nodes_by_id ])
      & items g ix e
      & operations g.read_only name s.operation
      & menu g.read_only ix e.current_directory_id s.menu
      & delete_dialog s.delete_target
      & toast_shown s.toast)
