-- ===== src/Explorer/Viewer.antt =====
-- What a viewer can do in the explorer.
use sync_tex.Base.{
  ℕ, String, Option, none, some, List, [], ◌∷◌, true, ◌||◌, ◌≡◌, refl, ◌∙◌, arith, resolved,
  rejected, Bool-cases, Option-cases, inl, inr, is_some, eqb, length,
}
use sync_tex.Explorer.{
  Locale, NodeType, file, folder, Node, Index, Edit, Explorer, Key, open_directory, begin_create,
  begin_rename, edit_changed, edit_cancelled, read_only_changed, begin_commit, end_commit,
  handle_list_key_down, visible_ids, is_pending,
}
use sync_tex.Explorer.Tools.{
  Tools, tree_changed, visible_changed, select_node, open_row_menu, open_options_menu, close_menu,
  copy_path, begin_delete, end_delete, begin_upload, end_upload, given,
}
use sync_tex.Explorer.Menu.{
  enter_node, enter, focused, enter_pressed, ask_delete, cancel_delete, retry_upload,
}
use sync_tex.Explorer.Session.{
  Browser, Event, step, run, entered, tree_arrived, directory_opened, node_selected, list_key,
  list_enter, create_begun, rename_begun, typed, committed, commit_answered, edit_left,
  row_menu_opened, options_menu_opened, menu_closed, path_copied, delete_asked, delete_confirmed,
  delete_cancelled, delete_answered, image_picked, upload_retried, upload_answered,
}

-- Nothing is edited.
abbrev Idle : {F : Type 0} → Browser F → Type 0
Idle b = b.tools.explorer.edit ≡ none

edit-list_key :
    (ix : Index) (key : Key) (s : Explorer) → (handle_list_key_down ix key s).edit ≡ s.edit
unfolding handle_list_key_down
edit-list_key ix key s =
    elim (Bool-cases (is_some s.edit || s.context_menu || eqb (length (visible_ids ix s)) 0)) [
      | inl off ↦ rw off
      | inr on ↦ rw on
    ]

edit-enter_node :
    (type : NodeType) (ix : Index) (node : Node) (s : Explorer)
    → s.edit ≡ none
    → (enter_node type ix node s).1.edit ≡ none
unfolding enter_node
edit-enter_node folder ix node s h = refl
edit-enter_node file ix node s h = h

edit-enter :
    (ix : Index) (o : Option Node) (s : Explorer) → s.edit ≡ none → (enter ix o s).1.edit ≡ none
unfolding enter
edit-enter ix none s h = h
edit-enter ix (some node) s h = edit-enter_node node.type ix node s h

enter-idle : (ix : Index) (s : Explorer) → s.edit ≡ none → (enter_pressed ix s).1.edit ≡ none
unfolding enter_pressed
enter-idle ix s h =
    elim (Bool-cases (is_some s.edit || s.context_menu || eqb (length (visible_ids ix s)) 0)) [
      | inl off ↦ rw (enter_pressed, off) h
      | inr on ↦ rw (enter_pressed, on) (edit-enter ix (focused ix s.focused_node_id) s h)
    ]

edit_left-idle : (s : Explorer) → s.edit ≡ none → (edit_cancelled s).edit ≡ none
unfolding edit_cancelled
edit_left-idle s h = rw h refl

begin_commit-idle :
    (L : Locale) (ix : Index) (s : Explorer) → s.edit ≡ none → begin_commit L ix s ≡ (none, s)
unfolding begin_commit
begin_commit-idle L ix s h = ground (arith, h)

edit-end_commit :
    (e : Edit) (name message : String) (s : Explorer)
    → s.edit ≡ none
    → (end_commit e name (rejected message) s).edit ≡ none
unfolding end_commit
edit-end_commit e name message s h = ground (arith, h)

edit-open_row_menu :
    {F : Type 0} (node : Node) (s : Tools F)
    → (open_row_menu node s).explorer.edit ≡ s.explorer.edit
unfolding open_row_menu select_node
edit-open_row_menu node s = elim (Bool-cases (is_pending s.explorer.edit)) [
  | inl pending ↦ rw pending
  | inr free ↦ rw free
]

edit-cancel_delete : {F : Type 0} (s : Tools F) → (cancel_delete s).explorer.edit ≡ s.explorer.edit
unfolding cancel_delete
edit-cancel_delete s = elim (Bool-cases s.delete_pending) [
  | inl pending ↦ rw pending
  | inr free ↦ rw free
]

module _ {F : Type 0} (L : Locale) (rounds : ℕ) where
  -- No request is made, and no edit begins.
  abbrev Harmless : Event F → Browser F → Type 0
  Harmless e b =
      ((step L rounds true e b).0 ≡ []) × ((step L rounds true e b).1.tools.explorer.edit ≡ none)

  uploads_nothing :
      (image : Option F) (target : Option String) (s : Tools F)
      → begin_upload true image target s ≡ (none, s)
  unfolding begin_upload
  uploads_nothing none target s = refl
  uploads_nothing (some image) target s = elim (Option-cases (given target)) [
    | inl missing ↦ rw (begin_upload, missing)
    | inr (id, there) ↦ rw (begin_upload, there)
  ]

  retries_nothing : (s : Tools F) → retry_upload true s ≡ (none, s)
  unfolding retry_upload
  retries_nothing s = elim (Option-cases s.operation) [
    | inl missing ↦ ground (arith, missing)
    | inr (operation, there) ↦
        ground
          (arith, there, uploads_nothing (some operation.image) (some operation.directory_id) s)
  ]

  deletes_nothing : (s : Tools F) → begin_delete true s ≡ (none, s)
  unfolding begin_delete
  deletes_nothing s = elim (Bool-cases s.delete_pending) [
    | inl pending ↦ rw (begin_delete, pending)
    | inr free ↦ rw (begin_delete, free)
  ]

  step-Harmless : (e : Event F) (b : Browser F) → Idle b → Harmless e b
  unfolding step
  step-Harmless (tree_arrived index) b h =
      unfold visible_changed in unfold tree_changed in (refl, h)
  step-Harmless (directory_opened id) b h =
      unfold visible_changed in unfold open_directory in (refl, refl)
  step-Harmless (node_selected node) b h = unfold select_node in (refl, h)
  step-Harmless (list_key key) b h = (refl, edit-list_key b.index key b.tools.explorer ∙ h)
  step-Harmless list_enter b h = (refl, enter-idle b.index b.tools.explorer h)
  step-Harmless (create_begun type) b h = unfold begin_create in (refl, h)
  step-Harmless (rename_begun node) b h = unfold begin_rename in (refl, h)
  step-Harmless (typed value) b h = unfold edit_changed in rw (edit_changed, h) (refl, h)
  step-Harmless committed b h = rw (begin_commit-idle L b.index b.tools.explorer h) (refl, h)
  step-Harmless (commit_answered e name (resolved id)) b h = unfold end_commit in (refl, refl)
  step-Harmless (commit_answered e name (rejected message)) b h =
      (refl, edit-end_commit e name message b.tools.explorer h)
  step-Harmless edit_left b h = (refl, edit_left-idle b.tools.explorer h)
  step-Harmless (row_menu_opened node) b h = (refl, edit-open_row_menu node b.tools ∙ h)
  step-Harmless options_menu_opened b h = unfold open_options_menu in (refl, h)
  step-Harmless menu_closed b h = unfold close_menu in (refl, h)
  step-Harmless (path_copied id answer) b h = unfold copy_path in unfold close_menu in (refl, h)
  step-Harmless (delete_asked node) b h = unfold ask_delete in unfold close_menu in (refl, h)
  step-Harmless delete_confirmed b h = rw (deletes_nothing b.tools) (refl, h)
  step-Harmless delete_cancelled b h = (refl, edit-cancel_delete b.tools ∙ h)
  step-Harmless (delete_answered node (resolved _)) b h = unfold end_delete in (refl, h)
  step-Harmless (delete_answered node (rejected message)) b h = unfold end_delete in (refl, h)
  step-Harmless (image_picked image) b h =
      rw (uploads_nothing image b.tools.explorer.current_directory_id b.tools) (refl, h)
  step-Harmless upload_retried b h = rw (retries_nothing b.tools) (refl, h)
  step-Harmless (upload_answered image name directory (resolved id)) b h =
      unfold end_upload in (refl, h)
  step-Harmless (upload_answered image name directory (rejected message)) b h =
      unfold end_upload in (refl, h)

  run-Harmless :
      (es : List (Event F)) (b : Browser F)
      → Idle b
      → ((run L rounds true es b).0 ≡ []) × Idle (run L rounds true es b).1
  unfolding run
  run-Harmless [] b h = (refl, h)
  run-Harmless (e ∷ es) b h =
      let (none_asked, idle) = step-Harmless e b h in
      let (none_later, idle_later) = run-Harmless es (step L rounds true e b).1 idle in
      (rw (none_asked, none_later) refl, idle_later)

  -- Once a user is found to be a viewer, whatever the explorer shows at that time, whatever is then
  -- clicked, typed and answered, and however the tree changes, the explorer asks for no creation, no
  -- renaming, no deletion and no upload, and no name is being edited.
  pub viewer_asks_nothing :
      (es : List (Event F)) (b : Browser F)
      → ((run L rounds true es (entered L rounds true b)).0 ≡ [])
        × ((run L rounds true es (entered L rounds true b)).1.tools.explorer.edit ≡ none)
  unfolding entered read_only_changed
  viewer_asks_nothing es b = run-Harmless es (entered L rounds true b) refl
