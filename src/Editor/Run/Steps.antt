-- ===== src/Editor/Run/Steps.antt =====
-- What each handler of the view keeps of `IsOwned`.
use sync_tex.Base.{
  String, Option, none, some, List, ◌==◌, eq_iff, Bool, true, false, ◌||◌, ◌≡◌, refl, ap, inl, inr,
  arith, if◌then◌else◌, find, add, discard, has, has-add, has-discard, Bool-cases, Option-cases,
  Answer, resolved, rejected,
}
use sync_tex.Tabs.{Tab, TabPatch, FileInfo, file_tab_id, make_file_tab, add_tab, update_tab}
use sync_tex.Tree.{Directories}
use sync_tex.Files.{
  ItemType, Response, Save, refresh_tree, clear_file_content, handle_editor_change, begin_save,
  end_save, returned_file, handle_delete_item, handle_rename_item,
}
use sync_tex.Sessions.{Callback}
use sync_tex.Editor.{Client, file_loaded, delete_item_and_close}
use sync_tex.Editor.Items.{
  Updated, renamed_file, rename_patch, file_of, create_file_and_open, image_upload_and_open,
  rename_item_and_update_tab,
}
use sync_tex.Editor.Shown.{active_file_id}
use sync_tex.Editor.Run.Owned.{
  IsOwned, IsOwned-files, IsOwned-marks, IsOwned-add_tab, IsOwned-open, IsOwned-close,
  ShowsOwn-file, kept_mark,
}
use sync_tex.Editor.Run.Open.{
  IsOpen, IsOpen-add_tab, IsOpen-added, IsOpen-update_tab, IsOpen-active, ShowsOwn-update_tab,
}
use sync_tex.Editor.Run.Returned.{
  returned_file-given, handle_create_file-missing, handle_create_file-found,
  handle_image_upload-missing, handle_image_upload-found,
}

id_of_renamed :
    (id name : String) (u : Option Updated) (seen : Option FileInfo) (f : FileInfo)
    → some (renamed_file id name u seen) ≡ some f
    → id ≡ f.id
id_of_renamed id name none none f e = cc
id_of_renamed id name none (some g) f e = cc
id_of_renamed id name (some u) none f e = cc
id_of_renamed id name (some u) (some g) f e = cc

module _ (c : Client) (h : IsOwned c) where
  mark_of_added :
      (f : FileInfo) (id : String)
      → (f.id == "") ≡ false
      → has id (add f.id c.files.unsaved_files) ≡ true
      → IsOpen id (add_tab (make_file_tab f) c.tabs)
  mark_of_added f id given m = elim (Bool-cases (f.id == id)) [
    | inl same ↦ IsOpen-added f c.tabs id given same
    | inr other ↦
        IsOpen-add_tab (make_file_tab f) c.tabs id
          (h.marks id (rw (has-add f.id id c.files.unsaved_files, other) at m))
  ]

  -- A created file gets a mark and its tab at once.
  pub IsOwned-created :
      (is_collab : Bool) (token : Option String) (callbacks : List Callback)
      (response : Answer Response) (tree : Answer Directories)
      → IsOwned (create_file_and_open is_collab token callbacks response tree c).1
  unfolding create_file_and_open
  IsOwned-created is_collab token callbacks (rejected message) tree = h
  IsOwned-created is_collab token callbacks (resolved r) (rejected message) = h
  IsOwned-created is_collab token callbacks (resolved r) (resolved d) =
      elim (Option-cases (returned_file r d)) [
        | inl missing ↦
            rw
              (
                create_file_and_open,
                handle_create_file-missing r d c.files missing,
                handle_create_file-missing r d c.files missing,
              )
              (record { own = h.own; sessions = h.sessions; marks = h.marks })
        | inr (f, found) ↦
            rw
              (
                create_file_and_open,
                handle_create_file-found r d c.files f found,
                handle_create_file-found r d c.files f found,
              )
              (elim (Bool-cases is_collab) [
                | inl collab ↦ rw collab (
                    let o = IsOwned-open c h f token callbacks (returned_file-given r d f found) in
                    record {
                      own = o.own;
                      sessions = o.sessions;
                      marks = λ id. mark_of_added f id (returned_file-given r d f found);
                    })
                | inr alone ↦ rw alone (
                    let o = IsOwned-add_tab c h (make_file_tab f) (ShowsOwn-file f) in
                    record {
                      own = o.own;
                      sessions = o.sessions;
                      marks = λ id. mark_of_added f id (returned_file-given r d f found);
                    })
              ])
      ]

  pub IsOwned-uploaded :
      (response : Answer Response) (tree : Answer Directories)
      → IsOwned (image_upload_and_open response tree c).1
  unfolding image_upload_and_open
  IsOwned-uploaded (rejected message) tree = h
  IsOwned-uploaded (resolved r) (rejected message) = h
  IsOwned-uploaded (resolved r) (resolved d) = elim (Option-cases (returned_file r d)) [
    | inl missing ↦
        rw
          (
            image_upload_and_open,
            handle_image_upload-missing r d c.files missing,
            handle_image_upload-missing r d c.files missing,
          )
          (record { own = h.own; sessions = h.sessions; marks = h.marks })
    | inr (f, found) ↦
        rw
          (
            image_upload_and_open,
            handle_image_upload-found r d c.files f found,
            handle_image_upload-found r d c.files f found,
          )
          (let o = IsOwned-add_tab c h (make_file_tab f) (ShowsOwn-file f) in
            record { own = o.own; sessions = o.sessions; marks = o.marks })
  ]

  mark_of_edited :
      (changed : Bool) (k id : String)
      → (k == "") ≡ false
      → active_file_id c.tabs ≡ some k
      → has id (if changed then add k c.files.unsaved_files else discard k c.files.unsaved_files)
        ≡ true
      → IsOpen id c.tabs
  mark_of_edited true k id given active m = elim (Bool-cases (k == id)) [
    | inl same ↦ rw (← (eq_iff k id).0 same) (IsOpen-active c.tabs k h.own active given)
    | inr other ↦ h.marks id (rw (has-add k id c.files.unsaved_files, other) at m)
  ]
  mark_of_edited false k id given active m =
      h.marks id (kept_mark (k == id) _ (rw (has-discard k id c.files.unsaved_files) at m))

  pub IsOwned-edited :
      (in_session : String → Bool) (value : Option String)
      → IsOwned (record c {
        files = handle_editor_change in_session value (active_file_id c.tabs) c.files;
      })
  unfolding handle_editor_change
  IsOwned-edited in_session value = elim (Option-cases (active_file_id c.tabs)) [
    | inl off ↦ rw off h
    | inr (k, active) ↦ rw active (elim (Bool-cases (k == "" || in_session k)) [
      | inl skipped ↦ rw skipped h
      | inr kept ↦ rw kept (IsOwned-marks c h λ id. mark_of_edited _ k id (ground arith) active)
    ])
  ]

  pub IsOwned-saving :
      (session_content : String → Option String)
      → IsOwned
          (record c { files = (begin_save session_content (active_file_id c.tabs) c.files).1 })
  unfolding begin_save
  IsOwned-saving session_content = elim (Option-cases (active_file_id c.tabs)) [
    | inl off ↦ rw off h
    | inr (k, active) ↦ rw active (elim (Bool-cases (k == "" || c.files.is_saving)) [
      | inl skipped ↦ rw skipped h
      | inr kept ↦ rw kept (IsOwned-files c h _ (λ id m. m))
    ])
  ]

  pub IsOwned-saved :
      (job : Save) (answer : Answer (Unit {0}))
      → IsOwned (record c { files = end_save job answer c.files })
  unfolding end_save
  IsOwned-saved job (rejected message) = IsOwned-files c h _ (λ id m. m)
  IsOwned-saved job (resolved _) = elim (Bool-cases job.from_session) [
    | inl session ↦ rw session (IsOwned-files c h _ (λ id m. m))
    | inr alone ↦ rw alone (
        IsOwned-files c h _ λ id m.
          kept_mark (job.file_id == id) _
            (rw (has-discard job.file_id id c.files.unsaved_files) at m))
  ]

  pub IsOwned-loaded :
      (id : String) (answer : Answer String)
      → IsOwned (record c { files = file_loaded id answer c.files })
  unfolding file_loaded
  IsOwned-loaded id (rejected message) = IsOwned-files c h _ (λ j m. m)
  IsOwned-loaded id (resolved text) = IsOwned-files c h _ (λ j m. m)

  pub IsOwned-refreshed :
      (tree : Answer Directories) → IsOwned (record c { files = (refresh_tree tree c.files).1 })
  unfolding refresh_tree
  IsOwned-refreshed (rejected message) = IsOwned-files c h _ (λ j m. m)
  IsOwned-refreshed (resolved d) = IsOwned-files c h _ (λ j m. m)

  pub IsOwned-deleted :
      (id : String) (type : ItemType) (answer : Answer (Unit {0})) (tree : Answer Directories)
      (callbacks : List Callback)
      → IsOwned (delete_item_and_close id type answer tree callbacks c)
  unfolding delete_item_and_close handle_delete_item
  IsOwned-deleted id type (rejected message) tree callbacks = IsOwned-files c h _ (λ j m. m)
  IsOwned-deleted id type (resolved _) (rejected message) callbacks = IsOwned-files c h _ (λ j m. m)
  IsOwned-deleted id ItemType.folder (resolved _) (resolved d) callbacks =
      IsOwned-files c h _ (λ j m. m)
  IsOwned-deleted id ItemType.file (resolved _) (resolved d) callbacks =
      IsOwned-close _
        (IsOwned-files c h (clear_file_content id (record c.files { tree_data = d })) λ j m.
          kept_mark (id == j) _
            (unfold clear_file_content in rw (has-discard id j c.files.unsaved_files) at m))
        callbacks (file_tab_id id)

  pub IsOwned-update_tab :
      (k : String) (p : TabPatch)
      → p.id ≡ none
      → p.kind ≡ none
      → p.resource_id ≡ none
      → ((f : FileInfo) → p.file ≡ some f → k ≡ file_tab_id f.id)
      → IsOwned (record c { tabs = update_tab k p c.tabs })
  IsOwned-update_tab k p kept kind resource own = record {
    own = ShowsOwn-update_tab k p c.tabs kept kind resource own h.own;
    sessions = λ id m. IsOpen-update_tab k p c.tabs id kept (h.sessions id m);
    marks = λ id m. IsOpen-update_tab k p c.tabs id kept (h.marks id m);
  }

  pub IsOwned-renamed :
      (id : String) (type : ItemType) (name : String) (answer : Answer (Option Updated))
      (tree : Answer Directories) (open_tabs : List Tab)
      → IsOwned (rename_item_and_update_tab id type name answer tree open_tabs c).1
  unfolding rename_item_and_update_tab handle_rename_item
  IsOwned-renamed id type name (rejected message) tree open_tabs = IsOwned-files c h _ (λ j m. m)
  IsOwned-renamed id type name (resolved u) (rejected message) open_tabs =
      IsOwned-files c h _ (λ j m. m)
  IsOwned-renamed id ItemType.folder name (resolved u) (resolved d) open_tabs =
      IsOwned-files c h _ (λ j m. m)
  IsOwned-renamed id ItemType.file name (resolved u) (resolved d) open_tabs =
      let o =
        IsOwned-update_tab (file_tab_id id) (rename_patch id name u open_tabs) refl refl refl
          (λ f e. ap file_tab_id (
            id_of_renamed id name u (file_of (find (λ t. t.id == file_tab_id id) open_tabs)) f
              e)) in
      record { own = o.own; sessions = o.sessions; marks = o.marks }
