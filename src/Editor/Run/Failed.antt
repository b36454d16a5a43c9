-- ===== src/Editor/Run/Failed.antt =====
-- The error of the file manager in the runs of the view, and the page of Editor/Page.
use Prim.Native.String
use text.Mathlib.TextLemmas.{append-eq-nil_iff}
use sync_tex.Editor.Opened.{load_answered}
use sync_tex.Base.{
  template, sym, ◌∙◌, ℕ, String, Option, none, some, List, [], ◌∷◌, ◌==◌, Bool, true, false, ◌≡◌,
  refl, inl, inr, eq_iff, arith, Bool-cases, Option-cases, Answer, resolved, rejected,
}
use sync_tex.Tabs.{Tabs, Tab, file_tab_id, FileInfo, handle_tab_close}
use sync_tex.Tree.{Directories}
use sync_tex.Files.{
  Files, ItemType, Response, Save, refresh_tree, handle_editor_change, begin_save, end_save,
  returned_file, handle_delete_item, handle_rename_item, set_file_url, clear_file_content,
}
use sync_tex.Sessions.{Callback}
use sync_tex.Editor.{
  file_loaded, Client, resource_id_from_tab_id, close, tab_closed as cleaned_up, handle_file_select,
  delete_item_and_close,
}
use sync_tex.Editor.Items.{
  Updated, create_file_and_open, image_upload_and_open, rename_item_and_update_tab,
}
use sync_tex.Editor.Layout.{Numbers, Layout}
use sync_tex.Editor.Page.{error_page, page}
use sync_tex.Editor.Run.{
  Event, View, step, run, selected, refreshed, project_loaded, loaded, edited, save_began,
  save_ended, created, uploaded, renamed, deleted, tab_selected, tab_closed, chat_opened,
  chat_created, chat_deleted, chat_titled, called, bound, retried,
}
use sync_tex.Editor.Run.Returned.{
  handle_create_file-missing, handle_create_file-found, handle_image_upload-missing,
  handle_image_upload-found,
}

-- An error that the page shows.
abbrev Failed : Option String → Type 0
Failed none = ⊥
Failed (some message) = (message == "") ≡ false

module _ (c : Client) where
  error_of_selected :
      (lower : String → String) (is_collab : Bool) (token : Option String)
      (callbacks : List Callback) (f : FileInfo)
      → (handle_file_select lower is_collab token callbacks f c).1.files.error ≡ c.files.error
  unfolding handle_file_select set_file_url
  error_of_selected lower is_collab token callbacks f = ground arith

  error_of_closed :
      (callbacks : List Callback) (tab_id : String)
      → (close callbacks tab_id c).files.error ≡ c.files.error
  unfolding close cleaned_up handle_tab_close clear_file_content
  error_of_closed callbacks tab_id = elim (Option-cases (resource_id_from_tab_id tab_id "file:")) [
    | inl other ↦ rw (cleaned_up, other) refl
    | inr (id, file) ↦
        rw (cleaned_up, file)
          (elim (Bool-cases (id == "")) [ inl empty ↦ rw empty refl | inr given ↦ rw given refl ])
  ]

  error_of_edited :
      (in_session : String → Bool) (value k : Option String)
      → (handle_editor_change in_session value k c.files).error ≡ c.files.error
  unfolding handle_editor_change
  error_of_edited in_session value none = refl
  error_of_edited in_session value (some k) = ground arith

  error_of_saving :
      (content : String → Option String) (k : Option String)
      → (begin_save content k c.files).1.error ≡ c.files.error
  unfolding begin_save
  error_of_saving content none = refl
  error_of_saving content (some k) = ground arith

  error_of_created :
      (is_collab : Bool) (token : Option String) (callbacks : List Callback)
      (response : Answer Response) (tree : Answer Directories)
      → (create_file_and_open is_collab token callbacks response tree c).1.files.error
        ≡ c.files.error
  unfolding create_file_and_open
  error_of_created is_collab token callbacks (rejected message) tree = refl
  error_of_created is_collab token callbacks (resolved r) (rejected message) = refl
  error_of_created is_collab token callbacks (resolved r) (resolved d) =
      elim (Option-cases (returned_file r d)) [
        | inl missing ↦
            rw
              (
                create_file_and_open,
                handle_create_file-missing r d c.files missing,
                handle_create_file-missing r d c.files missing,
              )
              refl
        | inr (f, found) ↦
            rw
              (
                create_file_and_open,
                handle_create_file-found r d c.files f found,
                handle_create_file-found r d c.files f found,
              )
              refl
      ]

  error_of_uploaded :
      (response : Answer Response) (tree : Answer Directories)
      → (image_upload_and_open response tree c).1.files.error ≡ c.files.error
  unfolding image_upload_and_open
  error_of_uploaded (rejected message) tree = refl
  error_of_uploaded (resolved r) (rejected message) = refl
  error_of_uploaded (resolved r) (resolved d) = elim (Option-cases (returned_file r d)) [
    | inl missing ↦
        rw
          (
            image_upload_and_open,
            handle_image_upload-missing r d c.files missing,
            handle_image_upload-missing r d c.files missing,
          )
          refl
    | inr (f, found) ↦
        rw
          (
            image_upload_and_open,
            handle_image_upload-found r d c.files f found,
            handle_image_upload-found r d c.files f found,
          )
          refl
  ]

  error_of_renamed :
      (id : String) (type : ItemType) (name : String) (answer : Answer (Option Updated))
      (tree : Answer Directories) (open_tabs : List Tab)
      → (rename_item_and_update_tab id type name answer tree open_tabs c).1.files.error
        ≡ c.files.error
  unfolding rename_item_and_update_tab handle_rename_item
  error_of_renamed id type name (rejected message) tree open_tabs = refl
  error_of_renamed id type name (resolved u) (rejected message) open_tabs = refl
  error_of_renamed id ItemType.folder name (resolved u) (resolved d) open_tabs = refl
  error_of_renamed id ItemType.file name (resolved u) (resolved d) open_tabs = refl

error_of_deleted :
    (c : Client) (id : String) (type : ItemType) (answer : Answer (Unit {0}))
    (tree : Answer Directories) (callbacks : List Callback)
    → (delete_item_and_close id type answer tree callbacks c).files.error ≡ c.files.error
unfolding delete_item_and_close handle_delete_item clear_file_content
error_of_deleted c id type (rejected message) tree callbacks = refl
error_of_deleted c id type (resolved _) (rejected message) callbacks = refl
error_of_deleted c id ItemType.folder (resolved _) (resolved d) callbacks = refl
error_of_deleted c id ItemType.file (resolved _) (resolved d) callbacks =
    error_of_closed (record c { files = clear_file_content id (record c.files { tree_data = d }) })
      callbacks (file_tab_id id)

-- A message after other words is not empty.
template-given :
    (words message : String) → (words == "") ≡ false → (String.◌++◌ words message == "") ≡ false
template-given words message given = elim (Bool-cases (String.◌++◌ words message == "")) [
  | inl empty ↦
      let parts = (append-eq-nil_iff {p = words} {q = message}).0 ((eq_iff _ _).0 empty) in
      let never : false ≡ true = sym given ∙ (eq_iff words "").1 parts.0 in cc
  | inr full ↦ full
]

Failed-rejected :
    (job : Save) (message : String) (s : Files) → Failed (end_save job (rejected message) s).error
unfolding end_save
Failed-rejected job message s = template-given "Error saving file: " message refl

-- A project that cannot be loaded says why.
abbrev pub SaysWhy : Event → Type 0
SaysWhy (project_loaded (rejected message)) = (message == "") ≡ false
SaysWhy _ = Unit

abbrev pub AllSayWhy : List Event → Type 0
AllSayWhy [] = Unit
AllSayWhy (e ∷ es) = SaysWhy e × AllSayWhy es

Failed-end_save :
    (job : Save) (answer : Answer (Unit {0})) (s : Files)
    → Failed s.error
    → Failed (end_save job answer s).error
unfolding end_save
Failed-end_save job (rejected message) s h = Failed-rejected job message s
Failed-end_save job (resolved done) s h = elim (Bool-cases job.from_session) [
  | inl session ↦ rw session h
  | inr alone ↦ rw alone h
]

error_page_of_Failed :
    {N : Numbers} (error : Option String) (layout : Layout N) (tabs : Tabs)
    → Failed error
    → (text : String) × (page false error layout tabs ≡ error_page text)
unfolding page
error_page_of_Failed none layout tabs h = absurd h
error_page_of_Failed (some text) layout tabs h = (text, rw h refl)

-- The page of a project that is not loading shows an error.
abbrev pub ShowsError : {Message : Type 0} {N : Numbers} → Layout N → View Message → Type 0
ShowsError layout v =
    (text : String) × (page false v.client.files.error layout v.client.tabs ≡ error_page text)

module _ {Message : Type 0} (lower : String → String) (document : ℕ → String) where
  step-Failed :
      (e : Event) (v : View Message)
      → SaysWhy e
      → Failed v.client.files.error
      → Failed (step lower document e v).client.files.error
  unfolding step refresh_tree file_loaded load_answered rename_item_and_update_tab
      handle_rename_item
  step-Failed (selected is_collab token callbacks f) v y h =
      rw (error_of_selected v.client lower is_collab token callbacks f) h
  step-Failed (refreshed (resolved tree)) v y h = h
  step-Failed (refreshed (rejected message)) v y h = h
  step-Failed (loaded id (resolved content)) v y h = h
  step-Failed (loaded id (rejected message)) v y h =
      template-given "Failed to load file: " (template (message ∷ [])) refl
  step-Failed (project_loaded (resolved found)) v y h = h
  step-Failed (project_loaded (rejected message)) v y h = y
  step-Failed (edited value) v y h = rw (error_of_edited v.client _ value _) h
  step-Failed save_began v y h = rw (error_of_saving v.client _ _) h
  step-Failed (save_ended job answer) v y h = Failed-end_save job answer v.client.files h
  step-Failed (created is_collab token callbacks response tree) v y h =
      rw (error_of_created v.client is_collab token callbacks response tree) h
  step-Failed (uploaded response tree) v y h = rw (error_of_uploaded v.client response tree) h
  step-Failed (renamed id type name answer tree open_tabs) v y h =
      rw (error_of_renamed v.client id type name answer tree open_tabs) h
  step-Failed (deleted id type answer tree callbacks) v y h =
      rw (error_of_deleted v.client id type answer tree callbacks) h
  step-Failed (tab_selected tab_id) v y h = h
  step-Failed (tab_closed tab_id callbacks) v y h = rw (error_of_closed v.client callbacks tab_id) h
  step-Failed (chat_opened id) v y h = h
  step-Failed (chat_created answer) v y h = h
  step-Failed (chat_deleted id answer) v y h = h
  step-Failed (chat_titled id title) v y h = h
  step-Failed (called id callback) v y h = h
  step-Failed (bound id is_collab model ok) v y h = h
  step-Failed (retried id session attempt model ok) v y h = h

  run-Failed :
      (es : List Event) (v : View Message)
      → AllSayWhy es
      → Failed v.client.files.error
      → Failed (run lower document es v).client.files.error
  unfolding run
  run-Failed [] v y h = h
  run-Failed (e ∷ es) v (y, ys) h = run-Failed es (step lower document e v) ys (step-Failed e v y h)

  -- Once a save or the loading of a file has failed, the page shows an error in place of its panels,
  -- whatever then happens in the view, in any order and whatever is answered, where a project that cannot
  -- be loaded says why.
  pub failure_ends_view :
      (job : Save) (id message : String) (es : List Event) (v : View Message) {N : Numbers}
      (layout : Layout N)
      → AllSayWhy es
      → ShowsError layout (run lower document (save_ended job (rejected message) ∷ es) v)
        × ShowsError layout (run lower document (loaded id (rejected message) ∷ es) v)
  unfolding run step file_loaded
  failure_ends_view job id message es v layout say = (
    error_page_of_Failed _ layout _ (
        run-Failed es (step lower document (save_ended job (rejected message)) v) say
          (Failed-rejected job message v.client.files)),
    error_page_of_Failed _ layout _ (
        run-Failed es (step lower document (loaded id (rejected message)) v) say
          (template-given "Failed to load file: " (template (message ∷ [])) refl)),
  )
