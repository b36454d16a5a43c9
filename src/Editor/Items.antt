-- ===== src/Editor/Items.antt =====
-- Creating, renaming and uploading items from the view, with the tabs that show them.
use mathlib.Core.Option
use sync_tex.Base.{
  String, Option, none, some, List, [], ◌∷◌, map, ◌==◌, Bool, ◌≡◌, refl, ap, if◌then◌else◌, find,
  or_else, All, Answer, resolved, rejected, Bool-cases, inl, inr, ◌⊎◌, false,
}
use sync_tex.Tabs.{
  Tabs, Tab, TabPatch, FileInfo, file_tab_id, make_file_tab, add_tab, update_tab, patch_tab,
}
use sync_tex.Tabs.Ids.{ids, ids-update_tab}
use sync_tex.Tree.{Directories}
use sync_tex.Files.{ItemType, Response, handle_create_file, handle_image_upload, handle_rename_item}
use sync_tex.Sessions.{Callback, open_collab_session}
use sync_tex.Editor.{Client}

abbrev opened : Bool → Option String → List Callback → FileInfo → Client → Client
opened is_collab token callbacks f c = record c {
  tabs = add_tab (make_file_tab f) c.tabs;
  sessions = if is_collab then open_collab_session f.id token callbacks c.sessions else c.sessions;
}

-- `handleCreateFileAndOpen`
unfoldable pub create_file_and_open :
    Bool
    → Option String
    → List Callback
    → Answer Response
    → Answer Directories
    → Client
    → Answer FileInfo × Client
unfolding handle_create_file
create_file_and_open is_collab token callbacks response tree c =
    let (answer, files) = handle_create_file response tree c.files in
    elim answer [
      | rejected message ↦ (rejected message, record c { files = files })
      | resolved f ↦ (resolved f, opened is_collab token callbacks f (record c { files = files }))
    ]

-- `handleImageUploadAndOpen`
unfoldable pub image_upload_and_open :
    Answer Response → Answer Directories → Client → Answer FileInfo × Client
unfolding handle_image_upload
image_upload_and_open response tree c =
    let (answer, files) = handle_image_upload response tree c.files in
    elim answer [
      | rejected message ↦ (rejected message, record c { files = files })
      | resolved f ↦
          (resolved f, record c { files = files; tabs = add_tab (make_file_tab f) c.tabs })
    ]

-- What the answer to a renaming says of the file, besides its id and name.
pub record Updated : Type 0 where
  pub file_type : Option String
  pub download_url : Option String

-- `{ ...existingFile, ...(updated || {}), id: itemId, filename: newName }`
abbrev pub renamed_file : String → String → Option Updated → Option FileInfo → FileInfo
renamed_file id name none none = record {
  id = id;
  filename = name;
  file_type = none;
  download_url = none;
}
renamed_file id name none (some f) = record f { id = id; filename = name }
renamed_file id name (some u) none = record {
  id = id;
  filename = name;
  file_type = u.file_type;
  download_url = u.download_url;
}
renamed_file id name (some u) (some f) = record {
  id = id;
  filename = name;
  file_type = or_else u.file_type f.file_type;
  download_url = or_else u.download_url f.download_url;
}

abbrev pub file_of : Option Tab → Option FileInfo
file_of none = none
file_of (some t) = t.file

abbrev pub rename_patch : String → String → Option Updated → List Tab → TabPatch
rename_patch id name updated open_tabs = record {
  id = none;
  kind = none;
  resource_id = none;
  title = some name;
  filename = some name;
  file =
      some (renamed_file id name updated (file_of (find (λ t. t.id == file_tab_id id) open_tabs)));
  chat = none;
}

abbrev rename_tab : ItemType → String → String → Option Updated → List Tab → Tabs → Tabs
rename_tab ItemType.file id name updated open_tabs s =
    update_tab (file_tab_id id) (rename_patch id name updated open_tabs) s
rename_tab ItemType.folder id name updated open_tabs s = s

-- `handleRenameItemAndUpdateTab`, with the open tabs at the call; the last active file is left out.
unfoldable pub rename_item_and_update_tab :
    String
    → ItemType
    → String
    → Answer (Option Updated)
    → Answer Directories
    → List Tab
    → Client
    → Answer (Option Updated) × Client
unfolding handle_rename_item update_tab
rename_item_and_update_tab id type name renamed tree open_tabs c =
    let (answer, files) = handle_rename_item renamed tree c.files in
    elim answer [
      | rejected message ↦ (rejected message, record c { files = files })
      | resolved updated ↦ (
        resolved updated,
        record c { files = files; tabs = rename_tab type id name updated open_tabs c.tabs },
      )
    ]

-- The tab shows the name everywhere.
abbrev pub Shows : String → Tab → Type 0
Shows name t =
    (t.title ≡ name)
    × (t.filename ≡ some name)
    × (Option.map (λ (f : FileInfo). f.filename) t.file ≡ some name)

filename_of_renamed :
    (id name : String) (u : Option Updated) (f : Option FileInfo)
    → (renamed_file id name u f).filename ≡ name
filename_of_renamed id name none none = refl
filename_of_renamed id name none (some f) = refl
filename_of_renamed id name (some u) none = refl
filename_of_renamed id name (some u) (some f) = refl

Shows-renamed :
    (id name : String) (u : Option Updated) (seen ts : List Tab)
    → All
        (λ t. ((t.id == file_tab_id id) ≡ false) ⊎ Shows name t)
        (map
          (λ t. if t.id == file_tab_id id then patch_tab t (rename_patch id name u seen) else t)
          ts)
unfolding patch_tab
Shows-renamed id name u seen [] = tt
Shows-renamed id name u seen (t ∷ ts) = (
  elim (Bool-cases (t.id == file_tab_id id)) [
    | inl same ↦ rw same (inr (refl, refl, ap (λ n. some n) (filename_of_renamed id name u _)))
    | inr other ↦ rw other (inl other)
  ],
  Shows-renamed id name u seen ts,
)

-- After a file is renamed, its tab, where there is one, shows the new name in its title, its file name
-- and its file, and the same tabs are open in the same order.
pub rename_item_and_update_tab_lem :
    (id name : String) (updated : Option Updated) (tree : Directories) (open_tabs : List Tab)
    (c : Client)
    → All
        (λ t. ((t.id == file_tab_id id) ≡ false) ⊎ Shows name t)
        (rename_item_and_update_tab id ItemType.file name
          (resolved updated)
          (resolved tree)
          open_tabs
          c).1.tabs.open_tabs
      × (ids
            (rename_item_and_update_tab id ItemType.file name
              (resolved updated)
              (resolved tree)
              open_tabs
              c).1.tabs
          ≡ ids c.tabs)
unfolding rename_item_and_update_tab update_tab handle_rename_item
rename_item_and_update_tab_lem id name updated tree open_tabs c = (
  Shows-renamed id name updated open_tabs c.tabs.open_tabs,
  ids-update_tab (file_tab_id id) (rename_patch id name updated open_tabs) c.tabs refl,
)
