-- ===== src/Editor/Opened.antt =====
-- What frontend/src/views/EditorView.jsx keeps itself: the project that it loads, the user's role, the
-- file that was active last and the key that saves.
use sync_tex.Base.{
  String, Option, none, some, or_else, ◌==◌, Bool, true, false, ◌&&◌, ◌||◌, if◌then◌else◌, Answer,
  resolved, rejected, Value, truthy, or_value, str, to_text,
}
use sync_tex.Tabs.{Tabs, FileInfo}
use sync_tex.Files.{Files}
use sync_tex.Editor.Shown.{active_file, active_file_id, non_empty}

-- What the view keeps of its project besides the hooks' states; an error is kept by the file manager.
pub record Opened : Type 0 where
  pub loading : Bool
  pub project_name : String
  pub user_role : Value
  pub is_collab : Bool
  pub last_active_file : Option FileInfo

-- `setLoading(true); setProjectName('Project')`
unfoldable pub load_started : Opened → Opened
load_started s = record s { loading = true; project_name = "Project" }

-- What `refreshTree` and `fetchProject` give: the role and `is_collab`, and the name.
-- A failure goes to the error of the file manager, the only one that the view has.
unfoldable pub load_answered : Answer ((Value × Value) × Value) → Opened × Files → Opened × Files
load_answered (resolved ((role, is_collab), name)) (s, files) = (
  record s {
    loading = false;
    project_name = to_text (or_value name (str "Project"));
    user_role = role;
    is_collab = truthy is_collab;
  },
  files,
)
load_answered (rejected message) (s, files) =
    (record s { loading = false }, record files { error = some message })

-- `isReadOnly`
unfoldable pub is_read_only : Opened → Bool
is_read_only s = elim s.user_role [ str role ↦ role == "viewer" | _ ↦ false ]

-- The effect on `activeFile`.
unfoldable pub note_active_file : Tabs → Opened → Opened
note_active_file tabs s = elim (active_file tabs) [
  | none ↦ s
  | some f ↦ record s { last_active_file = some f }
]

-- The file that Ctrl+S or Cmd+S saves.
unfoldable pub saved_by_key : Bool → Bool → String → Tabs → Option String
saved_by_key ctrl meta key s =
    if (ctrl || meta) && (key == "s") then non_empty (active_file_id s) else none

-- `setLastActiveFile` of `handleDeleteItemAndClose`, once a file is deleted.
unfoldable pub forget_last_active : String → Opened → Opened
forget_last_active item_id s = elim s.last_active_file [
  | none ↦ s
  | some f ↦ if f.id == item_id then record s { last_active_file = none } else s
]

-- `{ ...current, ...(updated || {}), filename: newName }`, where a field that the answer has not is
-- none.
abbrev renamed_active : FileInfo → Option FileInfo → String → FileInfo
renamed_active current none new_name = record current { filename = new_name }
renamed_active current (some updated) new_name = record updated {
  filename = new_name;
  file_type = or_else updated.file_type current.file_type;
  download_url = or_else updated.download_url current.download_url;
}

-- `setLastActiveFile` of `handleRenameItemAndUpdateTab`, once a file is renamed.
unfoldable pub rename_last_active : String → Option FileInfo → String → Opened → Opened
rename_last_active item_id updated new_name s = elim s.last_active_file [
  | none ↦ s
  | some f ↦
      if f.id == item_id
      then record s { last_active_file = some (renamed_active f updated new_name) }
      else s
]
