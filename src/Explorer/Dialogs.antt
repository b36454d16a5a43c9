-- ===== src/Explorer/Dialogs.antt =====
-- The checks of names in the dialogs that the explorer replaced: CreateItemModal.jsx and
-- RenameModal.jsx of frontend/src/components/Editor.
use Prim.Native.Char.{code}
use sync_tex.Base.{
  ℕ, String, Option, none, some, ◌==◌, Bool, true, false, not, ◌&&◌, ◌||◌, if◌then◌else◌, eqb, trim,
}
use sync_tex.Files.{ItemType, file, folder}

-- `value.includes(c)`
unfoldable pub includes : ℕ → String → Bool
includes c String.[] = false
includes c (String.◌∷◌ d s) = let rest = includes c s in eqb (code d) c || rest

abbrev is_file : ItemType → Bool
is_file file = true
is_file folder = false

-- `validateName` of `CreateItemModal`
unfoldable pub create_name_error : ItemType → String → Option String
unfolding includes trim
create_name_error type value =
    if trim value == ""
    then some "Name cannot be empty"
    else if includes 47 value || includes 92 value
    then some "Name cannot contain slashes"
    else if is_file type && not (includes 46 value)
    then some "File must have an extension (e.g., .tex, .bib)"
    else none

-- `validateName` of `RenameModal`
unfoldable pub rename_name_error : ItemType → String → String → Option String
unfolding create_name_error
rename_name_error type current_name value = elim (create_name_error type value) [
  | some message ↦ some message
  | none ↦
      if value == current_name then some "New name must be different from current name" else none
]

-- `handleSubmit`: the name that is submitted, or the error that is shown.
unfoldable pub create_submitted : ItemType → String → Option String × Option String
unfolding create_name_error
create_submitted type name = elim (create_name_error type name) [
  | none ↦ (some (trim name), none)
  | some message ↦ (none, some message)
]

unfoldable pub rename_submitted : ItemType → String → String → Option String × Option String
unfolding rename_name_error
rename_submitted type current_name new_name = elim (rename_name_error type current_name new_name) [
  | none ↦ (some (trim new_name), none)
  | some message ↦ (none, some message)
]
