-- ===== src/Files.antt =====
-- frontend/src/hooks/useFileManager.js: contents, unsaved marks, the tree and the file operations.
-- A handler is cut at its `await`s: what a request answers is an argument, and the state that a
-- later part sees is the one that it finds.
mod Marks
pub mod Dirty
pub mod Create
mod Tests
use Prim.Native.String
use mathlib.Core.Option
use sync_tex.Base.{
  String, Option, none, some, List, [], ◌∷◌, ◌==◌, Bool, true, false, not, ◌||◌, if◌then◌else◌,
  or_else, is_some, Answer, resolved, rejected, Task, ◌>>=◌, ◌>>◌, await, done, throw, some_or,
  update, Dict, lookup, insert, remove, add, discard,
}
use sync_tex.Tabs.{FileInfo}
use sync_tex.Tree.{Directories, nil, find_file?}

-- A content is a text, or for an image its download URL, which may be undefined.
pub record Files : Type 0 where
  pub tree_data : Directories
  pub file_contents : Dict (Option String)
  pub unsaved_files : List String
  pub is_saving : Bool
  pub error : Option String
  pub original_contents : Dict String

abbrev pub no_files : Files
no_files = record {
  tree_data = nil;
  file_contents = [];
  unsaved_files = [];
  is_saving = false;
  error = none;
  original_contents = [];
}

-- `fileContents[id]`
unfoldable pub content_of : String → Files → Option String
content_of k s = elim (lookup k s.file_contents) [ none ↦ none | some c ↦ c ]

abbrev is_truthy : Option String → Bool
is_truthy none = false
is_truthy (some t) = not (t == "")

unfoldable pub refresh_tree : Answer Directories → Task Files Directories
refresh_tree answer = do tree ← await answer; update (λ s. record s { tree_data = tree }); done tree

unfoldable pub set_file_url : String → Option String → Files → Files
set_file_url k url s = record s { file_contents = insert k url s.file_contents }

-- `loadFileContent` up to its request: whether it asks for the content.
unfoldable pub needs_load : String → Files → Bool
unfolding content_of
needs_load k s = not (is_truthy (content_of k s))

-- `loadFileContent` from the answer on.
unfoldable pub content_loaded : String → Answer String → Task Files (Unit {0})
content_loaded k answer = do
  content ← await answer
  update λ s. record s {
    file_contents = insert k (some content) s.file_contents;
    original_contents = insert k content s.original_contents;
  }

unfoldable pub clear_file_content : String → Files → Files
clear_file_content k s = record s {
  file_contents = remove k s.file_contents;
  unsaved_files = discard k s.unsaved_files;
  original_contents = remove k s.original_contents;
}

-- `a !== b`, where `none` is undefined.
abbrev differs : Option String → Option String → Bool
differs none none = false
differs none (some b) = true
differs (some a) none = true
differs (some a) (some b) = not (a == b)

-- `in_session id` says whether the file has a collaborative session.
unfoldable pub handle_editor_change :
    (String → Bool) → Option String → Option String → Files → Files
handle_editor_change in_session value none s = s
handle_editor_change in_session value (some k) s = if k == "" || in_session k then s else record s {
  file_contents = insert k (some (Option.get_or value "")) s.file_contents;
  unsaved_files =
      if differs value (lookup k s.original_contents)
      then add k s.unsaved_files
      else discard k s.unsaved_files;
}

-- What `handleSaveFile` holds while it waits for the upload.
pub record Save : Type 0 where
  pub file_id : String
  pub content : Option String
  pub from_session : Bool

-- `handleSaveFile` up to the upload; `session_content id` is `getContent()` of the file's session.
unfoldable pub begin_save : (String → Option String) → Option String → Files → Option Save × Files
unfolding content_of
begin_save session_content none s = (none, s)
begin_save session_content (some k) s = if k == "" || s.is_saving then (none, s) else (
  some (record {
    file_id = k;
    content = or_else (session_content k) (content_of k s);
    from_session = is_some (session_content k);
  }),
  record s { is_saving = true },
)

-- `originalContentsRef.current[id] = content`: an undefined content reads as an absent one.
abbrev put_original : String → Option String → Dict String → Dict String
put_original k none d = remove k d
put_original k (some c) d = insert k c d

-- `handleSaveFile` from the upload's answer on, `finally` included.
unfoldable pub end_save : Save → Answer (Unit {0}) → Files → Files
end_save job (resolved _) s =
    if job.from_session then record s { is_saving = false } else record s {
      is_saving = false;
      unsaved_files = discard job.file_id s.unsaved_files;
      original_contents = put_original job.file_id job.content s.original_contents;
    }
end_save job (rejected message) s = record s {
  is_saving = false;
  error = some (String.◌++◌ "Error saving file: " message);
}

-- A file object of an answer, whose id may be missing.
pub record Returned : Type 0 where
  pub id : Option String
  pub filename : String
  pub file_type : Option String
  pub download_url : Option String

-- `response.file`, and the response itself.
pub record Response : Type 0 where
  pub file : Option Returned
  pub itself : Returned

unfoldable pub with_id : Returned → Option FileInfo
with_id r = elim r.id [
  | none ↦ none
  | some k ↦
      if k == ""
      then none
      else some (record {
        id = k;
        filename = r.filename;
        file_type = r.file_type;
        download_url = r.download_url;
      })
]

-- `findFile(tree, returned?.id) ?? returned`, if it has an id
unfoldable pub returned_file : Response → Directories → Option FileInfo
unfolding with_id
returned_file response tree =
    let returned = Option.get_or response.file response.itself in
    elim (find_file? returned.id tree) [
      | none ↦ with_id returned
      | some f ↦ if f.id == "" then none else some f
    ]

-- `handleCreateFile`
unfoldable pub handle_create_file : Answer Response → Answer Directories → Task Files FileInfo
unfolding refresh_tree returned_file
handle_create_file created tree = do
  response ← await created
  refreshed ← refresh_tree tree
  f ← some_or (returned_file response refreshed) "The server did not return the created file"
  update λ s. record s {
    file_contents = insert f.id (some "") s.file_contents;
    unsaved_files = add f.id s.unsaved_files;
    original_contents = insert f.id "" s.original_contents;
  }
  done f

-- An id that is there and not empty.
abbrev nonempty : Option String → Option String
nonempty none = none
nonempty (some k) = if k == "" then none else some k

-- `handleCreateFolder`; the answer is the folder's id, if the response has one.
unfoldable pub handle_create_folder :
    Answer (Option String) → Answer Directories → Task Files String
unfolding refresh_tree
handle_create_folder created tree = do
  folder_id ← await created
  refresh_tree tree >>= λ _.
      some_or (nonempty folder_id) "The server did not return the created folder"

pub data ItemType : Type 0 where
  file folder : ItemType

abbrev clear_if_file : ItemType → String → Files → Files
clear_if_file file k s = clear_file_content k s
clear_if_file folder k s = s

-- `handleDeleteItem`
unfoldable pub handle_delete_item :
    String → ItemType → Answer (Unit {0}) → Answer Directories → Task Files Bool
unfolding refresh_tree clear_file_content
handle_delete_item k type deleted tree = do
  await deleted
  refresh_tree tree >>= λ _. update (clear_if_file type k)
  done true

-- `handleRenameItem`; the response is passed on.
unfoldable pub handle_rename_item : {A : Type 0} → Answer A → Answer Directories → Task Files A
unfolding refresh_tree
handle_rename_item renamed tree = do
  response ← await renamed
  refresh_tree tree >>= λ _. done response

-- `handleImageUpload`
unfoldable pub handle_image_upload : Answer Response → Answer Directories → Task Files FileInfo
unfolding refresh_tree returned_file
handle_image_upload uploaded tree = do
  response ← await uploaded
  refreshed ← refresh_tree tree
  f ← some_or (returned_file response refreshed) "The server did not return the uploaded image"
  update (λ s. record s { file_contents = insert f.id f.download_url s.file_contents })
  done f
