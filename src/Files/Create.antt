-- ===== src/Files/Create.antt =====
-- Creating, deleting, renaming and uploading: what a success changes, and that a failure leaves the
-- contents, the marks and the saved texts alone.
use sync_tex.Base.{
  String, Option, none, some, ◌==◌, true, false, if◌then◌else◌, ◌≡◌, refl, arith, Answer, resolved,
  rejected, lookup, has, lookup-insert, lookup-remove, has-add, has-discard,
}
use sync_tex.Tabs.{FileInfo}
use sync_tex.Tree.{Directories}
use sync_tex.Files.{
  Files, Response, ItemType, content_of, returned_file, handle_create_file, handle_create_folder,
  handle_delete_item, handle_image_upload,
}

-- Only the tree may differ.
abbrev pub SameContents : Files → Files → Type 0
SameContents s t =
    (t.file_contents ≡ s.file_contents)
    × (t.unsaved_files ≡ s.unsaved_files)
    × (t.original_contents ≡ s.original_contents)
    × (t.is_saving ≡ s.is_saving)
    × (t.error ≡ s.error)

abbrev SameIfRejected : {A : Type 0} → Files → Answer A × Files → Type 0
SameIfRejected s r = (message : String) → r.0 ≡ rejected message → SameContents s r.1

create-SameIfRejected :
    (s : Files) (response : Answer Response) (tree : Answer Directories)
    → SameIfRejected s (handle_create_file response tree s)
unfolding handle_create_file
create-SameIfRejected s (rejected m) tree message e = (refl, refl, refl, refl, refl)
create-SameIfRejected s (resolved r) (rejected m) message e = (refl, refl, refl, refl, refl)
create-SameIfRejected s (resolved r) (resolved d) message e = ground arith

upload-SameIfRejected :
    (s : Files) (response : Answer Response) (tree : Answer Directories)
    → SameIfRejected s (handle_image_upload response tree s)
unfolding handle_image_upload
upload-SameIfRejected s (rejected m) tree message e = (refl, refl, refl, refl, refl)
upload-SameIfRejected s (resolved r) (rejected m) message e = (refl, refl, refl, refl, refl)
upload-SameIfRejected s (resolved r) (resolved d) message e = ground arith

folder-SameContents :
    (s : Files) (folder : Answer (Option String)) (tree : Answer Directories)
    → SameContents s (handle_create_folder folder tree s).1
unfolding handle_create_folder
folder-SameContents s (rejected m) tree = (refl, refl, refl, refl, refl)
folder-SameContents s (resolved r) (rejected m) = (refl, refl, refl, refl, refl)
folder-SameContents s (resolved none) (resolved d) = (refl, refl, refl, refl, refl)
folder-SameContents s (resolved (some k)) (resolved d) = ground arith

delete-SameIfRejected :
    (s : Files) (k : String) (type : ItemType) (answer : Answer (Unit {0}))
    (tree : Answer Directories)
    → SameIfRejected s (handle_delete_item k type answer tree s)
unfolding handle_delete_item
delete-SameIfRejected s k type (rejected m) tree message e = (refl, refl, refl, refl, refl)
delete-SameIfRejected s k type (resolved _) (rejected m) message e = (refl, refl, refl, refl, refl)
delete-SameIfRejected s k type (resolved _) (resolved d) message e = ground arith

abbrev pub RejectsUnchanged : {A : Type 0} → Files → Answer A × Files → Type 0
RejectsUnchanged s (resolved a, t) = Unit
RejectsUnchanged s (rejected message, t) = SameContents s t

RejectsUnchanged-same :
    {A : Type 0} (s : Files) (r : Answer A × Files) → SameIfRejected s r → RejectsUnchanged s r
RejectsUnchanged-same s (resolved a, t) h = tt
RejectsUnchanged-same s (rejected message, t) h = h message refl

-- Where creating a file, uploading an image or deleting an item ends in an error, at any of its
-- requests or for want of an id in the answer, only the tree can have changed: contents, unsaved
-- marks, saved texts and flags are as before.
pub rejected-SameContents :
    (s : Files) (response : Answer Response) (tree : Answer Directories) (k : String)
    (type : ItemType) (deleted : Answer (Unit {0}))
    → RejectsUnchanged s (handle_create_file response tree s)
      × RejectsUnchanged s (handle_image_upload response tree s)
      × RejectsUnchanged s (handle_delete_item k type deleted tree s)
rejected-SameContents s response tree k type deleted = (
  RejectsUnchanged-same s _ (create-SameIfRejected s response tree),
  RejectsUnchanged-same s _ (upload-SameIfRejected s response tree),
  RejectsUnchanged-same s _ (delete-SameIfRejected s k type deleted tree),
)

-- When a file is created, the answer is the file of the refreshed tree with the id that the server
-- returned, or the returned file itself; and then the tree is the refreshed one, the file has the
-- empty content, it is marked as unsaved, and no other file's content or mark changes.
pub handle_create_file_lem :
    (r : Response) (d : Directories) (s : Files) (f : FileInfo) (j : String)
    → returned_file r d ≡ some f
    → ((handle_create_file (resolved r) (resolved d) s).0 ≡ resolved f)
      × ((handle_create_file (resolved r) (resolved d) s).1.tree_data ≡ d)
      × (content_of j (handle_create_file (resolved r) (resolved d) s).1
          ≡ (if f.id == j then some "" else content_of j s))
      × (has j (handle_create_file (resolved r) (resolved d) s).1.unsaved_files
          ≡ (if f.id == j then true else has j s.unsaved_files))
unfolding handle_create_file content_of
handle_create_file_lem r d s f j e = (
  rw e,
  rw e,
  rw e (ground (arith, lookup-insert f.id j (some "") s.file_contents)),
  rw e (ground (arith, has-add f.id j s.unsaved_files)),
)

-- After a file is deleted, it has neither content nor mark nor saved text, and every other file
-- keeps its own; after a folder is deleted, every content and mark is kept.
pub handle_delete_item_lem :
    (k j : String) (d : Directories) (s : Files)
    → (content_of j (handle_delete_item k ItemType.file (resolved tt) (resolved d) s).1
        ≡ (if k == j then none else content_of j s))
      × (has j (handle_delete_item k ItemType.file (resolved tt) (resolved d) s).1.unsaved_files
          ≡ (if k == j then false else has j s.unsaved_files))
      × (lookup j
            (handle_delete_item k ItemType.file (resolved tt) (resolved d) s).1.original_contents
          ≡ (if k == j then none else lookup j s.original_contents))
      × SameContents s (handle_delete_item k ItemType.folder (resolved tt) (resolved d) s).1
unfolding handle_delete_item content_of
handle_delete_item_lem k j d s = (
  ground (arith, lookup-remove k j s.file_contents),
  ground (arith, has-discard k j s.unsaved_files),
  lookup-remove k j s.original_contents,
  (refl, refl, refl, refl, refl),
)
