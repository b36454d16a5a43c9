-- ===== src/Editor/Run/Returned.antt =====
-- What creating a file and uploading an image answer to the view, by what is found in the tree.
use mathlib.Core.Option
use sync_tex.Base.{
  String, none, some, ◌==◌, false, ◌≡◌, refl, inl, inr, add, insert, Bool-cases, Option-cases,
  resolved, rejected,
}
use sync_tex.Tabs.{FileInfo}
use sync_tex.Tree.{Directories, find_file?}
use sync_tex.Files.{
  Files, Response, Returned, with_id, returned_file, handle_create_file, handle_image_upload,
}

given_of :
    (k : String) (f : FileInfo) {g : FileInfo}
    → (k == "") ≡ false
    → g.id ≡ k
    → some g ≡ some f
    → (f.id == "") ≡ false
given_of k f {g} given same e = let i : k ≡ f.id = cc in rw (← i) given

with_id-given : (r : Returned) (f : FileInfo) → with_id r ≡ some f → (f.id == "") ≡ false
unfolding with_id
with_id-given r f e = elim (Option-cases r.id) [
  | inl missing ↦ let gone : none ≡ some f = rw (with_id, missing) at e in cc
  | inr (k, there) ↦ elim (Bool-cases (k == "")) [
    | inl empty ↦ let gone : none ≡ some f = rw (with_id, there, empty) at e in cc
    | inr given ↦ given_of k f given refl (rw (with_id, there, given) at e)
  ]
]

-- What creating or uploading answers has an id.
pub returned_file-given :
    (r : Response) (d : Directories) (f : FileInfo)
    → returned_file r d ≡ some f
    → (f.id == "") ≡ false
unfolding returned_file
returned_file-given r d f e =
    let returned = Option.get_or r.file r.itself in
    elim (Option-cases (find_file? returned.id d)) [
      | inl missing ↦ with_id-given returned f (rw (returned_file, missing) at e)
      | inr (g, found) ↦ elim (Bool-cases (g.id == "")) [
        | inl empty ↦ let gone : none ≡ some f = rw (returned_file, found, empty) at e in cc
        | inr given ↦ given_of g.id f given refl (rw (returned_file, found, given) at e)
      ]
    ]

module _ (r : Response) (d : Directories) (s : Files) where
  pub handle_create_file-missing :
      returned_file r d ≡ none
      → handle_create_file (resolved r) (resolved d) s
        ≡ (rejected "The server did not return the created file", record s { tree_data = d })
  unfolding handle_create_file
  handle_create_file-missing missing = rw missing

  pub handle_create_file-found :
      (f : FileInfo)
      → returned_file r d ≡ some f
      → handle_create_file (resolved r) (resolved d) s ≡ (
        resolved f,
        record s {
          tree_data = d;
          file_contents = insert f.id (some "") s.file_contents;
          unsaved_files = add f.id s.unsaved_files;
          original_contents = insert f.id "" s.original_contents;
        },
      )
  unfolding handle_create_file
  handle_create_file-found f found = rw found

  pub handle_image_upload-missing :
      returned_file r d ≡ none
      → handle_image_upload (resolved r) (resolved d) s
        ≡ (rejected "The server did not return the uploaded image", record s { tree_data = d })
  unfolding handle_image_upload
  handle_image_upload-missing missing = rw missing

  pub handle_image_upload-found :
      (f : FileInfo)
      → returned_file r d ≡ some f
      → handle_image_upload (resolved r) (resolved d) s ≡ (
        resolved f,
        record s { tree_data = d; file_contents = insert f.id f.download_url s.file_contents },
      )
  unfolding handle_image_upload
  handle_image_upload-found f found = rw found
