-- ===== src/Tree.antt =====
-- The project tree that the project service sends, and `findFile` of
-- frontend/src/hooks/useFileManager.js. An absent `children` or `files` is an empty list.
use sync_tex.Base.{
  String, Option, none, some, List, [], ◌∷◌, ◌++◌, ◌==◌, ◌≡◌, refl, find, or_else, arith,
}
use sync_tex.Tabs.{FileInfo}

mutual
  pub data Directory : Type 0 where
    directory : String → String → Directories → List FileInfo → Directory

  pub data Directories : Type 0 where
    nil : Directories
    cons : Directory → Directories → Directories

-- The loop of `findFile` is over the list of directories; an undefined id is found nowhere.
unfoldable mutual
  pub find_in : String → Directory → Option FileInfo
  find_in k (directory id name children files) =
      or_else (find (λ f. f.id == k) files) (find_file k children)

  pub find_file : String → Directories → Option FileInfo
  find_file k nil = none
  find_file k (cons d ds) = or_else (find_in k d) (find_file k ds)

unfoldable pub find_file? : Option String → Directories → Option FileInfo
find_file? none tree = none
find_file? (some k) tree = find_file k tree

-- Every file of the tree: a directory's own before those below it.
mutual
  pub files_in : Directory → List FileInfo
  files_in (directory id name children files) = files ++ all_files children

  pub all_files : Directories → List FileInfo
  all_files nil = []
  all_files (cons d ds) = files_in d ++ all_files ds

find-append :
    (k : String) (xs ys : List FileInfo)
    → find (λ f. f.id == k) (xs ++ ys)
      ≡ or_else (find (λ f. f.id == k) xs) (find (λ f. f.id == k) ys)
find-append k [] ys = refl
find-append k (x ∷ xs) ys = ground (arith, find-append k xs ys)

mutual
  unfolding find_in files_in

  find_in-eq-find : (k : String) (d : Directory) → find_in k d ≡ find (λ f. f.id == k) (files_in d)
  find_in-eq-find k (directory id name children files) =
      rw (find-append k files (all_files children), find_file-eq k children)

  find_file-eq :
      (k : String) (ds : Directories) → find_file k ds ≡ find (λ f. f.id == k) (all_files ds)
  find_file-eq k nil = refl
  find_file-eq k (cons d ds) =
      rw (find-append k (files_in d) (all_files ds), find_in-eq-find k d, find_file-eq k ds)

-- The search through the tree finds the first file with the id, in the order that lists a
-- directory's own files before those of its children, and fails only where no file has it.
pub find_file-eq-find :
    (k : String) (tree : Directories) → find_file k tree ≡ find (λ f. f.id == k) (all_files tree)
find_file-eq-find k tree = find_file-eq k tree
