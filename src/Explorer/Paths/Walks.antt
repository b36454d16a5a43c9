-- ===== src/Explorer/Paths/Walks.antt =====
-- The walk up from an item of a tree gives the item's path.
use sync_tex.Base.{
  ◌+◌, ℕ, zero, suc, ◌≤◌, String, Option, none, some, List, [], ◌∷◌, ◌++◌, ◌==◌, false, ◌≡◌, refl,
  arith, length, length-append, Distinct, All, All-append,
}
use sync_tex.Tabs.{FileInfo}
use sync_tex.Tree.{Directory, Directories, directory, nil, cons}
use sync_tex.Explorer.{Node, Index}
use sync_tex.Explorer.Paths.{folder_node, file_node, index_tree, climb}
use sync_tex.Explorer.Paths.Entries.{
  Entry, entries_in, entries_all, file_entries, entry_ids, Indexed, index_tree-Indexed,
}

-- An item with its path: the nodes from the root down to it.
abbrev pub Item : Type 0
Item = Node × List Node

abbrev pub file_paths : List Node → List FileInfo → List Item
file_paths above [] = []
file_paths above (f ∷ fs) = (file_node f, above ++ file_node f ∷ []) ∷ file_paths above fs

abbrev mutual
  pub paths_in : List Node → Directory → List Item
  paths_in above (directory id name children files) =
      (folder_node id name, above ++ folder_node id name ∷ [])
      ∷ (paths_all (above ++ folder_node id name ∷ []) children
          ++ file_paths (above ++ folder_node id name ∷ []) files)

  pub paths_all : List Node → Directories → List Item
  paths_all above nil = []
  paths_all above (cons d ds) = paths_in above d ++ paths_all above ds

-- The walk from the id gives the path, in any number of rounds that is not below its length.
abbrev pub Walk : Index → Option String → List Node → Type 0
Walk ix id path = (rounds : ℕ) → length path ≤ rounds → climb rounds ix id ≡ path

Walk-none : (ix : Index) → Walk ix none []
unfolding climb
Walk-none ix zero h = refl
Walk-none ix (suc m) h = refl

-- The entry can be walked to: it is in the index, and its id is not empty.
abbrev Known : Index → Entry → Type 0
Known ix e = Indexed ix e × ((e.0.id == "") ≡ false)

Walk-some :
    (ix : Index) (n : Node) (parent : Option String) (above : List Node)
    → Known ix (n, parent)
    → Walk ix parent above
    → Walk ix (some n.id) (above ++ n ∷ [])
unfolding climb
Walk-some ix n parent above known walk zero h =
    absurd (omega (arith, length-append above (n ∷ []), h))
Walk-some ix n parent above ((node, up), given) walk (suc m) h =
    rw (node, up, given, walk m (omega (arith, length-append above (n ∷ []), h))) refl

All-append_inv : (P : Entry → Type 0) (xs ys : List Entry) → All P (xs ++ ys) → All P xs × All P ys
All-append_inv P [] ys h = (tt, h)
All-append_inv P (x ∷ xs) ys (h, hs) = let (a, b) = All-append_inv P xs ys hs in ((h, a), b)

module _ (ix : Index) where
  abbrev Walked : Item → Type 0
  Walked item = Walk ix (some item.0.id) item.1

  file_paths-Walked :
      (id : String) (above : List Node) (fs : List FileInfo)
      → All (Known ix) (file_entries id fs)
      → Walk ix (some id) above
      → All Walked (file_paths above fs)
  file_paths-Walked id above [] h walk = tt
  file_paths-Walked id above (f ∷ fs) (h, hs) walk =
      (Walk-some ix (file_node f) (some id) above h walk, file_paths-Walked id above fs hs walk)

  mutual
    paths_in-Walked :
        (d : Directory) (parent : Option String) (above : List Node)
        → All (Known ix) (entries_in d parent)
        → Walk ix parent above
        → All Walked (paths_in above d)
    paths_in-Walked (directory id name children files) parent above (h, hs) walk =
        let here = above ++ folder_node id name ∷ [] in
        let at = Walk-some ix (folder_node id name) parent above h walk in
        let (below, own) =
          All-append_inv (Known ix) (entries_all children (some id)) (file_entries id files) hs in
        (
          at,
          All-append Walked (paths_all here children) (file_paths here files)
              (paths_all-Walked children (some id) here below at)
              (file_paths-Walked id here files own at),
        )

    paths_all-Walked :
        (ds : Directories) (parent : Option String) (above : List Node)
        → All (Known ix) (entries_all ds parent)
        → Walk ix parent above
        → All Walked (paths_all above ds)
    paths_all-Walked nil parent above h walk = tt
    paths_all-Walked (cons d ds) parent above h walk =
        let (first, others) =
          All-append_inv (Known ix) (entries_in d parent) (entries_all ds parent) h in
        All-append Walked (paths_in above d) (paths_all above ds)
          (paths_in-Walked d parent above first walk) (paths_all-Walked ds parent above others walk)

All-Known :
    (ix : Index) (es : List Entry)
    → All (Indexed ix) es
    → All (λ e. (e.0.id == "") ≡ false) es
    → All (Known ix) es
All-Known ix [] h k = tt
All-Known ix (e ∷ es) (h, hs) (k, ks) = ((h, k), All-Known ix es hs ks)

enough_rounds :
    (ix : Index) (extra : ℕ) (items : List Item)
    → All (Walked ix) items
    → All (λ (item : Item). climb (length item.1 + extra) ix (some item.0.id) ≡ item.1) items
enough_rounds ix extra [] h = tt
enough_rounds ix extra ((n, path) ∷ items) (walk, h) =
    (walk (length path + extra) (omega arith), enough_rounds ix extra items h)

-- In the index of a tree whose ids are distinct and not empty, the loop that walks up from an item ends
-- after as many rounds as the item's path has nodes, and gives that path.
pub climb-index_tree :
    (tree : Directories) (extra : ℕ)
    → Distinct (entry_ids (entries_all tree none))
    → All (λ (e : Entry). (e.0.id == "") ≡ false) (entries_all tree none)
    → All
        (λ (item : Item). climb (length item.1 + extra) (index_tree tree) (some item.0.id) ≡ item.1)
        (paths_all [] tree)
climb-index_tree tree extra distinct given =
    enough_rounds (index_tree tree) extra (paths_all [] tree) (
      paths_all-Walked (index_tree tree) tree none []
        (All-Known (index_tree tree) (entries_all tree none) (index_tree-Indexed tree distinct)
          given)
        (Walk-none (index_tree tree)))
