-- ===== src/Explorer/Paths/Entries.antt =====
-- The index of a tree, as the entries of its items.
use sync_tex.Base.{
  String, Option, none, some, List, [], ◌∷◌, ◌++◌, map, eq_refl, false, ◌≡◌, refl, ap, ◌∙◌, arith,
  lookup, insert, lookup-insert, has, Distinct, All,
}
use sync_tex.Tabs.{FileInfo}
use sync_tex.Tree.{Directory, Directories, directory, nil, cons}
use sync_tex.Explorer.{Node, Index}
use sync_tex.Explorer.Paths.{
  empty_index, folder_node, file_node, put, add_root, add_files, visit_directory, visit_all,
  index_tree,
}

abbrev pub Entry : Type 0
Entry = Node × Option String

abbrev pub file_entries : String → List FileInfo → List Entry
file_entries id [] = []
file_entries id (f ∷ fs) = (file_node f, some id) ∷ file_entries id fs

-- The items of a tree with their parents, in the order in which they are visited.
abbrev mutual
  pub entries_in : Directory → Option String → List Entry
  entries_in (directory id name children files) parent =
      (folder_node id name, parent) ∷ (entries_all children (some id) ++ file_entries id files)

  pub entries_all : Directories → Option String → List Entry
  entries_all nil parent = []
  entries_all (cons d ds) parent = entries_in d parent ++ entries_all ds parent

abbrev pub entry_ids : List Entry → List String
entry_ids es = map (λ (e : Entry). e.0.id) es

abbrev put_all : List Entry → Index → Index
put_all [] ix = ix
put_all ((n, p) ∷ es) ix = put_all es (put n p ix)

put_all-append :
    (xs ys : List Entry) (ix : Index) → put_all (xs ++ ys) ix ≡ put_all ys (put_all xs ix)
put_all-append [] ys ix = refl
put_all-append ((n, p) ∷ xs) ys ix = put_all-append xs ys (put n p ix)

-- The same nodes and parents.
abbrev Same : Index → Index → Type 0
Same ix jx = (ix.nodes_by_id ≡ jx.nodes_by_id) × (ix.parent_by_id ≡ jx.parent_by_id)

put-Same :
    (n : Node) (p : Option String) (ix jx : Index) → Same ix jx → Same (put n p ix) (put n p jx)
put-Same n p ix jx (nodes, parents) = (ap (insert n.id n) nodes, ap (insert n.id p) parents)

add_root-Same :
    (id : String) (p : Option String) (ix jx : Index) → Same ix jx → Same (add_root id p ix) jx
add_root-Same id none ix jx h = h
add_root-Same id (some p) ix jx h = h

add_files-Same :
    (id : String) (fs : List FileInfo) (ix jx : Index)
    → Same ix jx
    → Same (add_files id fs ix) (put_all (file_entries id fs) jx)
add_files-Same id [] ix jx h = h
add_files-Same id (f ∷ fs) ix jx h =
    add_files-Same id fs (put (file_node f) (some id) ix) (put (file_node f) (some id) jx)
      (put-Same (file_node f) (some id) ix jx h)

mutual
  unfolding visit_directory

  visit_directory-Same :
      (d : Directory) (p : Option String) (ix jx : Index)
      → Same ix jx
      → Same (visit_directory d p ix) (put_all (entries_in d p) jx)
  visit_directory-Same (directory id name children files) p ix jx h =
      rw
        (put_all-append (entries_all children (some id)) (file_entries id files)
          (put (folder_node id name) p jx))
        (add_files-Same id files
          (visit_all children (some id) (add_root id p (put (folder_node id name) p ix)))
          (put_all (entries_all children (some id)) (put (folder_node id name) p jx))
          (visit_all-Same children (some id) (add_root id p (put (folder_node id name) p ix))
            (put (folder_node id name) p jx)
            (add_root-Same id p (put (folder_node id name) p ix) (put (folder_node id name) p jx)
              (put-Same (folder_node id name) p ix jx h))))

  visit_all-Same :
      (ds : Directories) (p : Option String) (ix jx : Index)
      → Same ix jx
      → Same (visit_all ds p ix) (put_all (entries_all ds p) jx)
  visit_all-Same nil p ix jx h = h
  visit_all-Same (cons d ds) p ix jx h =
      rw (put_all-append (entries_in d p) (entries_all ds p) jx) (
        visit_all-Same ds p (visit_directory d p ix) (put_all (entries_in d p) jx)
          (visit_directory-Same d p ix jx h))

-- The index has the entry.
abbrev pub Indexed : Index → Entry → Type 0
Indexed ix e =
    (lookup e.0.id ix.nodes_by_id ≡ some e.0) × (lookup e.0.id ix.parent_by_id ≡ some e.1)

Indexed-put_all :
    (k : String) (n : Node) (p : Option String) (es : List Entry) (ix : Index)
    → has k (entry_ids es) ≡ false
    → lookup k ix.nodes_by_id ≡ some n
    → lookup k ix.parent_by_id ≡ some p
    → (lookup k (put_all es ix).nodes_by_id ≡ some n)
      × (lookup k (put_all es ix).parent_by_id ≡ some p)
unfolding has
Indexed-put_all k n p [] ix absent node parent = (node, parent)
Indexed-put_all k n p ((m, q) ∷ es) ix absent node parent =
    Indexed-put_all k n p es (put m q ix) (ground (arith, absent))
      (ground (arith, absent, node, lookup-insert m.id k m ix.nodes_by_id))
      (ground (arith, absent, parent, lookup-insert m.id k q ix.parent_by_id))

put_all-Indexed :
    (es : List Entry) (ix : Index) → Distinct (entry_ids es) → All (Indexed (put_all es ix)) es
put_all-Indexed [] ix h = tt
put_all-Indexed ((n, p) ∷ es) ix (new, h) = (
  Indexed-put_all n.id n p es (put n p ix) new (rw (lookup-insert, eq_refl n.id) refl)
      (rw (lookup-insert, eq_refl n.id) refl),
  put_all-Indexed es (put n p ix) h,
)

All-Indexed :
    (ix jx : Index) (es : List Entry) → Same ix jx → All (Indexed jx) es → All (Indexed ix) es
All-Indexed ix jx [] same h = tt
All-Indexed ix jx (e ∷ es) same ((node, parent), h) = (
  (ap (lookup e.0.id) same.0 ∙ node, ap (lookup e.0.id) same.1 ∙ parent),
  All-Indexed ix jx es same h,
)

-- In the index of a tree with distinct ids, every item has its node and its parent.
pub index_tree-Indexed :
    (tree : Directories)
    → Distinct (entry_ids (entries_all tree none))
    → All (Indexed (index_tree tree)) (entries_all tree none)
unfolding index_tree
index_tree-Indexed tree h =
    All-Indexed (index_tree tree) (put_all (entries_all tree none) empty_index)
      (entries_all tree none) (visit_all-Same tree none empty_index empty_index (refl, refl))
      (put_all-Indexed (entries_all tree none) empty_index h)
