-- ===== src/Explorer/Paths.antt =====
-- The index of the project tree, and the walks up from an item: `indexTree`, `breadcrumbs` and
-- `relativePath` of frontend/src/components/Editor/FileTree.jsx.
pub mod Entries
pub mod Walks
mod Tests
use sync_tex.Base.{
  ℕ, zero, suc, String, Option, none, some, List, [], ◌∷◌, ◌++◌, map, ◌==◌, Bool, true, false,
  if◌then◌else◌, Dict, lookup, insert,
}
use sync_tex.Tabs.{FileInfo}
use sync_tex.Tree.{Directory, Directories, directory, nil, cons}
use sync_tex.Explorer.{Explorer, Node, NodeType, file, folder, Index}
use Prim.Native.String

abbrev pub empty_index : Index
empty_index = record { nodes_by_id = []; parent_by_id = []; children_by_directory = []; roots = [] }

abbrev pub folder_node : String → String → Node
folder_node id name = record { id = id; type = folder; label = name }

abbrev pub file_node : FileInfo → Node
file_node f = record { id = f.id; type = file; label = f.filename }

abbrev ids_of : Directories → List String
ids_of nil = []
ids_of (cons (directory id name children files) ds) = id ∷ ids_of ds

-- The two `set` calls for an item.
abbrev pub put : Node → Option String → Index → Index
put node parent ix = record ix {
  nodes_by_id = insert node.id node ix.nodes_by_id;
  parent_by_id = insert node.id parent ix.parent_by_id;
}

abbrev pub add_root : String → Option String → Index → Index
add_root id none ix = record ix { roots = ix.roots ++ id ∷ [] }
add_root id (some parent) ix = ix

abbrev pub add_files : String → List FileInfo → Index → Index
add_files id [] ix = ix
add_files id (f ∷ fs) ix = add_files id fs (put (file_node f) (some id) ix)

abbrev pub set_children : String → List String → Index → Index
set_children id ids ix = record ix {
  children_by_directory = insert id ids ix.children_by_directory;
}

-- The loop over the directories of a parent, or over the roots.
unfoldable mutual
  pub visit_directory : Directory → Option String → Index → Index
  visit_directory (directory id name children files) parent ix =
      set_children id (ids_of children ++ map (λ f. f.id) files) (
        add_files id files
          (visit_all children (some id) (add_root id parent (put (folder_node id name) parent ix))))

  pub visit_all : Directories → Option String → Index → Index
  visit_all nil parent ix = ix
  visit_all (cons d ds) parent ix = visit_all ds parent (visit_directory d parent ix)

unfoldable pub index_tree : Directories → Index
unfolding visit_all
index_tree tree = visit_all tree none empty_index

abbrev pub parent_of : Option (Option String) → Option String
parent_of none = none
parent_of (some parent) = parent

-- The nodes from the topmost one down to the given one, which the loops of `breadcrumbs` and
-- `relativePath` collect in at most so many rounds.
unfoldable pub climb : ℕ → Index → Option String → List Node
climb zero ix id = []
climb (suc n) ix none = []
climb (suc n) ix (some id) =
    let above = climb n ix (parent_of (lookup id ix.parent_by_id)) in
    if id == ""
    then []
    else elim (lookup id ix.nodes_by_id) [ none ↦ [] | some node ↦ above ++ node ∷ [] ]

-- `parts.join('/')`
unfoldable pub join_labels : List Node → String
join_labels [] = ""
join_labels (n ∷ []) = n.label
join_labels (n ∷ m ∷ ns) = String.◌++◌ n.label (String.◌++◌ "/" (join_labels (m ∷ ns)))

-- With as many rounds as the path has nodes, at least.
unfoldable pub relative_path : ℕ → Index → String → String
unfolding climb join_labels
relative_path rounds ix id = join_labels (climb rounds ix (some id))

unfoldable pub breadcrumbs : ℕ → Index → Explorer → List Node
unfolding climb
breadcrumbs rounds ix s = climb rounds ix s.current_directory_id
