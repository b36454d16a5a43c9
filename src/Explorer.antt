-- ===== src/Explorer.antt =====
-- The state of frontend/src/components/Editor/FileTree.jsx: the folder that is shown, the edit of a
-- name, and the keys of the list. The index of the tree is that of `indexTree`. `trim` and
-- `toLocaleLowerCase` of texts depend on Unicode tables and the locale, and are a parameter.
pub mod Edits
pub mod Keys
pub mod Paths
pub mod Dialogs
pub mod Recovery
pub mod Tools
pub mod Menu
pub mod Session
pub mod Viewer
pub mod Listing
pub mod Shown
pub mod Harmless
mod ViewerTests
mod Tests
use sync_tex.Base.{
  ℕ, ◌+◌, ◌-◌, String, Option, none, some, List, [], ◌∷◌, ◌==◌, Bool, true, false, not, ◌&&◌, ◌||◌,
  if◌then◌else◌, eqb, ltb, length, get_elem?, is_some, any, map_some, Dict, lookup, Answer,
  resolved, rejected,
}
use Prim.Native.String

pub record Locale : Type 0 where
  pub trim : String → String
  pub lower : String → String

pub data NodeType : Type 0 where
  file folder : NodeType

pub record Node : Type 0 where
  pub id : String
  pub type : NodeType
  pub label : String

pub record Index : Type 0 where
  pub nodes_by_id : Dict Node
  pub parent_by_id : Dict (Option String)
  pub children_by_directory : Dict (List String)
  pub roots : List String

pub data EditKind : Type 0 where
  create : EditKind
  rename : String → EditKind

pub record Edit : Type 0 where
  pub kind : EditKind
  pub type : NodeType
  pub value : String
  pub pending : Bool
  pub error : String
  pub retry : Bool

pub record Explorer : Type 0 where
  pub current_directory_id : Option String
  pub selected_node_id : Option String
  pub focused_node_id : Option String
  pub edit : Option Edit
  -- the context menu is open
  pub context_menu : Bool
  -- the text of the success message
  pub toast : Option String

unfoldable pub visible_ids : Index → Explorer → List String
visible_ids ix s = elim s.current_directory_id [
  | none ↦ []
  | some id ↦ elim (lookup id ix.children_by_directory) [ none ↦ [] | some ids ↦ ids ]
]

unfoldable pub visible_nodes : Index → Explorer → List Node
unfolding visible_ids
visible_nodes ix s = map_some (λ id. lookup id ix.nodes_by_id) (visible_ids ix s)

abbrev first_child : Option (List String) → Option String
first_child none = none
first_child (some []) = none
first_child (some (id ∷ ids)) = some id

unfoldable pub open_directory : Index → String → Explorer → Explorer
open_directory ix id s = record s {
  current_directory_id = some id;
  selected_node_id = first_child (lookup id ix.children_by_directory);
  focused_node_id = first_child (lookup id ix.children_by_directory);
  edit = none;
  context_menu = false;
}

-- `edit?.pending`
abbrev pub is_pending : Option Edit → Bool
is_pending none = false
is_pending (some e) = e.pending

abbrev is_directory : Option String → Bool
is_directory none = false
is_directory (some id) = not (id == "")

unfoldable pub begin_create : Bool → NodeType → Explorer → Explorer
begin_create read_only type s =
    if read_only || is_pending s.edit || not (is_directory s.current_directory_id)
    then s
    else record s {
      context_menu = false;
      edit = some (record {
        kind = create;
        type = type;
        value = "";
        pending = false;
        error = "";
        retry = false;
      });
    }

unfoldable pub begin_rename : Bool → Node → Explorer → Explorer
begin_rename read_only node s = if read_only || is_pending s.edit then s else record s {
  context_menu = false;
  selected_node_id = some node.id;
  focused_node_id = some node.id;
  edit = some (record {
    kind = rename node.id;
    type = node.type;
    value = node.label;
    pending = false;
    error = "";
    retry = false;
  });
}

-- `node.id !== edit?.nodeId`
abbrev pub is_other : EditKind → Node → Bool
is_other create node = true
is_other (rename id) node = not (node.id == id)

-- `onCreateFile`, `onCreateFolder` or `onRenameItem`
pub data Request : Type 0 where
  create_item : Option String → NodeType → String → Request
  rename_item : String → NodeType → String → Request

abbrev request : Edit → Option String → String → Request
request e directory name = elim e.kind [
  | create ↦ create_item directory e.type name
  | rename id ↦ rename_item id e.type name
]

-- `onChange` of the input, which is read-only while the edit is pending.
unfoldable pub edit_changed : String → Explorer → Explorer
edit_changed value s = elim s.edit [
  | none ↦ s
  | some e ↦ record s { edit = some (record e { value = value; error = ""; retry = false }) }
]

-- The Escape key and `onBlur` of the input.
unfoldable pub edit_cancelled : Explorer → Explorer
edit_cancelled s = if is_pending s.edit then s else record s { edit = none }

-- The effect on `readOnly`.
unfoldable pub read_only_changed : Bool → Explorer → Explorer
read_only_changed read_only s = if read_only then record s { edit = none } else s

abbrev pub message_from : String → String → String
message_from message fallback = if message == "" then fallback else message

abbrev saved_id : EditKind → Option String → Option String
saved_id create id = id
saved_id (rename node_id) id = some node_id

-- `commitEdit` from the answer on, for the edit of the call; it gives the id of the item, if any.
unfoldable pub end_commit : Edit → String → Answer (Option String) → Explorer → Explorer
end_commit e name (resolved id) s = record s {
  selected_node_id = saved_id e.kind id;
  focused_node_id = saved_id e.kind id;
  edit = none;
  toast = some (String.◌++◌ "Saved " name);
}
end_commit e name (rejected message) s = elim s.edit [
  | none ↦ s
  | some current ↦ record s {
    edit = some (record current {
      pending = false;
      error = message_from message (String.◌++◌ "Could not save " name);
      retry = true;
    });
  }
]

module _ (L : Locale) where
  abbrev taken : String → EditKind → Node → Bool
  taken name kind node = is_other kind node && (L.lower (L.trim node.label) == L.lower name)

  -- `validateName`
  unfoldable pub name_error : Index → EditKind → String → Explorer → String
  unfolding visible_nodes
  name_error ix kind value s =
      if L.trim value == ""
      then "A name is required"
      else if any (taken (L.trim value) kind) (visible_nodes ix s)
      then "That name already exists here"
      else ""

  abbrev commit : Index → Edit → String → Explorer → Option Request × Explorer
  commit ix e name s =
      let message = name_error ix e.kind name s in
      if not (message == "")
      then (none, record s { edit = some (record e { error = message; retry = false }) })
      else (
        some (request e s.current_directory_id name),
        record s {
          edit = some (record e { value = name; pending = true; error = ""; retry = false });
        },
      )

  -- `commitEdit` up to its request.
  unfoldable pub begin_commit : Index → Explorer → Option Request × Explorer
  unfolding name_error
  begin_commit ix s = elim s.edit [
    | none ↦ (none, s)
    | some e ↦ if e.pending then (none, s) else commit ix e (L.trim e.value) s
  ]

pub data Key : Type 0 where
  arrow_down arrow_up home end_key : Key

-- `Math.max(0, ids.indexOf(id))`
abbrev index_from : ℕ → Option String → List String → ℕ
index_from i none ids = 0
index_from i (some id) [] = 0
index_from i (some id) (x ∷ ids) =
    let rest = index_from (i + 1) (some id) ids in if x == id then i else rest

unfoldable pub next_index : Key → ℕ → ℕ → ℕ
next_index arrow_down count current =
    if ltb (count - 1) (current + 1) then count - 1 else current + 1
next_index arrow_up count current = current - 1
next_index home count current = 0
next_index end_key count current = count - 1

abbrev focus_on : Option String → Explorer → Explorer
focus_on id s = record s { focused_node_id = id; selected_node_id = id }

-- `handleListKeyDown` for the keys that move the focus.
unfoldable pub handle_list_key_down : Index → Key → Explorer → Explorer
unfolding visible_ids next_index
handle_list_key_down ix key s =
    if is_some s.edit || s.context_menu || eqb (length (visible_ids ix s)) 0
    then s
    else focus_on
        (get_elem? (visible_ids ix s) (
          next_index key (length (visible_ids ix s))
            (index_from 0 s.focused_node_id (visible_ids ix s))))
        s
