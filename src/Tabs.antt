-- ===== src/Tabs.antt =====
-- frontend/src/hooks/useTabManager.js: the open tabs of the editor and the active one; and the two
-- makers of tabs of frontend/src/views/EditorView.jsx. An update of React state is the function
-- that its queue applies; `null` and absent fields are `none`.
pub mod Ids
pub mod Invariant
pub mod Close
pub mod Refinement
pub mod Bar
mod Tests
use sync_tex.Base.{
  String, Option, none, some, or_else, List, [], ◌∷◌, ◌++◌, map, ◌==◌, not, if◌then◌else◌, find,
  keep, last?, is_some,
}
use Prim.Native.String
use mathlib.Core.Option

-- A file as the project service describes it.
pub record FileInfo : Type 0 where
  pub id : String
  pub filename : String
  pub file_type : Option String
  pub download_url : Option String

-- A chat as the assistant service describes it.
pub record Chat : Type 0 where
  pub id : String
  pub title : String

pub data Kind : Type 0 where
  file chat : Kind

pub record Tab : Type 0 where
  pub id : String
  pub kind : Kind
  pub resource_id : String
  pub title : String
  pub filename : Option String
  pub file : Option FileInfo
  pub chat : Option Chat

-- The fields that a patch gives.
pub record TabPatch : Type 0 where
  pub id : Option String
  pub kind : Option Kind
  pub resource_id : Option String
  pub title : Option String
  pub filename : Option String
  pub file : Option FileInfo
  pub chat : Option Chat

pub record Tabs : Type 0 where
  pub open_tabs : List Tab
  pub active_tab_id : Option String

abbrev pub no_tabs : Tabs
no_tabs = record { open_tabs = []; active_tab_id = none }

unfoldable pub file_tab_id : String → String
file_tab_id file_id = String.◌++◌ "file:" file_id

unfoldable pub chat_tab_id : String → String
chat_tab_id chat_id = String.◌++◌ "chat:" chat_id

unfoldable pub make_file_tab : FileInfo → Tab
make_file_tab f = record {
  id = file_tab_id f.id;
  kind = file;
  resource_id = f.id;
  title = f.filename;
  filename = some f.filename;
  file = some f;
  chat = none;
}

unfoldable pub make_chat_tab : Chat → Tab
make_chat_tab c = record {
  id = chat_tab_id c.id;
  kind = chat;
  resource_id = c.id;
  title = if c.title == "" then "Untitled chat" else c.title;
  filename = none;
  file = none;
  chat = some c;
}

-- `{ ...t, ...patch }`
unfoldable pub patch_tab : Tab → TabPatch → Tab
patch_tab t p = record {
  id = Option.get_or p.id t.id;
  kind = Option.get_or p.kind t.kind;
  resource_id = Option.get_or p.resource_id t.resource_id;
  title = Option.get_or p.title t.title;
  filename = or_else p.filename t.filename;
  file = or_else p.file t.file;
  chat = or_else p.chat t.chat;
}

unfoldable pub add_tab : Tab → Tabs → Tabs
add_tab new s = record {
  open_tabs =
      if is_some (find (λ t. t.id == new.id) s.open_tabs)
      then s.open_tabs
      else s.open_tabs ++ new ∷ [];
  active_tab_id = some new.id;
}

unfoldable pub update_tab : String → TabPatch → Tabs → Tabs
unfolding patch_tab
update_tab tab_id patch s = record s {
  open_tabs = map (λ t. if t.id == tab_id then patch_tab t patch else t) s.open_tabs;
}

unfoldable pub handle_tab_select : String → Tabs → Tabs
handle_tab_select tab_id s = record s { active_tab_id = some tab_id }

-- The new active tab, given the tabs that remain.
abbrev active_after_close : String → List Tab → Option String → Option String
active_after_close tab_id remaining none = none
active_after_close tab_id remaining (some current) =
    if current == tab_id then Option.map (λ (t : Tab). t.id) (last? remaining) else some current

-- The two state updates of `handleTabClose`.
unfoldable pub close_tab : String → Tabs → Tabs
close_tab tab_id s =
    let remaining = keep (λ t. not (t.id == tab_id)) s.open_tabs in
    record {
      open_tabs = remaining;
      active_tab_id = active_after_close tab_id remaining s.active_tab_id;
    }

-- `onTabClose` acts on the caller's state, before the tab goes.
unfoldable pub handle_tab_close {ℓ} :
    {S : Type ℓ} → Option (String → S → S) → String → S × Tabs → S × Tabs
unfolding close_tab
handle_tab_close none tab_id (caller, s) = (caller, close_tab tab_id s)
handle_tab_close (some on_tab_close) tab_id (caller, s) =
    (on_tab_close tab_id caller, close_tab tab_id s)

-- `activeTab`
unfoldable pub active_tab : Tabs → Option Tab
active_tab s = elim s.active_tab_id [
  | none ↦ none
  | some tab_id ↦ find (λ t. t.id == tab_id) s.open_tabs
]
