-- ===== src/Editor/Pane.antt =====
-- What EditorPane.jsx and RightSidebar.jsx of frontend/src/components/Editor show of the active file.
-- The editor itself is Monaco's; its options but `readOnly` do not change.
use sync_tex.Base.{
  ℕ, ◌+◌, ◌*◌, ◌/◌, ◌%◌, String, Option, none, some, List, [], ◌∷◌, Bool, false, not, ◌&&◌, ◌||◌,
  if◌then◌else◌, num, to_text, units, length, template, eqb,
}
use sync_tex.Tabs.{Tabs, FileInfo}
use sync_tex.Files.{Files}
use sync_tex.Sessions.{Registry}
use sync_tex.Collab.Session.{Status, connected, connecting, disconnected}
use sync_tex.Editor.Shown.{
  active_file, is_active_image, is_active_collab, active_content, active_language,
  active_collab_status, is_active_file_dirty, image_url,
}

-- What Monaco is given; no value means that the text is that of the session.
pub record Surface : Type 0 where
  pub key : String
  pub language : String
  pub value : Option String
  pub theme : String
  pub read_only : Bool

pub data Main : Type 0 where
  nothing_open : Main
  image : Option String → String → Main
  editor : Surface → Main

pub record Pane : Type 0 where
  pub main : Main
  -- the class of the indicator and what it says
  pub indicator : Option (String × String)
  pub save_hint : Bool
  pub saving : Bool

abbrev status_name : Option Status → String
status_name none = "null"
status_name (some connected) = "connected"
status_name (some connecting) = "connecting"
status_name (some disconnected) = "disconnected"

abbrev status_text : Option Status → String
status_text none = ""
status_text (some connected) = "Live collaboration"
status_text (some connecting) = "Connecting…"
status_text (some disconnected) = "Disconnected — attempting to reconnect"

-- The properties that `EditorView` gives.
pub record Props : Type 0 where
  pub is_image : Bool
  pub is_collab : Bool
  pub content : String
  pub language : String
  pub is_dark : Bool
  pub status : Option Status
  pub is_dirty : Bool
  pub is_saving : Bool
  pub url : Option String
  pub read_only : Bool

-- `EditorPane`
unfoldable pub editor_pane : Option FileInfo → Props → Pane
editor_pane none p = record {
  main = nothing_open;
  indicator = none;
  save_hint = false;
  saving = false;
}
editor_pane (some f) p = record {
  main =
      if p.is_image
      then image p.url f.filename
      else editor (record {
        key = f.id;
        language = p.language;
        value = if p.is_collab then none else some p.content;
        theme = if p.is_dark then "app-dark" else "app-light";
        read_only = p.read_only;
      });
  indicator =
      if p.is_collab
      then some
          (template ("collab-indicator collab-" ∷ status_name p.status ∷ []), status_text p.status)
      else none;
  save_hint = p.is_dirty;
  saving = p.is_saving;
}

-- The pane as the view shows it.
unfoldable pub active_pane : (String → String) → Bool → Bool → Registry → Files → Tabs → Pane
unfolding editor_pane
active_pane lower is_dark read_only sessions files tabs = editor_pane (active_file tabs) (record {
  is_image = is_active_image lower tabs;
  is_collab = is_active_collab lower sessions tabs;
  content = active_content lower sessions files tabs;
  language = active_language tabs;
  is_dark = is_dark;
  status = active_collab_status sessions tabs;
  is_dirty = is_active_file_dirty lower sessions files tabs;
  is_saving = files.is_saving;
  url = image_url lower files tabs;
  read_only = read_only;
})

-- The panel RightSidebar: the tab Info, or the tab Share.
pub data SidebarTab : Type 0 where
  info collaborators : SidebarTab

-- A line of the tab Info, with its label, or the button that saves.
pub data Info : Type 0 where
  line : String → String → Info
  save : Bool → String → Info

-- `(n / 1024).toFixed(1)`: the nearest tenth, which is never half way, but for the greater where it is.
unfoldable pub kilobytes : ℕ → String
kilobytes n =
    let tenths = (n * 20 + 1024) / 2048 in
    template (to_text (num (tenths / 10)) ∷ "." ∷ to_text (num (tenths % 10)) ∷ [])

abbrev count_newlines : List ℕ → ℕ
count_newlines [] = 0
count_newlines (c ∷ cs) = if eqb c 10 then count_newlines cs + 1 else count_newlines cs

-- `content.split('\n').length`
unfoldable pub line_count : String → ℕ
unfolding units
line_count content = count_newlines (units content) + 1

abbrev size_lines : Bool → String → List Info → List Info
size_lines is_collab content rest =
    if is_collab
    then line "Mode" "Live collaboration" ∷ rest
    else line "Size" (template (kilobytes (length (units content)) ∷ " KB" ∷ []))
      ∷ line "Lines" (to_text (num (line_count content)))
      ∷ rest

-- The tab Info of `RightSidebar`, where the file has a type; `upper` is `toUpperCase`.
unfoldable pub file_info :
    (String → String) → String → String → Bool → Bool → Bool → String → List Info
unfolding kilobytes line_count
file_info upper filename file_type is_collab is_dirty is_saving content =
    line "File" (if is_dirty then template (filename ∷ "*" ∷ []) else filename)
    ∷ line "Type" (upper file_type)
    ∷ size_lines is_collab content (
        save ((not is_collab && not is_dirty) || is_saving)
          (if is_saving then "⏳ Saving…" else "💾 Save")
        ∷ [])
