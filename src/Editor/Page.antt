-- ===== src/Editor/Page.antt =====
-- Which parts frontend/src/views/EditorView.jsx shows.
use sync_tex.Base.{String, Option, none, some, ◌==◌, Bool, true, false, if◌then◌else◌, is_some}
use sync_tex.Tabs.{Tabs}
use sync_tex.Editor.Shown.{active_chat_tab}
use sync_tex.Editor.Layout.{Numbers, Layout}

-- What is shown in the side panel; a panel that is not known leaves it empty.
pub data Side : Type 0 where
  files_panel collaborators_panel assistant_panel no_such_panel : Side

-- What is shown in the main column.
pub data MainColumn : Type 0 where
  keys_panel tabs_with_chat tabs_with_file : MainColumn
  not_registered : String → MainColumn

pub data Page : Type 0 where
  loading_page : Page
  error_page : String → Page
  panels : Option Side → MainColumn → Page

abbrev side_of : String → Side
side_of panel =
    if panel == "files"
    then files_panel
    else if panel == "collaborators"
    then collaborators_panel
    else if panel == "ai"
    then assistant_panel
    else no_such_panel

abbrev tabs_with : Bool → MainColumn
tabs_with chat = if chat then tabs_with_chat else tabs_with_file

abbrev main_of : Option String → Bool → MainColumn
main_of none chat = tabs_with chat
main_of (some panel) chat =
    if panel == "llm"
    then keys_panel
    else if panel == ""
    then tabs_with chat
    else not_registered panel

abbrev panels_of : {N : Numbers} → Layout N → Tabs → Page
panels_of layout tabs =
    panels (if layout.sidebar_open then some (side_of layout.sidebar_panel) else none)
      (main_of layout.main_panel (is_some (active_chat_tab tabs)))

-- What the view returns.
unfoldable pub page : {N : Numbers} → Bool → Option String → Layout N → Tabs → Page
unfolding active_chat_tab
page true error layout tabs = loading_page
page false none layout tabs = panels_of layout tabs
page false (some message) layout tabs =
    if message == "" then panels_of layout tabs else error_page message
