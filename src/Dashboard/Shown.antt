-- ===== src/Dashboard/Shown.antt =====
-- What the dashboard shows: DashboardView.jsx of frontend/src/views, and Header.jsx, AllProjects.jsx and
-- RecentProjects.jsx of frontend/src/components/Dashboard. The card and the item of a project are
-- parameters here; what they say of it is modelled with the dashboard.
use sync_tex.Base.{
  String, Option, none, some, List, [], ◌∷◌, ◌==◌, Bool, true, false, not, if◌then◌else◌, template,
  Value,
}
use sync_tex.Markup.{Markup, text, element, handles, blank, ◌&◌, shown_if, each, button}
use sync_tex.Clients.Projects.{Project}
use sync_tex.Dashboard.{
  Dashboard, Filter, all, my, shared, templates, SortBy, sorted_projects, recent_projects,
}

pub data Call : Type 0 where
  new_project import join toggle_menu log_out dismiss_error : Call
  filter_by : Filter → Call
  sort_change : Call
  go_to open_project : String → Call

-- `handleNewProject`, `handleImport`, `handleJoin`
unfoldable pub handle_new_project : Dashboard → Dashboard
handle_new_project s = record s { show_new_project_modal = true }

unfoldable pub handle_import : Dashboard → Dashboard
handle_import s = record s { show_import_modal = true }

unfoldable pub handle_join : Dashboard → Dashboard
handle_join s = record s { show_join_modal = true }

-- `setFilter`, `setSortBy`, and what closes a form or the message.
unfoldable pub set_filter : Filter → Dashboard → Dashboard
set_filter filter s = record s { filter = filter }

unfoldable pub set_sort_by : SortBy → Dashboard → Dashboard
set_sort_by order s = record s { sort_by = order }

unfoldable pub close_new_project : Dashboard → Dashboard
close_new_project s = record s { show_new_project_modal = false }

unfoldable pub close_import : Dashboard → Dashboard
close_import s = record s { show_import_modal = false }

unfoldable pub close_join : Dashboard → Dashboard
close_join s = record s { show_join_modal = false }

unfoldable pub dismiss_join_error : Dashboard → Dashboard
dismiss_join_error s = record s { join_error = none }

-- A user of the header, as far as it shows one.
pub record Profile : Type 0 where
  pub name : Option String
  pub email : Option String

abbrev text_of : Option String → String
text_of none = ""
text_of (some s) = s

abbrev or_text : Option String → String → String
or_text none other = other
or_text (some s) other = if s == "" then other else s

-- `getInitials`; `initials` is what a name that is not empty gives.
unfoldable pub get_initials : (String → String) → Option String → String
get_initials initials none = "?"
get_initials initials (some s) = if s == "" then "?" else initials s

abbrev profile_menu : Profile → Markup Call
profile_menu p = element "div" "profile-dropdown" (
    element "div" "profile-dropdown-item profile-info" (
      element "strong" "" (text (text_of p.name))
      & element "span" "profile-email" (text (text_of p.email)))
    & button "profile-dropdown-item" false (go_to "/settings") "Settings"
    & button "profile-dropdown-item" false (go_to "/account") "Account"
    & button "profile-dropdown-item" false log_out "Sign Out")

-- `Header`, with the user that is signed in, if any, and whether the menu is open.
unfoldable pub header : (String → String) → Option Profile → Bool → Markup Call
unfolding get_initials
header initials none menu = element "header" "dashboard-header" (
    element "div" "header-logo" (element "h1" "" (text "SyncTeX"))
    & element "div" "header-actions" (button "btn btn-secondary" false (go_to "/login") "Log In"))
header initials (some p) menu = element "header" "dashboard-header" (
    element "div" "header-actions" (
      button "btn btn-primary" false new_project " New Project"
      & button "btn btn-secondary" false import "Import")
    & element "div" "header-profile" (
        handles (toggle_menu ∷ []) (
          element "button" "profile-button" (
            element "span" "profile-avatar" (text (get_initials initials p.name))
            & element "span" "profile-name" (text (or_text p.name (or_text p.email "User")))
            & element "span" "icon-dropdown" (text "▾")))
        & shown_if menu (profile_menu p)))

module _ (card item : Project → Markup Call) where
  abbrev recent_section : Markup Call → Markup Call
  recent_section v =
      element "section" "recent-projects"
        (element "h2" "section-title" (text "Recent Projects") & v)

  abbrev skeletons : List String → Markup Call
  skeletons ids = each ids (λ i. element "div" "project-card-skeleton" blank)

  abbrev cards : List Project → Markup Call
  cards [] =
      element "div" "empty-state"
        (element "p" "" (text "No projects yet. Create your first LaTeX project!"))
  cards (p ∷ ps) = element "div" "projects-grid" (each (p ∷ ps) card)

  -- `RecentProjects`
  unfoldable pub recent_list : List Project → Bool → Markup Call
  recent_list projects loading = recent_section (
      if loading
      then element "div" "projects-grid" (skeletons ("1" ∷ "2" ∷ "3" ∷ "4" ∷ "5" ∷ "6" ∷ []))
      else cards projects)

  abbrev filters : List (Filter × String)
  filters =
      (all, "All Projects")
      ∷ (my, "My Projects")
      ∷ (shared, "Shared with Me")
      ∷ (templates, "Templates")
      ∷ []

  abbrev same_filter : Filter → Filter → Bool
  same_filter all all = true
  same_filter my my = true
  same_filter shared shared = true
  same_filter templates templates = true
  same_filter _ _ = false

  abbrev filter_tab : Filter → Filter × String → Markup Call
  filter_tab current (filter, label) =
      button (template ("filter-tab " ∷ (if same_filter current filter then "active" else "") ∷ []))
        false (filter_by filter) label

  abbrev sort_options : List String
  sort_options = "Recent" ∷ "Name" ∷ "Modified" ∷ []

  abbrev project_items : List Project → Markup Call
  project_items [] = element "div" "empty-state" (element "p" "" (text "No projects found"))
  project_items (p ∷ ps) = element "ul" "project-items" (each (p ∷ ps) item)

  -- `AllProjects`
  unfoldable pub all_projects : List Project → Bool → Filter → Markup Call
  all_projects projects loading filter = element "section" "all-projects" (
      element "div" "all-projects-header" (
        element "div" "filter-tabs" (each filters (filter_tab filter))
        & element "div" "sort-dropdown" (
            text "Sorted by:"
            & handles (sort_change ∷ []) (
                element "select" "sort-select"
                  (each sort_options (λ o. element "option" "" (text o))))))
      & element "div" "projects-list" (
          if loading
          then element "div" "loading-state" (text "Loading projects...")
          else project_items projects))

  abbrev error_toast : Option String → Markup Call
  error_toast none = blank
  error_toast (some e) = shown_if (not (e == "")) (
      handles (dismiss_error ∷ [])
        (element "div" "join-error-toast" (text (template ("⚠\u{fe0f} " ∷ e ∷ [])))))

  -- `DashboardView` but for the forms that it opens.
  unfoldable pub dashboard_view :
      (String → String)
      → (String → String → Bool)
      → Value
      → Option Profile
      → Bool
      → Dashboard
      → Markup Call
  unfolding header recent_list all_projects
  dashboard_view initials locale_before user_id profile menu s = element "div" "dashboard-view" (
      error_toast s.join_error
      & header initials profile menu
      & element "div" "dashboard-content" (
          recent_list (recent_projects locale_before user_id s) s.loading
          & all_projects (sorted_projects locale_before user_id s) s.loading s.filter))
