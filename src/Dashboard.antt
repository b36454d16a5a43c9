-- ===== src/Dashboard.antt =====
-- frontend/src/views/DashboardView.jsx and what frontend/src/components/Dashboard shows of a project.
-- `localeCompare` and the formatting of dates are parameters; times are in milliseconds, none where a
-- date is missing.
pub mod Modals
pub mod Shown
pub mod Recent
mod Tests
use Prim.Native.String
use sync_tex.Base.{
  ℕ, zero, suc, ◌+◌, ◌-◌, ◌*◌, ◌/◌, String, Option, none, some, List, [], ◌∷◌, ◌==◌, Bool, true,
  false, not, if◌then◌else◌, keep, ltb, leb, eqb, num, to_text, Value, undefined, str, template,
  Dict, lookup, Answer, resolved, rejected,
}
use sync_tex.Clients.Projects.{Project}
use sync_tex.Panel.People.{sort_by}

pub data Filter : Type 0 where
  all my shared templates : Filter

pub data SortBy : Type 0 where
  recent name modified : SortBy

pub record Dashboard : Type 0 where
  pub projects : List Project
  pub loading : Bool
  pub show_new_project_modal : Bool
  pub show_import_modal : Bool
  pub show_join_modal : Bool
  pub filter : Filter
  pub sort_by : SortBy
  pub join_error : Option String

unfoldable pub load_started : Dashboard → Dashboard
load_started s = record s { loading = true }

-- `loadProjects` from its answer on.
unfoldable pub load_answered : Answer (List Project) → Dashboard → Dashboard
load_answered (resolved projects) s = record s { projects = projects; loading = false }
load_answered (rejected message) s = record s { loading = false }

-- The effect that reads `join_error`.
unfoldable pub note_join_error : Option String → Dashboard → Dashboard
note_join_error none s = s
note_join_error (some err) s = if err == "" then s else record s {
  join_error = some (
      if err == "missing_token"
      then "Invalid invite link."
      else "Invite link is invalid or has expired.");
}

unfoldable pub handle_project_created : Dashboard → Dashboard
handle_project_created s = record s { show_new_project_modal = false; loading = true }

unfoldable pub handle_project_imported : Dashboard → Dashboard
handle_project_imported s = record s { show_import_modal = false; loading = true }

-- The test of `filteredProjects`; the second argument is the user's id, undefined without a user.
unfoldable pub is_shown : Filter → Value → Project → Bool
unfolding to_text
is_shown all user_id p = true
is_shown my user_id p = to_text p.owner_id == to_text user_id
is_shown shared user_id p = not (to_text p.owner_id == to_text user_id)
is_shown templates user_id p = p.is_template

-- `new Date(b.created_at) - new Date(a.created_at) < 0`; a missing date makes it NaN, taken for 0.
abbrev pub newer : Option ℕ → Option ℕ → Bool
newer (some a) (some b) = ltb b a
newer _ _ = false

-- The comparison of `sortedProjects`.
unfoldable pub comes_first : (String → String → Bool) → SortBy → Project → Project → Bool
comes_first locale_before recent a b = newer a.created_at b.created_at
comes_first locale_before name a b = locale_before a.name b.name
comes_first locale_before modified a b = newer a.created_at b.created_at

-- `sortedProjects`; where dates are missing the order of a browser may be another.
unfoldable pub sorted_projects : (String → String → Bool) → Value → Dashboard → List Project
unfolding sort_by
sorted_projects locale_before user_id s =
    sort_by (comes_first locale_before s.sort_by) (keep (is_shown s.filter user_id) s.projects)

abbrev pub take {ℓ} : {A : Type ℓ} → ℕ → List A → List A
take zero xs = []
take (suc n) [] = []
take (suc n) (x ∷ xs) = x ∷ take n xs

-- `recentProjects`
unfoldable pub recent_projects : (String → String → Bool) → Value → Dashboard → List Project
unfolding sorted_projects
recent_projects locale_before user_id s = take 6 (sorted_projects locale_before user_id s)

pub record Badge : Type 0 where
  pub label : String
  pub class_name : String

abbrev badge : String → String → Badge
badge label class_name = record { label = label; class_name = class_name }

abbrev role_config : Dict Badge
role_config =
    ("owner", badge "Owner" "role-badge--owner")
    ∷ ("editor", badge "Editor" "role-badge--editor")
    ∷ ("reader", badge "Reader" "role-badge--reader")
    ∷ []

-- `getRoleBadge` of the card and of the list item, but for names that every object has.
unfoldable pub get_role_badge : String → Badge
unfolding lookup
get_role_badge role = elim (lookup role role_config) [ none ↦ badge role "" | some found ↦ found ]

abbrev count_text : ℕ → String → String
count_text n unit = template (to_text (num n) ∷ unit ∷ [])

-- `Math.floor` of a time below 0, as the text of its number.
abbrev before_text : ℕ → ℕ → String → String
before_text ahead size unit =
    template ("-" ∷ to_text (num ((ahead + (size - 1)) / size)) ∷ unit ∷ [])

-- `formatTimeAgo` of the card; `locale_date` is `toLocaleDateString`.
unfoldable pub format_time_ago : (Option ℕ → String) → ℕ → Option ℕ → String
unfolding to_text
format_time_ago locale_date now none = locale_date none
format_time_ago locale_date now (some date) =
    let diff = now - date in
    if ltb now date
    then before_text (date - now) 60000 "m ago"
    else if ltb (diff / 60000) 60
    then count_text (diff / 60000) "m ago"
    else if ltb (diff / 3600000) 24
    then count_text (diff / 3600000) "h ago"
    else if eqb (diff / 86400000) 1
    then "Yesterday"
    else if ltb (diff / 86400000) 7
    then count_text (diff / 86400000) "d ago"
    else locale_date (some date)

-- `formatDate` of the list item.
unfoldable pub format_date : (Option ℕ → String) → ℕ → Option ℕ → String
unfolding to_text
format_date locale_date now none = locale_date none
format_date locale_date now (some date) =
    let days = (now - date) / 86400000 in
    if ltb now date
    then before_text (date - now) 86400000 " days ago"
    else if eqb days 0
    then "Today"
    else if eqb days 1
    then "Yesterday"
    else if ltb days 7
    then count_text days " days ago"
    else if ltb days 30
    then count_text (days / 7) " weeks ago"
    else locale_date (some date)
