-- ===== src/Dashboard/Tests.antt =====
-- What the dashboard shows and reads at concrete inputs.
use mathlib.Core.List.{Perm}
use sync_tex.Base.{
  ℕ, ◌≤◌, String, none, some, [], ◌∷◌, ◌++◌, true, false, ◌≡◌, refl, str, length, drop, keep, All,
}
use sync_tex.Clients.Projects.{Project}
use sync_tex.Dashboard.{
  Dashboard, all, recent, is_shown, comes_first, sorted_projects, recent_projects, format_time_ago,
  format_date,
}
use sync_tex.Dashboard.Recent.{created, recent_projects_lem}
use sync_tex.Dashboard.Modals.{extract_token_from_link, join_request}

path_link : extract_token_from_link (λ _. none) "https://x.org/join/ab_1" ≡ "ab_1"
unfolding extract_token_from_link
path_link = refl

query_link : join_request (λ _. none) " x.org/join?a=1&token=ab_1&b=2 " ≡ some "ab_1"
unfolding join_request
query_link = refl

raw_token : extract_token_from_link (λ _. none) "ab_1" ≡ "ab_1"
unfolding extract_token_from_link
raw_token = refl

hours : format_time_ago (λ _. "date") 10000000 (some 1000) ≡ "2h ago"
unfolding format_time_ago
hours = refl

later : format_time_ago (λ _. "date") 1000 (some 61001) ≡ "-2m ago"
unfolding format_time_ago
later = refl

weeks : format_date (λ _. "date") 1300000000 (some 1000) ≡ "2 weeks ago"
unfolding format_date
weeks = refl

abbrev made_at : String → ℕ → Project
made_at id time = record {
  id = id;
  name = id;
  owner_id = str "u1";
  created_at = some time;
  last_modified = none;
  collaborators = [];
  is_owner = true;
  is_template = false;
}

abbrev two_projects : Dashboard
two_projects = record {
  projects = made_at "old" 1000 ∷ made_at "new" 2000 ∷ [];
  loading = false;
  show_new_project_modal = false;
  show_import_modal = false;
  show_join_modal = false;
  filter = all;
  sort_by = recent;
  join_error = none;
}

newest_first :
    recent_projects (λ a b. false) (str "u1") two_projects
    ≡ made_at "new" 2000 ∷ made_at "old" 1000 ∷ []
unfolding recent_projects is_shown comes_first
newest_first = refl

recent_projects_lem_example :
    (length (recent_projects (λ a b. false) (str "u1") two_projects) ≤ 6)
    × Perm
        (recent_projects (λ a b. false) (str "u1") two_projects
          ++ drop 6 (sorted_projects (λ a b. false) (str "u1") two_projects))
        (keep (is_shown two_projects.filter (str "u1")) two_projects.projects)
    × All
        (λ p.
          All
            (λ q. created q ≤ created p)
            (drop 6 (sorted_projects (λ a b. false) (str "u1") two_projects)))
        (recent_projects (λ a b. false) (str "u1") two_projects)
unfolding is_shown
recent_projects_lem_example =
    recent_projects_lem (λ a b. false) (str "u1") two_projects refl (refl, (refl, tt))
