-- ===== src/Panel.antt =====
-- frontend/src/components/Editor/CollaboratorsPanel.jsx: the panel's state and its handlers. What a
-- request comes to is an argument, and so is what `window.confirm` answers; `projectId` only enters the
-- requests.
pub mod People
pub mod Shown
pub mod Titles
pub mod Rows
mod Tests
use sync_tex.Base.{
  ℕ, String, Option, none, some, List, [], ◌∷◌, ◌==◌, Bool, true, false, not, keep, if◌then◌else◌,
  Answer, resolved, rejected, Value,
}
use sync_tex.Panel.People.{Person}

pub record Link : Type 0 where
  pub invite_id : String
  pub link : String
  pub role : String
  pub created_at : Value
  pub joined_count : Option ℕ

pub data PanelTab : Type 0 where
  share members : PanelTab

pub record Panel : Type 0 where
  pub active_tab : PanelTab
  pub links : List Link
  pub collaborators : List Person
  pub loading : Bool
  pub error : Option String
  pub selected_access_level : String
  pub copied_link_id : Option String

-- What the request for the active tab answers. A list that is missing from an object is none.
pub data Loaded : Type 0 where
  links_data : Answer (Option (List Link)) → Loaded
  members_data : Answer (Option (List Person)) → Loaded

abbrev or_empty {ℓ} : {A : Type ℓ} → Option (List A) → List A
or_empty none = []
or_empty (some xs) = xs

-- `setLoading(true); setError(null)` of `loadData`
unfoldable pub load_started : Panel → Panel
load_started s = record s { loading = true; error = none }

-- `loadData` from its answer on.
unfoldable pub load_answered : Loaded → Panel → Panel
load_answered (links_data (resolved links)) s = record s { links = or_empty links; loading = false }
load_answered (links_data (rejected message)) s = record s { error = some message; loading = false }
load_answered (members_data (resolved people)) s = record s {
  collaborators = or_empty people;
  loading = false;
}
load_answered (members_data (rejected message)) s = record s {
  error = some message;
  loading = false;
}

-- `setLoading(true)` of the other handlers
abbrev pub waiting : Panel → Panel
waiting s = record s { loading = true }

abbrev failed : String → Panel → Panel
failed message s = record s { error = some message; loading = false }

-- `handleGenerateLink`, the request awaited.
unfoldable pub handle_generate_link : Answer Link → Panel → Panel
handle_generate_link (resolved link) s = record s {
  links = link ∷ s.links;
  error = none;
  loading = false;
}
handle_generate_link (rejected message) s = failed message s

-- `handleCopyLink`, the clipboard awaited.
unfoldable pub handle_copy_link : Link → Answer (Unit {0}) → Panel → Panel
handle_copy_link item (resolved written) s = record s { copied_link_id = some item.invite_id }
handle_copy_link item (rejected message) s = s

-- The timer of `handleCopyLink`.
unfoldable pub copy_elapsed : Panel → Panel
copy_elapsed s = record s { copied_link_id = none }

abbrev revoked : String → Answer (Unit {0}) → Panel → Panel
revoked link_id (resolved success) s = record s {
  links = keep (λ l. not (l.invite_id == link_id)) s.links;
  error = none;
  loading = false;
}
revoked link_id (rejected message) s = failed message s

-- `handleRevokeLink`
unfoldable pub handle_revoke_link : Bool → String → Answer (Unit {0}) → Panel → Panel
handle_revoke_link confirmed link_id answer s = if confirmed then revoked link_id answer s else s

abbrev removed : (Person → Bool) → Answer (Unit {0}) → Panel → Panel
removed is_user (resolved success) s = record s {
  collaborators = keep (λ c. not (is_user c)) s.collaborators;
  error = none;
  loading = false;
}
removed is_user (rejected message) s = failed message s

-- `handleRemoveCollaborator`; the test is `c.user_id === userId`.
unfoldable pub handle_remove_collaborator :
    Bool → (Person → Bool) → Answer (Unit {0}) → Panel → Panel
handle_remove_collaborator confirmed is_user answer s =
    if confirmed then removed is_user answer s else s

-- `setActiveTab`; the effect on the tab then starts to load.
unfoldable pub tab_selected : PanelTab → Panel → Panel
tab_selected tab s = record s { active_tab = tab }

-- `setSelectedAccessLevel`
unfoldable pub level_selected : String → Panel → Panel
level_selected level s = record s { selected_access_level = level }
