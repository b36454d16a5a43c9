-- ===== src/Clients/Projects.antt =====
-- frontend/src/api/projects.js: the list of projects, and their creation and import.
use Prim.Native.String
use sync_tex.Base.{
  ℕ, ◌-◌, ◌*◌, String, Option, none, some, List, [], ◌∷◌, Bool, true, false, Answer, resolved,
  rejected, Task, ◌>>=◌, Value, undefined, num, to_text, Dict,
}
use sync_tex.Clients.{empty, json, bytes, Request, Reply, Net, fetch, own, request, json_or}

-- A project as the dashboard reads it; times are in milliseconds, none where the field is missing.
pub record Project : Type 0 where
  pub id : String
  pub name : String
  pub owner_id : Value
  pub created_at : Option ℕ
  pub last_modified : Option ℕ
  pub collaborators : List String
  pub is_owner : Bool
  pub is_template : Bool

unfoldable pub fetch_project {ℓ} : {A : Type ℓ} → String → Reply A → Task Net A
fetch_project project_id reply =
    request "GET" (own ("projects/" ∷ project_id ∷ [])) empty
      (λ r. String.◌++◌ "Failed to load project: " r.status_text) reply

abbrev mock : String → String → ℕ → List String → Bool → Bool → Project
mock id name modified collaborators is_owner is_template = record {
  id = id;
  name = name;
  owner_id = undefined;
  created_at = none;
  last_modified = some modified;
  collaborators = collaborators;
  is_owner = is_owner;
  is_template = is_template;
}

abbrev hour : ℕ
hour = 60 * 60 * 1000

-- `getMockProjects`, at a time.
unfoldable pub mock_projects : ℕ → List Project
mock_projects now =
    mock "1" "Thesis Draft" (now - 2 * hour) ("user1" ∷ "user2" ∷ []) true false
    ∷ mock "2" "Research Paper v2" (now - 24 * hour) [] true false
    ∷ mock "3" "Conference Paper" 1772323200000 ("user3" ∷ []) true false
    ∷ mock "4" "Homework Set 5" (now - 7 * 24 * hour) [] true false
    ∷ mock "5" "Lab Report Template" (now - 14 * 24 * hour) [] true true
    ∷ mock "6" "Shared Project from Prof" (now - 3 * 24 * hour) ("prof" ∷ "user4" ∷ []) false false
    ∷ []

abbrev pub or_mock : ℕ → Answer (List Project) × Net → Answer (List Project) × Net
or_mock now (resolved projects, s) = (resolved projects, s)
or_mock now (rejected message, s) = (resolved (mock_projects now), s)

unfoldable pub fetch_projects : ℕ → Reply (List Project) → Task Net (List Project)
unfolding mock_projects to_text
fetch_projects now reply s = or_mock now (
    request "GET" (own ("projects" ∷ [])) empty
      (λ r. String.◌++◌ "HTTP error! status: " (to_text (num r.status))) reply s)

unfoldable pub create_project {ℓ} : {A : Type ℓ} → Dict Value → Reply A → Task Net A
create_project project_data reply =
    request "POST" (own ("projects" ∷ [])) (json project_data) (λ r. "Failed to create project")
      reply

abbrev token_text : Option String → String
token_text none = "null"
token_text (some token) = token

abbrev pub import_request : Option String → Request
import_request token = record {
  method = "POST";
  url = own ("projects/import" ∷ []);
  content_type = none;
  authorization = some (String.◌++◌ "Bearer " (token_text token));
  body = bytes;
}

unfoldable pub import_project {ℓ} : {A : Type ℓ} → Reply A → Task Net A
unfolding fetch json_or
import_project reply s =
    (fetch (import_request s.token) reply >>= λ r. json_or "Failed to import project" r) s
