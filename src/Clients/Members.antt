-- ===== src/Clients/Members.antt =====
-- frontend/src/api/collaborators.js: invite links and the members of a project.
use Prim.Native.String
use sync_tex.Base.{String, Option, none, some, List, [], ◌∷◌, Task, str, or_value, to_text}
use sync_tex.Clients.{empty, json, Fault, Reply, Net, own, request, request_or_none}

abbrev project_url : String → List String → String
project_url project_id rest = own ("projects/" ∷ project_id ∷ rest)

unfoldable pub generate_collaborator_link {ℓ} :
    {A : Type ℓ} → String → String → Reply A → Task Net A
generate_collaborator_link project_id access_level reply =
    request "POST" (project_url project_id ("/invites" ∷ []))
      (json (("role", str access_level) ∷ []))
      (λ r. String.◌++◌ "Failed to generate link: " r.status_text) reply

unfoldable pub fetch_collaborator_links {ℓ} : {A : Type ℓ} → String → Reply A → Task Net A
fetch_collaborator_links project_id reply =
    request "GET" (project_url project_id ("/collaborators/links" ∷ [])) empty
      (λ r. String.◌++◌ "Failed to fetch links: " r.status_text) reply

unfoldable pub fetch_collaborators {ℓ} : {A : Type ℓ} → String → Reply A → Task Net A
fetch_collaborators project_id reply =
    request "GET" (project_url project_id ("/collaborators" ∷ [])) empty
      (λ r. String.◌++◌ "Failed to fetch collaborators: " r.status_text) reply

-- `nothing` is `null`.
unfoldable pub remove_collaborator {ℓ} : {A : Type ℓ} → String → String → A → Reply A → Task Net A
remove_collaborator project_id collaborator_id nothing reply =
    request_or_none "DELETE" (project_url project_id ("/collaborators/" ∷ collaborator_id ∷ []))
      empty (λ r. String.◌++◌ "Failed to remove collaborator: " r.status_text) nothing reply

unfoldable pub revoke_collaborator_link {ℓ} :
    {A : Type ℓ} → String → String → A → Reply A → Task Net A
revoke_collaborator_link project_id link_id nothing reply =
    request_or_none "DELETE" (project_url project_id ("/collaborators/links/" ∷ link_id ∷ [])) empty
      (λ r. String.◌++◌ "Failed to revoke link: " r.status_text) nothing reply

abbrev join_error : Option Fault → String
join_error none = "Failed to join project"
join_error (some f) = to_text (or_value f.error (str "Failed to join project"))

unfoldable pub accept_collaborator_link {ℓ} : {A : Type ℓ} → String → Reply A → Task Net A
unfolding to_text
accept_collaborator_link token reply =
    request "POST" (own ("invites/accept" ∷ [])) (json (("token", str token) ∷ []))
      (λ r. join_error r.fault) reply
