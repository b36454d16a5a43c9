-- ===== src/Clients/Secrecy/Calls.antt =====
-- The token goes to the client's own origin alone, whatever calls of the clients are made.
use Prim.Native.String
use sync_tex.Base.{
  String, List, [], ◌∷◌, ℕ, Option, none, refl, inl, inr, All, await, done, str, Answer, resolved,
  rejected, ◌>>=◌, Value, Dict,
}
use sync_tex.Files.{ItemType}
use sync_tex.Clients.{empty, raw, json, bytes, response_error, Reply, Net, own, json_or, request}
use sync_tex.Clients.Items
use sync_tex.Clients.Items.{plain_request, put_body}
use sync_tex.Clients.Projects
use sync_tex.Clients.Projects.{Project, or_mock, import_request}
use sync_tex.Clients.Members
use sync_tex.Clients.Assistant
use sync_tex.Clients.Assistant.{throw_if_error}
use sync_tex.Clients.Secrecy.{
  IsSafe, >>=-Keeps, plain-Keeps, request-Keeps, request_or_none-Keeps, put_body-Keeps, own-IsOwn,
  auth_fetch-Keeps, llm_url-IsOwn, asked-Keeps, ordered-Keeps, json_or-Keeps, Keeps,
}

-- `or_mock` changes the answer alone.
or_mock-Safe :
    (now : ℕ) (r : Answer (List Project) × Net)
    → All IsSafe r.1.sent
    → All IsSafe (or_mock now r).1.sent
or_mock-Safe now (resolved projects, s) h = h
or_mock-Safe now (rejected message, s) h = h

fetch_file_content-Keeps {ℓ} :
    {A : Type ℓ} (url : String) (reply : Reply A) → Keeps (Items.fetch_file_content url reply)
unfolding Items.fetch_file_content
fetch_file_content-Keeps url reply =
    plain-Keeps (plain_request "GET" url none empty) reply (λ r. await r.text) (inl refl)
      (λ r. record { keeps = λ s. λ h. h })

save_file_content-Keeps {ℓ} :
    {A : Type ℓ} (project_id file_id content : String) (granted : Reply String) (uploaded : Reply A)
    → Keeps (Items.save_file_content project_id file_id content granted uploaded)
unfolding Items.save_file_content
save_file_content-Keeps project_id file_id content granted uploaded =
    >>=-Keeps
      {m = request "POST" (own ("projects/" ∷ project_id ∷ "/files/" ∷ file_id ∷ "/upload" ∷ []))
        empty (λ r. String.◌++◌ "Failed to save file: " r.status_text) granted}
      {f = λ url.
        put_body url "application/octet-stream" (raw content)
          (λ u. String.◌++◌ "Failed to upload file: " u.status_text) uploaded}
      (request-Keeps _ ("projects/" ∷ project_id ∷ "/files/" ∷ file_id ∷ "/upload" ∷ []) _ _ _)
      (λ url. put_body-Keeps _ _ _ _ _)

upload_image_file-Keeps {ℓ} :
    {A B : Type ℓ} (url_of : A → String) (project_id folder_id name content_type : String)
    (registered : Reply A) (uploaded : Reply B)
    → Keeps
        (Items.upload_image_file url_of project_id folder_id name content_type registered uploaded)
unfolding Items.upload_image_file
upload_image_file-Keeps url_of project_id folder_id name content_type registered uploaded =
    >>=-Keeps
      {m = request "POST" (own ("projects/" ∷ project_id ∷ "/files" ∷ []))
        (json (
          ("filename", str name)
          ∷ ("directory_id", str folder_id)
          ∷ ("file_type", str "image")
          ∷ []))
        (λ r. response_error "Failed to register image" r) registered}
      {f = λ d.
        put_body (url_of d) content_type bytes (λ r. response_error "Failed to upload image" r)
          uploaded
        >>= λ _. done d}
      (request-Keeps _ ("projects/" ∷ project_id ∷ "/files" ∷ []) _ _ _)
      (λ d.
        >>=-Keeps {f = λ _. done d} (put_body-Keeps _ _ _ _ _)
          (λ _. record { keeps = λ s. λ h. h }))

list_providers-Keeps {ℓ} : {A : Type ℓ} (reply : Reply A) → Keeps (Assistant.list_providers reply)
unfolding Assistant.list_providers
list_providers-Keeps reply =
    plain-Keeps _ reply (λ r. await r.content) (inl refl) (λ r. record { keeps = λ s. λ h. h })

module _ (A : Type 0) where
  -- A call of a client, with what the server answers; every answer's body is of the type `A`.
  pub data ClientCall : Type 0 where
    fetch_project_tree : String → Reply A → ClientCall
    fetch_file_content : String → Reply A → ClientCall
    save_file_content : String → String → String → Reply String → Reply A → ClientCall
    create_file : String → String → String → Reply A → ClientCall
    create_folder : String → String → String → Reply A → ClientCall
    delete_item : String → String → ItemType → A → Reply A → ClientCall
    rename_item : String → String → ItemType → String → Reply A → ClientCall
    upload_image_file :
        (A → String) → String → String → String → String → Reply A → Reply A → ClientCall
    fetch_project : String → Reply A → ClientCall
    fetch_projects : ℕ → Reply (List Project) → ClientCall
    create_project : Dict Value → Reply A → ClientCall
    import_project : Reply A → ClientCall
    generate_collaborator_link : String → String → Reply A → ClientCall
    fetch_collaborator_links : String → Reply A → ClientCall
    fetch_collaborators : String → Reply A → ClientCall
    remove_collaborator : String → String → A → Reply A → ClientCall
    revoke_collaborator_link : String → String → A → Reply A → ClientCall
    accept_collaborator_link : String → Reply A → ClientCall
    upsert_llm_key : String → String → Reply A → ClientCall
    list_llm_keys : Reply A → ClientCall
    delete_llm_key : String → Reply A → ClientCall
    get_llm_settings : Reply A → ClientCall
    update_llm_settings : Dict Value → Reply A → ClientCall
    get_llm_usage : Reply A → ClientCall
    create_chat : String → String → Reply A → ClientCall
    list_chats : String → Reply A → ClientCall
    get_chat_messages : String → Reply A → ClientCall
    delete_chat : String → Reply A → ClientCall
    list_providers : Reply A → ClientCall
    stream_chat : String → String → Value → ℕ → Reply A → ClientCall

  -- The state that the call leaves.
  unfoldable pub perform : ClientCall → Net → Net
  unfolding Items.fetch_project_tree Items.fetch_file_content Items.save_file_content
      Items.create_file Items.create_folder Items.delete_item Items.rename_item
      Items.upload_image_file Projects.fetch_project Projects.fetch_projects Projects.create_project
      Projects.import_project Members.generate_collaborator_link Members.fetch_collaborator_links
      Members.fetch_collaborators Members.remove_collaborator Members.revoke_collaborator_link
      Members.accept_collaborator_link Assistant.upsert_llm_key Assistant.list_llm_keys
      Assistant.delete_llm_key Assistant.get_llm_settings Assistant.update_llm_settings
      Assistant.get_llm_usage Assistant.create_chat Assistant.list_chats Assistant.get_chat_messages
      Assistant.delete_chat Assistant.list_providers Assistant.stream_request
  perform (fetch_project_tree t reply) s = (Items.fetch_project_tree t reply s).1
  perform (fetch_file_content t reply) s = (Items.fetch_file_content t reply s).1
  perform (save_file_content t t' t'' granted reply) s =
      (Items.save_file_content t t' t'' granted reply s).1
  perform (create_file t t' t'' reply) s = (Items.create_file t t' t'' reply s).1
  perform (create_folder t t' t'' reply) s = (Items.create_folder t t' t'' reply s).1
  perform (delete_item t t' type a reply) s = (Items.delete_item t t' type a reply s).1
  perform (rename_item t t' type t'' reply) s = (Items.rename_item t t' type t'' reply s).1
  perform (upload_image_file url_of t t' t'' t''' reply reply') s =
      (Items.upload_image_file url_of t t' t'' t''' reply reply' s).1
  perform (fetch_project t reply) s = (Projects.fetch_project t reply s).1
  perform (fetch_projects now reply) s = (Projects.fetch_projects now reply s).1
  perform (create_project fields reply) s = (Projects.create_project fields reply s).1
  perform (import_project reply) s = (Projects.import_project reply s).1
  perform (generate_collaborator_link t t' reply) s =
      (Members.generate_collaborator_link t t' reply s).1
  perform (fetch_collaborator_links t reply) s = (Members.fetch_collaborator_links t reply s).1
  perform (fetch_collaborators t reply) s = (Members.fetch_collaborators t reply s).1
  perform (remove_collaborator t t' a reply) s = (Members.remove_collaborator t t' a reply s).1
  perform (revoke_collaborator_link t t' a reply) s =
      (Members.revoke_collaborator_link t t' a reply s).1
  perform (accept_collaborator_link t reply) s = (Members.accept_collaborator_link t reply s).1
  perform (upsert_llm_key t t' reply) s = (Assistant.upsert_llm_key t t' reply s).1
  perform (list_llm_keys reply) s = (Assistant.list_llm_keys reply s).1
  perform (delete_llm_key t reply) s = (Assistant.delete_llm_key t reply s).1
  perform (get_llm_settings reply) s = (Assistant.get_llm_settings reply s).1
  perform (update_llm_settings fields reply) s = (Assistant.update_llm_settings fields reply s).1
  perform (get_llm_usage reply) s = (Assistant.get_llm_usage reply s).1
  perform (create_chat t t' reply) s = (Assistant.create_chat t t' reply s).1
  perform (list_chats t reply) s = (Assistant.list_chats t reply s).1
  perform (get_chat_messages t reply) s = (Assistant.get_chat_messages t reply s).1
  perform (delete_chat t reply) s = (Assistant.delete_chat t reply s).1
  perform (list_providers reply) s = (Assistant.list_providers reply s).1
  perform (stream_chat chat_id message prompt limit reply) s =
      (Assistant.stream_request chat_id message prompt limit reply s).1

  -- A call leaves a log of safe requests safe.
  perform-Safe :
      (call : ClientCall) (s : Net) → All IsSafe s.sent → All IsSafe (perform call s).sent
  unfolding perform Items.fetch_project_tree Items.fetch_file_content Items.save_file_content
      Items.create_file Items.create_folder Items.delete_item Items.rename_item
      Items.upload_image_file Projects.fetch_project Projects.fetch_projects Projects.create_project
      Projects.import_project Members.generate_collaborator_link Members.fetch_collaborator_links
      Members.fetch_collaborators Members.remove_collaborator Members.revoke_collaborator_link
      Members.accept_collaborator_link Assistant.upsert_llm_key Assistant.list_llm_keys
      Assistant.delete_llm_key Assistant.get_llm_settings Assistant.update_llm_settings
      Assistant.get_llm_usage Assistant.create_chat Assistant.list_chats Assistant.get_chat_messages
      Assistant.delete_chat Assistant.list_providers Assistant.stream_request
  perform-Safe (fetch_project_tree t reply) s h = (request-Keeps _ _ _ _ _).keeps s h
  perform-Safe (fetch_file_content t reply) s h = (fetch_file_content-Keeps t reply).keeps s h
  perform-Safe (save_file_content t t' t'' granted reply) s h =
      (save_file_content-Keeps t t' t'' granted reply).keeps s h
  perform-Safe (create_file t t' t'' reply) s h = (request-Keeps _ _ _ _ _).keeps s h
  perform-Safe (create_folder t t' t'' reply) s h = (request-Keeps _ _ _ _ _).keeps s h
  perform-Safe (delete_item t t' type a reply) s h = (request_or_none-Keeps _ _ _ _ _ _).keeps s h
  perform-Safe (rename_item t t' type t'' reply) s h = (request-Keeps _ _ _ _ _).keeps s h
  perform-Safe (upload_image_file url_of t t' t'' t''' reply reply') s h =
      (upload_image_file-Keeps url_of t t' t'' t''' reply reply').keeps s h
  perform-Safe (fetch_project t reply) s h = (request-Keeps _ _ _ _ _).keeps s h
  perform-Safe (fetch_projects now reply) s h =
      or_mock-Safe now _ ((request-Keeps _ _ _ _ _).keeps s h)
  perform-Safe (create_project fields reply) s h = (request-Keeps _ _ _ _ _).keeps s h
  perform-Safe (import_project reply) s h =
      (plain-Keeps (import_request s.token) reply (json_or "Failed to import project")
          (inr (own-IsOwn ("projects/import" ∷ [])))
          (λ r. json_or-Keeps "Failed to import project" r)).keeps
        s h
  perform-Safe (generate_collaborator_link t t' reply) s h = (request-Keeps _ _ _ _ _).keeps s h
  perform-Safe (fetch_collaborator_links t reply) s h = (request-Keeps _ _ _ _ _).keeps s h
  perform-Safe (fetch_collaborators t reply) s h = (request-Keeps _ _ _ _ _).keeps s h
  perform-Safe (remove_collaborator t t' a reply) s h =
      (request_or_none-Keeps _ _ _ _ _ _).keeps s h
  perform-Safe (revoke_collaborator_link t t' a reply) s h =
      (request_or_none-Keeps _ _ _ _ _ _).keeps s h
  perform-Safe (accept_collaborator_link t reply) s h = (request-Keeps _ _ _ _ _).keeps s h
  perform-Safe (upsert_llm_key t t' reply) s h = (asked-Keeps _ _ _ _).keeps s h
  perform-Safe (list_llm_keys reply) s h = (asked-Keeps _ _ _ _).keeps s h
  perform-Safe (delete_llm_key t reply) s h = (ordered-Keeps _ _ _ _).keeps s h
  perform-Safe (get_llm_settings reply) s h = (asked-Keeps _ _ _ _).keeps s h
  perform-Safe (update_llm_settings fields reply) s h = (asked-Keeps _ _ _ _).keeps s h
  perform-Safe (get_llm_usage reply) s h = (asked-Keeps _ _ _ _).keeps s h
  perform-Safe (create_chat t t' reply) s h = (asked-Keeps _ _ _ _).keeps s h
  perform-Safe (list_chats t reply) s h = (asked-Keeps _ _ _ _).keeps s h
  perform-Safe (get_chat_messages t reply) s h = (asked-Keeps _ _ _ _).keeps s h
  perform-Safe (delete_chat t reply) s h = (ordered-Keeps _ _ _ _).keeps s h
  perform-Safe (list_providers reply) s h = (list_providers-Keeps reply).keeps s h
  perform-Safe (stream_chat chat_id message prompt limit reply) s h =
      (auth_fetch-Keeps _ _ _ reply (llm_url-IsOwn ("chat/stream" ∷ []))).keeps s h

  unfoldable pub perform_all : List ClientCall → Net → Net
  perform_all [] s = s
  perform_all (call ∷ calls) s = perform_all calls (perform call s)

  perform_all-Safe :
      (calls : List ClientCall) (s : Net)
      → All IsSafe s.sent
      → All IsSafe (perform_all calls s).sent
  unfolding perform_all
  perform_all-Safe [] s h = h
  perform_all-Safe (call ∷ calls) s h =
      perform_all-Safe calls (perform call s) (perform-Safe call s h)

  -- Whatever calls by `fetch` the clients of frontend/src/api make, the stream's included, starting with nothing sent, each request they send carries
  -- no authorization or goes to a path of the services behind the client's own origin.
  pub token_only_to_own_origin :
      (calls : List ClientCall) (token : Option String)
      → All IsSafe (perform_all calls (record { token = token; sent = [] })).sent
  token_only_to_own_origin calls token = perform_all-Safe calls _ tt
