-- ===== src/Clients/Items.antt =====
-- frontend/src/api/editor.js: the project tree and the content, creation, renaming and deletion of its
-- items.
use Prim.Native.String
use sync_tex.Base.{
  String, Option, none, some, [], ◌∷◌, if◌then◌else◌, Task, ◌>>=◌, await, done, throw, str,
}
use sync_tex.Files.{ItemType, file, folder}
use sync_tex.Clients.{
  Body, empty, json, raw, bytes, Request, Response, Reply, Net, fetch, own, request,
  request_or_none, is_ok, response_error,
}

unfoldable pub fetch_project_tree {ℓ} : {A : Type ℓ} → String → Reply A → Task Net A
fetch_project_tree project_id reply =
    request "GET" (own ("projects/" ∷ project_id ∷ "/tree" ∷ [])) empty
      (λ r. String.◌++◌ "Failed to fetch project tree: " r.status_text) reply

abbrev pub plain_request : String → String → Option String → Body → Request
plain_request method url content_type body = record {
  method = method;
  url = url;
  content_type = content_type;
  authorization = none;
  body = body;
}

-- Every answer's text is the content, whatever its status.
unfoldable pub fetch_file_content {ℓ} : {A : Type ℓ} → String → Reply A → Task Net String
unfolding fetch
fetch_file_content download_url reply = do
  r ← fetch (plain_request "GET" download_url none empty) reply
  await r.text

-- A `PUT` of the body to a given place, without the token.
unfoldable pub put_body {ℓ} :
    {A : Type ℓ} → String → String → Body → (Response A → String) → Reply A → Task Net (Unit {0})
unfolding fetch
put_body url content_type body message reply = do
  u ← fetch (plain_request "PUT" url (some content_type) body) reply
  if is_ok u.status then done tt else throw (message u)

-- What the two requests of `saveFileContent` answer: the first one's content is its `upload_url`.
unfoldable pub save_file_content {ℓ} :
    {A : Type ℓ} → String → String → String → Reply String → Reply A → Task Net (Unit {0})
save_file_content project_id file_id content granted uploaded = do
  url ←
      request "POST" (own ("projects/" ∷ project_id ∷ "/files/" ∷ file_id ∷ "/upload" ∷ [])) empty
        (λ r. String.◌++◌ "Failed to save file: " r.status_text) granted
  put_body url "application/octet-stream" (raw content)
      (λ u. String.◌++◌ "Failed to upload file: " u.status_text) uploaded

unfoldable pub create_file {ℓ} : {A : Type ℓ} → String → String → String → Reply A → Task Net A
create_file project_id parent_folder_id filename reply =
    request "POST" (own ("projects/" ∷ project_id ∷ "/files" ∷ []))
      (json (("directory_id", str parent_folder_id) ∷ ("filename", str filename) ∷ []))
      (λ r. response_error "Failed to create file" r) reply

unfoldable pub create_folder {ℓ} : {A : Type ℓ} → String → String → String → Reply A → Task Net A
create_folder project_id parent_folder_id folder_name reply =
    request "POST" (own ("projects/" ∷ project_id ∷ "/directories" ∷ []))
      (json (("parent_id", str parent_folder_id) ∷ ("name", str folder_name) ∷ []))
      (λ r. response_error "Failed to create folder" r) reply

abbrev endpoint : ItemType → String
endpoint file = "files"
endpoint folder = "directories"

abbrev type_name : ItemType → String
type_name file = "file"
type_name folder = "folder"

abbrev item_url : String → String → ItemType → String
item_url project_id item_id type =
    own ("projects/" ∷ project_id ∷ "/" ∷ endpoint type ∷ "/" ∷ item_id ∷ [])

-- The last argument is `{ success: true }`.
unfoldable pub delete_item {ℓ} :
    {A : Type ℓ} → String → String → ItemType → A → Reply A → Task Net A
delete_item project_id item_id type success reply =
    request_or_none "DELETE" (item_url project_id item_id type) empty
      (λ r. response_error (String.◌++◌ "Failed to delete " (type_name type)) r) success reply

abbrev name_field : ItemType → String
name_field file = "filename"
name_field folder = "name"

unfoldable pub rename_item {ℓ} :
    {A : Type ℓ} → String → String → ItemType → String → Reply A → Task Net A
rename_item project_id item_id type new_name reply =
    request "PATCH" (item_url project_id item_id type) (json ((name_field type, str new_name) ∷ []))
      (λ r. response_error (String.◌++◌ "Failed to rename " (type_name type)) r) reply

-- `url_of` reads `upload_url` of the answer to the registration.
unfoldable pub upload_image_file {ℓ} :
    {A B : Type ℓ}
    → (A → String)
    → String
    → String
    → String
    → String
    → Reply A
    → Reply B
    → Task Net A
upload_image_file url_of project_id parent_folder_id name content_type registered uploaded = do
  d ←
      request "POST" (own ("projects/" ∷ project_id ∷ "/files" ∷ []))
        (json (
          ("filename", str name)
          ∷ ("directory_id", str parent_folder_id)
          ∷ ("file_type", str "image")
          ∷ []))
        (λ r. response_error "Failed to register image" r) registered
  u ←
      put_body (url_of d) content_type bytes (λ r. response_error "Failed to upload image" r)
        uploaded
  done d
