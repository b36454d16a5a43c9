-- ===== src/Clients/Errors.antt =====
-- What the clients' errors come to.
use Prim.Native.String
use sync_tex.Base.{
  ℕ, String, some, [], ◌∷◌, Bool, true, false, if◌then◌else◌, ◌≡◌, ◌≢◌, refl, Answer, resolved,
  rejected, Task, ◌>>=◌, await, done, throw,
}
use sync_tex.Clients.{
  Body, empty, raw, own, Response, Reply, lost, replied, Net, send, bearer, fetch, request,
  auth_fetch, is_ok, json_or,
}
use sync_tex.Clients.Items.{save_file_content, put_body, plain_request}

-- The status that a reply has; 0 where the network failed.
abbrev pub status_of {ℓ} : {A : Type ℓ} → Reply A → ℕ
status_of (lost message) = 0
status_of (replied r) = r.status

abbrev put_state : String → String → Body → Net → Net
put_state url content_type body s = send (plain_request "PUT" url (some content_type) body) s

abbrev send_request : String → String → Body → Net → Net
send_request method url body s =
    send
      (record {
        method = method;
        url = url;
        content_type = some "application/json";
        authorization = bearer s.token;
        body = body;
      })
      s

rejected-resolved {ℓ} : {A : Type ℓ} {message : String} {a : A} → rejected message ≢ resolved a
rejected-resolved h = cc

resolved-only_if {ℓ} :
    {A : Type ℓ} (b : Bool) (m : Task Net A) (message : String) (s : Net) (a : A)
    → ((if b then m else throw message) s).0 ≡ resolved a
    → b ≡ true
resolved-only_if true m message s a h = refl
resolved-only_if false m message s a h = elim (rejected-resolved h) [ ]

-- What a chain of two tasks that resolved is made of.
resolved->>= {ℓ κ} :
    {A : Type ℓ} {B : Type κ} (r : Answer A × Net) (f : A → Task Net B) (b : B)
    → (((λ (_ : Net). r) >>= f) r.1).0 ≡ resolved b
    → (a : A) × (r.0 ≡ resolved a) × ((f a r.1).0 ≡ resolved b)
resolved->>= (resolved a, s) f b h = (a, refl, h)
resolved->>= (rejected message, s) f b h = elim (rejected-resolved h) [ ]

-- `request` resolves with a success alone.
pub request-resolved {ℓ} :
    {A : Type ℓ} (method : String) (url : String) (body : Body) (message : Response A → String)
    (reply : Reply A) (s : Net) (a : A)
    → (request method url body message reply s).0 ≡ resolved a
    → is_ok (status_of reply) ≡ true
unfolding request auth_fetch fetch json_or
request-resolved method url body message (lost m) s a h = elim (rejected-resolved h) [ ]
request-resolved method url body message (replied r) s a h =
    resolved-only_if (is_ok r.status) (await r.content) (message r) (send_request method url body s)
      a h

pub put_body-resolved {ℓ} :
    {A : Type ℓ} (url : String) (content_type : String) (body : Body)
    (message : Response A → String) (reply : Reply A) (s : Net)
    → (put_body url content_type body message reply s).0 ≡ resolved tt
    → is_ok (status_of reply) ≡ true
unfolding put_body fetch
put_body-resolved url content_type body message (lost m) s h = elim (rejected-resolved h) [ ]
put_body-resolved url content_type body message (replied r) s h =
    resolved-only_if (is_ok r.status) (done tt) (message r) (put_state url content_type body s) tt h

-- A save that resolves was granted by a success and uploaded by one: no failed or lost request of the
-- two is taken for a save.
pub save_file_content-resolved {ℓ} :
    {A : Type ℓ} (project_id file_id content : String) (granted : Reply String) (uploaded : Reply A)
    (s : Net)
    → (save_file_content project_id file_id content granted uploaded s).0 ≡ resolved tt
    → (is_ok (status_of granted) ≡ true) × (is_ok (status_of uploaded) ≡ true)
unfolding save_file_content
save_file_content-resolved project_id file_id content granted uploaded s h =
    let grant =
      request "POST" (own ("projects/" ∷ project_id ∷ "/files/" ∷ file_id ∷ "/upload" ∷ [])) empty
        (λ r. String.◌++◌ "Failed to save file: " r.status_text) granted in
    let (url, got, kept) =
      resolved->>= (grant s)
        (λ url.
          put_body url "application/octet-stream" (raw content)
            (λ u. String.◌++◌ "Failed to upload file: " u.status_text) uploaded)
        tt h in
    (request-resolved _ _ _ _ granted s url got, put_body-resolved url _ _ _ uploaded _ kept)
