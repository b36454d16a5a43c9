-- ===== src/Clients.antt =====
-- How the clients of frontend/src/api make requests: `fetch`, `authFetch` of
-- frontend/src/contexts/AuthContext.jsx and what they read of an answer. What a server answers is an
-- argument, and the requests are kept in a log, oldest first.
pub mod Items
pub mod Projects
pub mod Members
pub mod Assistant
pub mod Secrecy
pub mod Errors
mod Tests
use Prim.Native.String
use sync_tex.Base.{
  ℕ, String, Option, none, some, List, [], ◌∷◌, ◌++◌, ◌==◌, Bool, true, false, not, ◌&&◌, ◌||◌,
  if◌then◌else◌, leb, eqb, Answer, resolved, rejected, Task, ◌>>=◌, ◌>>◌, await, throw, update,
  Dict, Value, template, to_text, num, or_value, coalesce, truthy, str, trim,
}

-- The body of a request: the object that `JSON.stringify` is given, a text, or the bytes of a file or
-- form.
pub data Body : Type 0 where
  empty : Body
  json : Dict Value → Body
  raw : String → Body
  bytes : Body

pub record Request : Type 0 where
  pub method : String
  pub url : String
  pub content_type : Option String
  pub authorization : Option String
  pub body : Body

-- The fields that are read of an error's body.
pub record Fault : Type 0 where
  pub error : Value
  pub message : Value
  pub detail : Value

pub record Response {ℓ} (A : Type ℓ) : Type ℓ where
  pub status : ℕ
  pub status_text : String
  -- what `json()` gives where the status is that of a success
  pub content : Answer A
  -- what it gives otherwise; none where it fails
  pub fault : Option Fault
  -- what `text()` gives
  pub text : Answer String

-- The network fails, or the server answers.
pub data Reply {ℓ} (A : Type ℓ) : Type ℓ where
  lost : String → Reply A
  replied : Response A → Reply A

pub record Net : Type 0 where
  -- `localStorage.getItem('auth_token')`
  pub token : Option String
  pub sent : List Request

abbrev pub send : Request → Net → Net
send r s = record s { sent = s.sent ++ r ∷ [] }

abbrev answer_of {ℓ} : {A : Type ℓ} → Reply A → Answer (Response A)
answer_of (lost message) = rejected message
answer_of (replied r) = resolved r

unfoldable pub fetch {ℓ} : {A : Type ℓ} → Request → Reply A → Task Net (Response A)
fetch r reply s = (answer_of reply, send r s)

abbrev pub bearer : Option String → Option String
bearer none = none
bearer (some token) = if token == "" then none else some (String.◌++◌ "Bearer " token)

-- `authFetch`; its callers that set a content type set the default one.
unfoldable pub auth_fetch {ℓ} :
    {A : Type ℓ} → String → String → Body → Reply A → Task Net (Response A)
unfolding fetch
auth_fetch method url body reply s =
    fetch
      (record {
        method = method;
        url = url;
        content_type = some "application/json";
        authorization = bearer s.token;
        body = body;
      })
      reply s

-- A path of the project service, on the client's own origin.
unfoldable pub own : List String → String
own pieces = String.◌++◌ "/projects/v1/" (template pieces)

-- `BASE` of frontend/src/api/llm.js with what follows it.
unfoldable pub llm_url : List String → String
llm_url pieces = String.◌++◌ "/api/llm/v1/" (template pieces)

-- `response.ok`
abbrev pub is_ok : ℕ → Bool
is_ok status = leb 200 status && leb status 299

-- `if (!response.ok) throw new Error(message); return response.json();`
unfoldable pub json_or {ℓ} : {A : Type ℓ} → String → Response A → Task Net A
json_or message r = if is_ok r.status then await r.content else throw message

-- The same without a body where the status is 204.
unfoldable pub json_or_none {ℓ} : {A : Type ℓ} → String → A → Response A → Task Net A
json_or_none message nothing r =
    if is_ok r.status
    then if eqb r.status 204 then await (resolved nothing) else await r.content
    else throw message

abbrev body_message : Option Fault → Answer String → Value
body_message (some f) text = or_value (or_value f.error f.message) (str "")
body_message none (resolved text) = str (trim text)
body_message none (rejected message) = str ""

-- The message of `responseError` of frontend/src/api/editor.js.
unfoldable pub response_error {ℓ} : {A : Type ℓ} → String → Response A → String
unfolding to_text
response_error fallback r =
    to_text (or_value (or_value (body_message r.fault r.text) (str r.status_text)) (str fallback))

-- The message of `throwIfError` of frontend/src/api/llm.js.
unfoldable pub detail_error {ℓ} : {A : Type ℓ} → Response A → String
unfolding to_text
detail_error r =
    let status_message = str (String.◌++◌ "HTTP " (to_text (num r.status))) in
    to_text (elim r.fault [ none ↦ status_message | some f ↦ coalesce f.detail status_message ])

-- A request whose answer is the body of a success, and an error with the message otherwise.
unfoldable pub request {ℓ} :
    {A : Type ℓ} → String → String → Body → (Response A → String) → Reply A → Task Net A
unfolding auth_fetch json_or
request method url body message reply = do
  r ← auth_fetch method url body reply
  json_or (message r) r

-- The same where a status of 204 has no body.
unfoldable pub request_or_none {ℓ} :
    {A : Type ℓ} → String → String → Body → (Response A → String) → A → Reply A → Task Net A
unfolding auth_fetch json_or_none
request_or_none method url body message nothing reply = do
  r ← auth_fetch method url body reply
  json_or_none (message r) nothing r
