-- ===== src/Clients/Secrecy.antt =====
-- Where the user's token goes: what each step of a client does to the requests that were sent.
pub mod Calls
use text.Mathlib.Text.{starts_with}
use text.Mathlib.TextPositions.{starts_with-append}
use sync_tex.Base.{
  ℕ, String, Option, none, some, List, [], ◌∷◌, ◌++◌, Bool, true, false, if◌then◌else◌, ◌≡◌, refl,
  ◌⊎◌, inl, inr, All, All-append, Answer, resolved, rejected, Task, ◌>>=◌, ◌>>◌, await, done, throw,
  Value, str, Dict, template, eqb, leb, ◌&&◌, Bool-cases,
}
use sync_tex.Clients.{
  Body, Request, Response, Reply, Net, fetch, auth_fetch, own, llm_url, is_ok, json_or,
  json_or_none, request, request_or_none,
}
use sync_tex.Clients.Assistant.{throw_if_error, asked, ordered}
use sync_tex.Clients.Items.{put_body, plain_request}

-- A path of a service behind the client's own origin.
abbrev pub IsOwn : String → Type 0
IsOwn url = (starts_with url "/projects/v1/" ≡ true) ⊎ (starts_with url "/api/llm/v1/" ≡ true)

-- A request without the token, or one to the client's own origin.
abbrev pub IsSafe : Request → Type 0
IsSafe r = (r.authorization ≡ none) ⊎ IsOwn r.url

-- A task that leaves a log of safe requests safe.
pub record Keeps {ℓ} {A : Type ℓ} (m : Task Net A) : Type 0 where
  pub keeps : (s : Net) → All IsSafe s.sent → All IsSafe (m s).1.sent

pub fetch-Keeps {ℓ} :
    {A : Type ℓ} (r : Request) (reply : Reply A) → IsSafe r → Keeps (fetch r reply)
unfolding fetch
fetch-Keeps r reply safe = record {
  keeps = λ s. λ h. All-append IsSafe s.sent (r ∷ []) h (safe, tt);
}

pub own-IsOwn : (pieces : List String) → IsOwn (own pieces)
unfolding own
own-IsOwn pieces = inl (starts_with-append "/projects/v1/" (template pieces))

pub llm_url-IsOwn : (pieces : List String) → IsOwn (llm_url pieces)
unfolding llm_url
llm_url-IsOwn pieces = inr (starts_with-append "/api/llm/v1/" (template pieces))

pub auth_fetch-Keeps {ℓ} :
    {A : Type ℓ} (method : String) (url : String) (body : Body) (reply : Reply A)
    → IsOwn url
    → Keeps (auth_fetch method url body reply)
unfolding auth_fetch
auth_fetch-Keeps method url body reply own_url = record {
  keeps = λ s. λ h. (fetch-Keeps _ reply (inr own_url)).keeps s h;
}

pub >>=-Keeps {ℓ κ} :
    {A : Type ℓ} {B : Type κ} {m : Task Net A} {f : A → Task Net B}
    → Keeps m
    → ((a : A) → Keeps (f a))
    → Keeps (m >>= f)
>>=-Keeps {A = A} {m = m} {f = f} hm hf = record { keeps = λ s. λ h. go (m s) (hm.keeps s h) }
  where
    go :
        (r : Answer A × Net)
        → All IsSafe r.1.sent
        → All IsSafe (((λ (_ : Net). r) >>= f) r.1).1.sent
    go (resolved a, s') h' = (hf a).keeps s' h'
    go (rejected e, s') h' = h'

pub json_or-Keeps {ℓ} : {A : Type ℓ} (message : String) (r : Response A) → Keeps (json_or message r)
unfolding json_or
json_or-Keeps message r = elim (Bool-cases (is_ok r.status)) [
  | inl good ↦ record { keeps = λ s. λ h. rw good h }
  | inr bad ↦ record { keeps = λ s. λ h. rw bad h }
]

pub json_or_none-Keeps {ℓ} :
    {A : Type ℓ} (message : String) (nothing : A) (r : Response A)
    → Keeps (json_or_none message nothing r)
unfolding json_or_none
json_or_none-Keeps message nothing r = elim (Bool-cases (is_ok r.status)) [
  | inl good ↦ elim (Bool-cases (eqb r.status 204)) [
    | inl no_content ↦ record { keeps = λ s. λ h. rw (good, no_content) h }
    | inr some_content ↦ record { keeps = λ s. λ h. rw (good, some_content) h }
  ]
  | inr bad ↦ record { keeps = λ s. λ h. rw bad h }
]

pub throw_if_error-Keeps {ℓ} : {A : Type ℓ} (r : Response A) → Keeps (throw_if_error r)
unfolding throw_if_error
throw_if_error-Keeps r = elim (Bool-cases (is_ok r.status)) [
  | inl good ↦ record { keeps = λ s. λ h. rw good h }
  | inr bad ↦ record { keeps = λ s. λ h. rw bad h }
]

pub done_or_throw-Keeps {ℓ} :
    {A : Type ℓ} (b : Bool) (a : A) (message : String) → Keeps (if b then done a else throw message)
done_or_throw-Keeps true a message = record { keeps = λ s. λ h. h }
done_or_throw-Keeps false a message = record { keeps = λ s. λ h. h }

pub request-Keeps {ℓ} :
    {A : Type ℓ} (method : String) (pieces : List String) (body : Body)
    (message : Response A → String) (reply : Reply A)
    → Keeps (request method (own pieces) body message reply)
unfolding request
request-Keeps method pieces body message reply =
    >>=-Keeps {m = auth_fetch method (own pieces) body reply} {f = λ r. json_or (message r) r}
      (auth_fetch-Keeps method (own pieces) body reply (own-IsOwn pieces))
      (λ r. json_or-Keeps (message r) r)

pub request_or_none-Keeps {ℓ} :
    {A : Type ℓ} (method : String) (pieces : List String) (body : Body)
    (message : Response A → String) (nothing : A) (reply : Reply A)
    → Keeps (request_or_none method (own pieces) body message nothing reply)
unfolding request_or_none
request_or_none-Keeps method pieces body message nothing reply =
    >>=-Keeps {m = auth_fetch method (own pieces) body reply}
      {f = λ r. json_or_none (message r) nothing r}
      (auth_fetch-Keeps method (own pieces) body reply (own-IsOwn pieces))
      (λ r. json_or_none-Keeps (message r) nothing r)

-- A request without the token whose answer is read by a task that sends nothing.
pub plain-Keeps {ℓ κ} :
    {A : Type ℓ} {B : Type κ} (r : Request) (reply : Reply A) (f : Response A → Task Net B)
    → IsSafe r
    → ((x : Response A) → Keeps (f x))
    → Keeps (fetch r reply >>= f)
plain-Keeps r reply f safe hf = >>=-Keeps {m = fetch r reply} {f = f} (fetch-Keeps r reply safe) hf

pub put_body-Keeps {ℓ} :
    {A : Type ℓ} (url : String) (content_type : String) (body : Body)
    (message : Response A → String) (reply : Reply A)
    → Keeps (put_body url content_type body message reply)
unfolding put_body
put_body-Keeps url content_type body message reply =
    plain-Keeps (plain_request "PUT" url (some content_type) body) reply
      (λ u. if is_ok u.status then done tt else throw (message u)) (inl refl)
      (λ u. done_or_throw-Keeps (is_ok u.status) tt (message u))

llm-Keeps {ℓ κ} :
    {A : Type ℓ} {B : Type κ} (method : String) (rest : List String) (body : Body) (reply : Reply A)
    (f : Response A → Task Net B)
    → ((r : Response A) → Keeps (f r))
    → Keeps (auth_fetch method (llm_url rest) body reply >>= λ r. throw_if_error r >>= f)
llm-Keeps method rest body reply f hf =
    >>=-Keeps {m = auth_fetch method (llm_url rest) body reply} {f = λ r. throw_if_error r >>= f}
      (auth_fetch-Keeps method _ body reply (llm_url-IsOwn rest))
      (λ r. >>=-Keeps {m = throw_if_error r} {f = f} (throw_if_error-Keeps r) hf)

pub asked-Keeps {ℓ} :
    {A : Type ℓ} (method : String) (rest : List String) (body : Body) (reply : Reply A)
    → Keeps (asked method rest body reply)
unfolding asked
asked-Keeps method rest body reply =
    llm-Keeps method rest body reply (λ r. await r.content) (λ r. record { keeps = λ s. λ h. h })

pub ordered-Keeps {ℓ} :
    {A : Type ℓ} (method : String) (rest : List String) (body : Body) (reply : Reply A)
    → Keeps (ordered method rest body reply)
unfolding ordered
ordered-Keeps method rest body reply =
    llm-Keeps method rest body reply (λ _. done tt) (λ r. record { keeps = λ s. λ h. h })
