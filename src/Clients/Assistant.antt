-- ===== src/Clients/Assistant.antt =====
-- frontend/src/api/llm.js: keys, settings, usage, chats and providers, and the request of
-- the stream, whose answer Stream reads.
use sync_tex.Base.{
  ℕ, num, String, none, List, [], ◌∷◌, if◌then◌else◌, Task, ◌>>=◌, await, done, throw, Value, str,
  Dict,
}
use sync_tex.Clients.{
  Body, empty, json, Response, Reply, Net, fetch, auth_fetch, llm_url, is_ok, detail_error,
}

-- `throwIfError`
unfoldable pub throw_if_error {ℓ} : {A : Type ℓ} → Response A → Task Net (Response A)
unfolding detail_error
throw_if_error r = if is_ok r.status then done r else throw (detail_error r)

-- A request whose answer's body is given.
unfoldable pub asked {ℓ} : {A : Type ℓ} → String → List String → Body → Reply A → Task Net A
unfolding auth_fetch throw_if_error
asked method rest body reply = do
  r ← auth_fetch method (llm_url rest) body reply
  checked ← throw_if_error r
  await checked.content

-- A request whose answer's body is not read.
unfoldable pub ordered {ℓ} :
    {A : Type ℓ} → String → List String → Body → Reply A → Task Net (Unit {0})
unfolding auth_fetch throw_if_error
ordered method rest body reply = do
  r ← auth_fetch method (llm_url rest) body reply
  checked ← throw_if_error r
  done tt

unfoldable pub upsert_llm_key {ℓ} : {A : Type ℓ} → String → String → Reply A → Task Net A
upsert_llm_key provider api_key reply =
    asked "PUT" ("keys" ∷ []) (json (("provider", str provider) ∷ ("api_key", str api_key) ∷ []))
      reply

unfoldable pub list_llm_keys {ℓ} : {A : Type ℓ} → Reply A → Task Net A
list_llm_keys reply = asked "GET" ("keys" ∷ []) empty reply

unfoldable pub delete_llm_key {ℓ} : {A : Type ℓ} → String → Reply A → Task Net (Unit {0})
delete_llm_key provider reply = ordered "DELETE" ("keys/" ∷ provider ∷ []) empty reply

unfoldable pub get_llm_settings {ℓ} : {A : Type ℓ} → Reply A → Task Net A
get_llm_settings reply = asked "GET" ("settings" ∷ []) empty reply

unfoldable pub update_llm_settings {ℓ} : {A : Type ℓ} → Dict Value → Reply A → Task Net A
update_llm_settings patch reply = asked "PATCH" ("settings" ∷ []) (json patch) reply

unfoldable pub get_llm_usage {ℓ} : {A : Type ℓ} → Reply A → Task Net A
get_llm_usage reply = asked "GET" ("usage" ∷ []) empty reply

unfoldable pub create_chat {ℓ} : {A : Type ℓ} → String → String → Reply A → Task Net A
create_chat project_id title reply =
    asked "POST" ("chats" ∷ []) (json (("project_id", str project_id) ∷ ("title", str title) ∷ []))
      reply

unfoldable pub list_chats {ℓ} : {A : Type ℓ} → String → Reply A → Task Net A
list_chats project_id reply = asked "GET" ("chats?project_id=" ∷ project_id ∷ []) empty reply

unfoldable pub get_chat_messages {ℓ} : {A : Type ℓ} → String → Reply A → Task Net A
get_chat_messages chat_id reply = asked "GET" ("chats/" ∷ chat_id ∷ "/messages" ∷ []) empty reply

unfoldable pub delete_chat {ℓ} : {A : Type ℓ} → String → Reply A → Task Net (Unit {0})
delete_chat chat_id reply = ordered "DELETE" ("chats/" ∷ chat_id ∷ []) empty reply

-- The request of `streamChat`.
unfoldable pub stream_request {ℓ} :
    {A : Type ℓ} → String → String → Value → ℕ → Reply A → Task Net (Response A)
unfolding auth_fetch
stream_request chat_id message system_prompt max_tokens reply =
    auth_fetch "POST" (llm_url ("chat/stream" ∷ []))
      (json (
        ("chat_id", str chat_id)
        ∷ ("message", str message)
        ∷ ("system_prompt", system_prompt)
        ∷ ("max_tokens", num max_tokens)
        ∷ []))
      reply

-- This one needs no authentication, and reads the body whatever the status.
unfoldable pub list_providers {ℓ} : {A : Type ℓ} → Reply A → Task Net A
unfolding fetch
list_providers reply = do
  r ←
      fetch
        (record {
          method = "GET";
          url = llm_url ("providers" ∷ []);
          content_type = none;
          authorization = none;
          body = empty;
        })
        reply
  await r.content
