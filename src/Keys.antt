-- ===== src/Keys.antt =====
-- frontend/src/components/Editor/LLMPanel/LLMPanel.jsx: the providers and their keys. What a request
-- comes to is an argument.
pub mod Shown
mod Tests
use Prim.Native.String
use sync_tex.Base.{
  ℕ, String, Option, none, some, List, [], ◌∷◌, ◌==◌, Bool, true, false, not, ◌&&◌, ◌||◌,
  if◌then◌else◌, trim, length, num, to_text, template, Answer, resolved, rejected, Dict, lookup,
  insert, is_some, eqb,
}

pub record Meta : Type 0 where
  pub label : String
  pub color : String
  pub placeholder : String

abbrev meta : String → String → String → Meta
meta label color placeholder = record { label = label; color = color; placeholder = placeholder }

-- `PROVIDER_META`
abbrev provider_meta : Dict Meta
provider_meta =
    ("anthropic", meta "Anthropic" "#c97a4e" "sk-ant-api03-…")
    ∷ ("openai", meta "OpenAI" "#19c37d" "sk-…")
    ∷ ("gemini", meta "Google Gemini" "#4285f4" "AIza…")
    ∷ ("mistral", meta "Mistral" "#ff7000" "mis-…")
    ∷ ("cohere", meta "Cohere" "#8b5cf6" "co-…")
    ∷ []

-- `getMeta`, but for names that every object has.
unfoldable pub get_meta : String → Meta
unfolding lookup
get_meta id = elim (lookup id provider_meta) [
  | none ↦ meta id "#6b7280" "Paste API key…"
  | some m ↦ m
]

pub data Status : Type 0 where
  idle saving saved deleting error : Status

pub record ProviderRow : Type 0 where
  -- `open`
  pub is_open : Bool
  pub key_val : String
  pub status : Status
  pub err_msg : String

-- `handleSave` up to its request, and the key that it sends, if any.
unfoldable pub begin_save : ProviderRow → Option String × ProviderRow
unfolding trim
begin_save s =
    if trim s.key_val == ""
    then (none, s)
    else (some (trim s.key_val), record s { status = saving; err_msg = "" })

-- `handleSave` from the answer on; whether it calls `onSaved` and sets the timer.
unfoldable pub end_save : Answer (Unit {0}) → ProviderRow → Bool × ProviderRow
end_save (resolved success) s = (true, record s { status = saved; key_val = "" })
end_save (rejected message) s = (false, record s { status = error; err_msg = message })

-- The timer of `handleSave`.
unfoldable pub save_elapsed : ProviderRow → ProviderRow
save_elapsed s = record s { status = idle; is_open = false }

-- `handleDelete` up to its request.
unfoldable pub begin_delete : ProviderRow → ProviderRow
begin_delete s = record s { status = deleting }

-- `handleDelete` from the answer on; whether it calls `onDeleted`.
unfoldable pub end_delete : Answer (Unit {0}) → ProviderRow → Bool × ProviderRow
end_delete (resolved success) s = (true, s)
end_delete (rejected message) s = (false, record s { status = error; err_msg = message })

unfoldable pub toggle_open : ProviderRow → ProviderRow
toggle_open s = record { is_open = not s.is_open; key_val = ""; status = idle; err_msg = "" }

-- `onChange` of the key's field
unfoldable pub key_typed : String → ProviderRow → ProviderRow
key_typed text s = record s { key_val = text; status = idle }

abbrev is_busy : Status → Bool
is_busy saving = true
is_busy saved = true
is_busy _ = false

-- Whether the button is enabled.
unfoldable pub can_save : ProviderRow → Bool
unfolding trim
can_save s = not (trim s.key_val == "") && not (is_busy s.status)

pub record LlmPanel : Type 0 where
  pub providers : List String
  pub key_map : Dict Bool
  pub loading : Bool
  pub error : String

-- `km`: the providers of the keys that are stored.
abbrev key_map_of : List String → Dict Bool → Dict Bool
key_map_of [] km = km
key_map_of (provider ∷ keys) km = key_map_of keys (insert provider true km)

abbrev or_empty : Option (List String) → List String
or_empty none = []
or_empty (some xs) = xs

unfoldable pub load_started : LlmPanel → LlmPanel
load_started s = record s { error = "" }

-- `load` from the answers on: the providers, and the providers that the keys belong to.
unfoldable pub load_answered :
    Answer (Option (List String) × Option (List String)) → LlmPanel → LlmPanel
unfolding insert
load_answered (resolved (providers, keys)) s = record s {
  providers = or_empty providers;
  key_map = key_map_of (or_empty keys) [];
  loading = false;
}
load_answered (rejected message) s = record s { error = message; loading = false }

-- `hasKey`
unfoldable pub has_key : String → LlmPanel → Bool
unfolding lookup
has_key provider s = is_some (lookup provider s.key_map)

-- The subtitle of the panel.
unfoldable pub subtitle : LlmPanel → String
unfolding to_text
subtitle s =
    let count = length s.key_map in
    if eqb count 0
    then "No providers configured"
    else template (
        to_text (num count)
        ∷ (if eqb count 1 then " provider configured" else " providers configured")
        ∷ [])
