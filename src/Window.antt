-- ===== src/Window.antt =====
-- frontend/src/components/Editor/AIPanel/ChatWindow.jsx: sending a message and showing the answer as
-- it streams, with the chats of frontend/src/hooks/useChatManager.js that it updates through
-- frontend/src/views/EditorView.jsx. Times, which make the ids of messages, are arguments.
pub mod Delivery
pub mod Stop
pub mod Scroll
pub mod Shown
mod Tests
use Prim.Native.String
use sync_tex.Base.{
  ℕ, suc, String, Option, none, some, List, [], ◌∷◌, ◌++◌, ◌==◌, Bool, true, false, not, ◌&&◌, ◌||◌,
  if◌then◌else◌, is_some, Value, to_text, decimal, trim, take_units,
}
use sync_tex.Tabs.{Chat, FileInfo, Tabs, TabPatch, chat_tab_id, update_tab}
use sync_tex.Chats.{Chats, update_chat_messages, update_chat_title}
use sync_tex.Stream.{Call, on_error, on_done, on_chunk}

pub data Role : Type 0 where
  user assistant : Role

pub record Message : Type 0 where
  pub id : String
  pub role : Role
  pub content : String

pub record Window : Type 0 where
  pub input : String
  pub streaming : Bool
  pub stream_buffer : String
  pub error : Option String
  -- `streamBufRef.current`
  pub stream_buf_ref : String
  -- the buffer that was rendered last, where the effect on it has not run yet
  pub rendered_buffer : Option String
  -- the buffer of the last render
  pub last_rendered : String
  pub chats : Chats Message
  pub tabs : Tabs

abbrev is_empty : String → Bool
is_empty s = s == ""

-- `buildSystemPrompt`
unfoldable pub build_system_prompt : Option FileInfo → Option String
build_system_prompt none = none
build_system_prompt (some f) =
    if is_empty f.filename
    then none
    else some (
        String.◌++◌
          "You are a helpful LaTeX assistant embedded in SyncTeX, a collaborative LaTeX editor. "
          (String.◌++◌ "The user is currently editing a file called \"" (
            String.◌++◌ f.filename
              "\". Provide concise, accurate help. When showing LaTeX code, wrap it in code blocks.")))

-- The arguments of `streamChat`.
pub record Prompt : Type 0 where
  pub chat_id : String
  pub message : String
  pub system_prompt : Option String
  pub max_tokens : ℕ

abbrev stamp : String → ℕ → String
stamp name now = String.◌++◌ name (decimal (suc now) now)

-- `onMessagesUpdate` for the chat that was active when the message was sent.
unfoldable pub add_message : String → Message → Chats Message → Chats Message
unfolding update_chat_messages
add_message chat_id m c =
    if is_empty chat_id then c else update_chat_messages chat_id (λ ms. ms ++ m ∷ []) c

abbrev started : String → ℕ → Chat → Window → Window
started text now chat w = record w {
  input = "";
  error = none;
  stream_buf_ref = "";
  streaming = true;
  stream_buffer = "";
  chats =
      add_message chat.id (record { id = stamp "local-" now; role = user; content = text }) w.chats;
}

abbrev send_text : String → ℕ → Option FileInfo → Chat → Window → Option Prompt × Window
send_text text now context_file chat w = if is_empty text || w.streaming then (none, w) else (
  some (record {
    chat_id = chat.id;
    message = text;
    system_prompt = build_system_prompt context_file;
    max_tokens = 2048;
  }),
  started text now chat w,
)

-- `handleSendStable`, and the call of `streamChat` that it makes.
unfoldable pub handle_send : ℕ → Option FileInfo → Option Chat → Window → Option Prompt × Window
unfolding add_message build_system_prompt
handle_send now context_file none w = (none, w)
handle_send now context_file (some chat) w = send_text (trim w.input) now context_file chat w

abbrev title_patch : String → TabPatch
title_patch title = record {
  id = none;
  kind = none;
  resource_id = none;
  title = some title;
  filename = none;
  file = none;
  chat = none;
}

-- `handleChatTitleUpdate`
unfoldable pub handle_chat_title_update : String → String → Window → Window
unfolding update_chat_title update_tab
handle_chat_title_update chat_id title w =
    let next_title = if is_empty title then "Untitled chat" else title in
    record w {
      chats = update_chat_title chat_id next_title w.chats;
      tabs = update_tab (chat_tab_id chat_id) (title_patch next_title) w.tabs;
    }

abbrev answered : Chat → ℕ → Window → Window
answered chat now w = record w {
  streaming = false;
  stream_buffer = "";
  stream_buf_ref = "";
  chats =
      add_message chat.id
        (record { id = stamp "asst-" now; role = assistant; content = w.stream_buf_ref }) w.chats;
}

-- The three callbacks, for the chat and the text of the message that was sent.
unfoldable pub on_call : Chat → String → ℕ → Call → Window → Window
unfolding add_message to_text handle_chat_title_update
on_call chat text now (on_chunk chunk) w = record w {
  stream_buf_ref = String.◌++◌ w.stream_buf_ref (to_text chunk);
  stream_buffer = String.◌++◌ w.stream_buf_ref (to_text chunk);
}
on_call chat text now (on_done payload) w =
    let w' = answered chat now w in
    if is_empty chat.title then handle_chat_title_update chat.id (take_units 60 text) w' else w'
on_call chat text now (on_error message) w = record w {
  streaming = false;
  stream_buffer = "";
  stream_buf_ref = "";
  error = some message;
}

-- The effect on `streamBuffer`, after the render that it belongs to.
unfoldable pub effect_ran : Window → Window
effect_ran w = elim w.rendered_buffer [
  | none ↦ w
  | some buffer ↦ record w { stream_buf_ref = buffer; rendered_buffer = none }
]

abbrev noted : Window → Window
noted w =
    if w.stream_buffer == w.last_rendered
    then w
    else record w { rendered_buffer = some w.stream_buffer; last_rendered = w.stream_buffer }

-- React runs the effects of the render before, and then renders.
unfoldable pub rendered : Window → Window
unfolding effect_ran
rendered w = noted (effect_ran w)

pub data Event : Type 0 where
  called : ℕ → Call → Event
  render : Event
  effect : Event

unfoldable pub step : Chat → String → Event → Window → Window
unfolding on_call rendered effect_ran
step chat text (called now c) w = on_call chat text now c w
step chat text render w = rendered w
step chat text effect w = effect_ran w

unfoldable pub run : Chat → String → List Event → Window → Window
unfolding step
run chat text [] w = w
run chat text (e ∷ es) w = run chat text es (step chat text e w)

-- `canSend`
unfoldable pub can_send : Option Chat → Window → Bool
can_send chat w = is_some chat && not (is_empty (trim w.input)) && not w.streaming
