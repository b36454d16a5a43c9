-- ===== src/Window/Shown.antt =====
-- What the chat window shows: ChatWindow.jsx, MessageList.jsx and ChatSidebar.jsx of
-- frontend/src/components/Editor/AIPanel. What ReactMarkdown makes of a text is a parameter.
use sync_tex.Base.{
  ℕ, String, Option, none, some, List, [], ◌∷◌, ◌==◌, Bool, true, false, not, ◌&&◌, if◌then◌else◌,
  is_some, template, trim, ◌≡◌, refl, Bool-cases, inl, inr, arith,
}
use sync_tex.Markup.{
  Markup, text, element, titled, handles, disabled, blank, ◌&◌, shown_if, each, button,
}
use sync_tex.Tabs.{Chat, FileInfo}
use sync_tex.Window.{Role, user, assistant, Message, Window, Prompt, can_send, handle_send}

pub data Call : Type 0 where
  new_chat stop send type_text press_key : Call
  select_chat delete_chat : String → Call

module _ (markdown : String → Markup Call) where
  abbrev of_assistant : String → Markup Call → Markup Call
  of_assistant class_name v =
      element "div" "ai-message assistant"
        (element "span" "ai-message-role" (text "Assistant") & element "div" class_name v)

  -- `Message`
  unfoldable pub message : Role → String → Markup Call
  message assistant content =
      of_assistant "ai-message-bubble ai-message-markdown" (markdown content)
  message user content = element "div" "ai-message user" (
      element "span" "ai-message-role" (text "You")
      & element "div" "ai-message-bubble " (element "span" "" (text content)))

  abbrev live : String → Markup Call
  live buffer =
      if buffer == ""
      then of_assistant "ai-message-bubble" (element "span" "ai-stream-cursor" blank)
      else of_assistant "ai-message-bubble ai-message-markdown"
          (markdown buffer & element "span" "ai-stream-cursor" blank)

  abbrev is_none : List Message → Bool
  is_none [] = true
  is_none (m ∷ ms) = false

  -- `MessageList`
  unfoldable pub message_list : List Message → Bool → String → Bool → Markup Call
  unfolding message
  message_list messages loading stream_buffer streaming =
      if loading
      then element "div" "ai-panel-loading"
          (element "span" "ai-spinner" blank & text "Loading messages…")
      else element "div" "ai-message-list" (
          shown_if (is_none messages && not streaming) (
            element "div" "ai-empty-state" (element "p" "" (text "Send a message to get started.")))
          & each messages (λ m. message m.role m.content)
          & shown_if streaming (live stream_buffer))

  abbrev send_button : Option Chat → Window → Markup Call
  send_button chat w =
      if w.streaming
      then titled "Stop generation" (button "ai-send-btn ai-stop-btn" false stop "")
      else titled "Send (Enter)" (button "ai-send-btn" (not (can_send chat w)) send "")

  abbrev error_banner : Option String → Markup Call
  error_banner none = blank
  error_banner (some e) = shown_if (not (e == "")) (element "div" "ai-error-banner" (text e))

  abbrev file_badge : Option FileInfo → Markup Call
  file_badge none = blank
  file_badge (some f) = element "span" "ai-model-badge" (text f.filename)

  abbrev placeholder : String
  placeholder = "Ask anything… (Enter to send, Shift+Enter for newline)"

  abbrev input_area : Option Chat → Option FileInfo → Window → Markup Call
  input_area chat context_file w = element "div" "ai-input-area" (
      element "div" "ai-input-row" (
        disabled w.streaming (
          handles (type_text ∷ press_key ∷ []) (
            element "textarea" "ai-input-textarea"
              (text (if w.input == "" then placeholder else w.input))))
        & send_button chat w)
      & element "div" "ai-input-meta" (
          element "span" "ai-input-hint" (text "Shift+Enter for newline")
          & file_badge context_file))

  abbrev top_bar : Option Chat → Markup Call
  top_bar none =
      element "span" "ai-topbar-title placeholder" (text "Select or create a chat")
      & titled "New chat" (button "ai-topbar-new-btn" false new_chat "New chat")
  top_bar (some c) =
      element "span" "ai-topbar-title" (text (if c.title == "" then "Untitled chat" else c.title))
      & titled "New chat" (button "ai-topbar-new-btn" false new_chat "New chat")

  abbrev chat_area : Option Chat → Option FileInfo → List Message → Bool → Window → Markup Call
  chat_area none context_file messages loading w = element "div" "ai-empty-state" (
      element "p" "" (text "Select a chat from the list," & text "or start a new one.")
      & button "ai-empty-new-btn" false new_chat "New chat")
  chat_area (some c) context_file messages loading w =
      message_list messages loading w.stream_buffer w.streaming
      & error_banner w.error
      & input_area (some c) context_file w

  -- `ChatWindow`
  unfoldable pub chat_window :
      Option Chat → Option FileInfo → List Message → Bool → Window → Markup Call
  unfolding message_list can_send
  chat_window chat context_file messages loading w = element "div" "ai-chat-main" (
      element "div" "ai-chat-topbar" (top_bar chat)
      & chat_area chat context_file messages loading w)

-- `onChange` of the input, which is disabled while the answer streams.
unfoldable pub input_changed : String → Window → Window
input_changed value w = if w.streaming then w else record w { input = value }

-- `handleKeyDown`: the key sends, unless Shift is held.
unfoldable pub key_pressed :
    String → Bool → ℕ → Option FileInfo → Option Chat → Window → Option Prompt × Window
unfolding handle_send
key_pressed key shift now context_file chat w =
    if (key == "Enter") && not shift then handle_send now context_file chat w else (none, w)

abbrev is_id : Option String → String → Bool
is_id none id = false
is_id (some other) id = other == id

abbrev chat_item : Option String → Chat → Markup Call
chat_item active_chat_id c = handles (select_chat c.id ∷ []) (
    element "div"
      (template ("ai-chat-item" ∷ (if is_id active_chat_id c.id then " active" else "") ∷ []))
      (element "span" "ai-chat-item-title"
          (text (if c.title == "" then "Untitled chat" else c.title))
        & titled "Delete chat" (button "ai-chat-delete-btn" false (delete_chat c.id) "")))

abbrev no_chat : List Chat → Bool
no_chat [] = true
no_chat (c ∷ cs) = false

-- `ChatSidebar`
unfoldable pub chat_sidebar : List Chat → Bool → Option String → Markup Call
chat_sidebar chats loading active_chat_id = element "div" "ai-chat-sidebar" (
    element "div" "ai-sidebar-header" (
      element "h3" "" (text "Chats")
      & titled "New chat" (button "ai-sidebar-new-btn" false new_chat "New"))
    & element "div" "ai-chat-list" (
        if loading
        then element "div" "ai-chat-empty" (text "Loading…")
        else shown_if (no_chat chats)
            (element "div" "ai-chat-empty" (text "No chats yet." & text "Start a new one!"))
          & each chats (chat_item active_chat_id)))

refused_send :
    (now : ℕ) (context_file : Option FileInfo) (chat : Option Chat) (w : Window)
    → can_send chat w ≡ false
    → handle_send now context_file chat w ≡ (none, w)
unfolding can_send handle_send
refused_send now context_file none w h = refl
refused_send now context_file (some c) w h = elim (Bool-cases (trim w.input == "")) [
  | inl empty ↦ rw empty
  | inr given ↦ elim (Bool-cases w.streaming) [
    | inl streaming ↦ ground (arith, given, streaming)
    | inr idle ↦ ground (arith, h, given, idle)
  ]
]

sent_of_can_send :
    (now : ℕ) (context_file : Option FileInfo) (chat : Option Chat) (w : Window)
    → is_some (handle_send now context_file chat w).0 ≡ can_send chat w
unfolding can_send handle_send
sent_of_can_send now context_file none w = refl
sent_of_can_send now context_file (some c) w = elim (Bool-cases (trim w.input == "")) [
  | inl empty ↦ rw empty
  | inr given ↦ elim (Bool-cases w.streaming) [
    | inl streaming ↦ rw (given, streaming)
    | inr idle ↦ rw (given, idle)
  ]
]

-- The button that sends is enabled exactly when sending makes a request; and a key does what the button
-- does if it is Enter without Shift and the button is enabled, and else nothing.
pub can_send_lem :
    (now : ℕ) (context_file : Option FileInfo) (chat : Option Chat) (key : String) (shift : Bool)
    (w : Window)
    → (is_some (handle_send now context_file chat w).0 ≡ can_send chat w)
      × (key_pressed key shift now context_file chat w ≡ (
          if (key == "Enter") && not shift && can_send chat w
          then handle_send now context_file chat w
          else (none, w)))
unfolding key_pressed
can_send_lem now context_file chat key shift w = (
  sent_of_can_send now context_file chat w,
  elim (Bool-cases ((key == "Enter") && not shift)) [
    | inl enter ↦ elim (Bool-cases (can_send chat w)) [
      | inl enabled ↦ rw (enter, enabled)
      | inr off ↦ rw (enter, off) (refused_send now context_file chat w off)
    ]
    | inr other ↦ rw other
  ],
)
