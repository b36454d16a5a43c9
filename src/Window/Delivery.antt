-- ===== src/Window/Delivery.antt =====
-- A message that is sent, and the answer to it, arrive in the chat.
use mathlib.Core.Option
use Prim.Native.String
use text.Mathlib.TextLemmas
use text.Mathlib.TextLemmas.{append_assoc}
use sync_tex.Base.{
  ℕ, String, Option, none, some, List, [], ◌∷◌, ◌++◌, ◌==◌, eq_refl, false, ◌≡◌, refl, sym, ap, ◌∙◌,
  arith, Bool-cases, inl, inr, Value, to_text, trim, lookup, lookup-insert,
}
use sync_tex.Tabs.{Chat, FileInfo}
use sync_tex.Chats.{Chats, update_chat_messages, update_chat_title}
use sync_tex.Stream.{on_chunk, on_done, Payload}
use sync_tex.Window.{
  Window, Message, Event, called, render, effect, user, assistant, step, run, stamp, on_call,
  handle_send, rendered, effect_ran, add_message, handle_chat_title_update,
}

-- What happens while an answer streams: a chunk arrives, or React renders and runs the effect before
-- anything else happens.
pub data Item : Type 0 where
  chunk : Value → Item
  settled : Item

abbrev pub events : List Item → List Event
events [] = []
events (chunk v ∷ items) = called 0 (on_chunk v) ∷ events items
events (settled ∷ items) = render ∷ effect ∷ events items

abbrev pub text_of : List Item → String
text_of [] = ""
text_of (chunk v ∷ items) = String.◌++◌ (to_text v) (text_of items)
text_of (settled ∷ items) = text_of items

-- The window shows what it has received, and no effect is left to run.
pub record Synced (received : String) (v w : Window) : Type 0 where
  pub ref : w.stream_buf_ref ≡ received
  pub buffer : w.stream_buffer ≡ received
  pub no_effect : w.rendered_buffer ≡ none
  pub streaming : w.streaming ≡ v.streaming
  pub chats : w.chats ≡ v.chats
  pub error : w.error ≡ v.error

settled-Synced :
    (received : String) (v w : Window)
    → Synced received v w
    → Synced received v (effect_ran (rendered w))
unfolding effect_ran rendered
settled-Synced received v w h = elim (Bool-cases (w.stream_buffer == w.last_rendered)) [
  | inl same ↦ ground (arith, same, h.no_effect)
  | inr changed ↦ ground (arith, changed, h.no_effect)
]

chunk-Synced :
    (chat : Chat) (text : String) (c : Value) (received : String) (v w : Window)
    → Synced received v w
    → Synced (String.◌++◌ received (to_text c)) v (on_call chat text 0 (on_chunk c) w)
unfolding on_call
chunk-Synced chat text c received v w h = record {
  ref = ap (λ s. String.◌++◌ s (to_text c)) h.ref;
  buffer = ap (λ s. String.◌++◌ s (to_text c)) h.ref;
  no_effect = h.no_effect;
  streaming = h.streaming;
  chats = h.chats;
  error = h.error;
}

run-Synced :
    (chat : Chat) (text : String) (items : List Item) (received : String) (v w : Window)
    → Synced received v w
    → Synced (String.◌++◌ received (text_of items)) v (run chat text (events items) w)
unfolding run step
run-Synced chat text [] received v w h = rw (TextLemmas.append-nil received) h
run-Synced chat text (chunk c ∷ items) received v w h =
    rw (sym (append_assoc received (to_text c) (text_of items))) (
      run-Synced chat text items (String.◌++◌ received (to_text c)) v
        (on_call chat text 0 (on_chunk c) w) (chunk-Synced chat text c received v w h))
run-Synced chat text (settled ∷ items) received v w h =
    run-Synced chat text items received v (effect_ran (rendered w)) (settled-Synced received v w h)

run-append :
    (chat : Chat) (text : String) (es fs : List Event) (w : Window)
    → run chat text (es ++ fs) w ≡ run chat text fs (run chat text es w)
unfolding run
run-append chat text [] fs w = refl
run-append chat text (e ∷ es) fs w = run-append chat text es fs (step chat text e w)

abbrev pub user_message : String → ℕ → Message
user_message text now = record { id = stamp "local-" now; role = user; content = text }

abbrev pub assistant_message : String → ℕ → Message
assistant_message text now = record { id = stamp "asst-" now; role = assistant; content = text }

abbrev pub messages_of : String → Window → List Message
messages_of chat_id w = Option.get_or (lookup chat_id w.chats.messages_by_chat_id) []

pub add_message_lem :
    (id : String) (m : Message) (c : Chats Message)
    → (id == "") ≡ false
    → lookup id (add_message id m c).messages_by_chat_id
      ≡ some (Option.get_or (lookup id c.messages_by_chat_id) [] ++ m ∷ [])
unfolding add_message update_chat_messages
add_message_lem id m c given = rw (given, lookup-insert, eq_refl id) refl

on_done_lem :
    (chat : Chat) (text : String) (now : ℕ) (p : Payload) (received : String) (v w : Window)
    → (chat.id == "") ≡ false
    → Synced received v w
    → let w' = on_call chat text now (on_done p) w in
      (w'.streaming ≡ false)
      × (w'.stream_buffer ≡ "")
      × (messages_of chat.id w' ≡ messages_of chat.id v ++ assistant_message received now ∷ [])
unfolding on_call handle_chat_title_update update_chat_title
on_done_lem chat text now p received v w given h =
    let added =
      ap (λ o. Option.get_or o [])
        (add_message_lem chat.id (assistant_message w.stream_buf_ref now) w.chats given)
      ∙ ap (λ s. messages_of chat.id w ++ assistant_message s now ∷ []) h.ref
      ∙ ap
          (λ (c : Chats Message).
            Option.get_or (lookup chat.id c.messages_by_chat_id) []
            ++ assistant_message received now ∷ [])
          h.chats in
    elim (Bool-cases (chat.title == "")) [
      | inl untitled ↦ rw untitled (refl, refl, added)
      | inr titled ↦ rw titled (refl, refl, added)
    ]

handle_send-Synced :
    (now : ℕ) (context : Option FileInfo) (chat : Chat) (w : Window)
    → w.streaming ≡ false
    → w.rendered_buffer ≡ none
    → (trim w.input == "") ≡ false
    → (chat.id == "") ≡ false
    → let w' = (handle_send now context (some chat) w).1 in
      Synced "" w' w'
      × (messages_of chat.id w' ≡ messages_of chat.id w ++ user_message (trim w.input) now ∷ [])
unfolding handle_send
handle_send-Synced now context chat w idle no_effect given there =
    rw (given, idle)
      (
        record {
          ref = refl;
          buffer = refl;
          no_effect = no_effect;
          streaming = refl;
          chats = refl;
          error = refl;
        },
        ap (λ o. Option.get_or o [])
            (add_message_lem chat.id (user_message (trim w.input) now) w.chats there),
      )

-- However the answer is cut into chunks, and however often React renders in between, provided that the
-- effect of a render runs before the next chunk arrives: a message that is sent from an idle window
-- and answered to the end is in its chat, trimmed, and after it the whole answer; and the window is
-- idle again and shows no partial text.
pub reply_delivered :
    (now later : ℕ) (context : Option FileInfo) (chat : Chat) (items : List Item) (p : Payload)
    (w : Window)
    → w.streaming ≡ false
    → w.rendered_buffer ≡ none
    → (trim w.input == "") ≡ false
    → (chat.id == "") ≡ false
    → let w' =
        run chat
          (trim w.input)
          (events items ++ called later (on_done p) ∷ [])
          (handle_send now context (some chat) w).1 in
      (w'.streaming ≡ false)
      × (w'.stream_buffer ≡ "")
      × (messages_of chat.id w'
          ≡ (messages_of chat.id w ++ user_message (trim w.input) now ∷ [])
            ++ assistant_message (text_of items) later ∷ [])
unfolding run step
reply_delivered now later context chat items p w idle no_effect given there =
    let sent = (handle_send now context (some chat) w).1 in
    let (start, user_there) = handle_send-Synced now context chat w idle no_effect given there in
    let at_end = run chat (trim w.input) (events items) sent in
    let (stopped, cleared, all) =
      on_done_lem chat (trim w.input) later p (text_of items) sent at_end there (
        rw (TextLemmas.nil-append (text_of items)) at
          (run-Synced chat (trim w.input) items "" sent sent start)) in
    rw (run-append chat (trim w.input) (events items) (called later (on_done p) ∷ []) sent) (
      stopped,
      cleared,
      all ∙ ap (λ ms. ms ++ assistant_message (text_of items) later ∷ []) user_there,
    )
