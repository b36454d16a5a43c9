-- ===== src/Window/Tests.antt =====
-- The theorems on the window at a chat without messages.
use sync_tex.Base.{
  Option, none, some, is_some, List, [], ◌∷◌, ◌++◌, true, false, ◌≡◌, refl, undefined, str, trim,
  lookup, insert,
}
use sync_tex.Tabs.{Chat, no_tabs}
use sync_tex.Chats.{no_chats}
use sync_tex.Stream.{Text, Payload, on_done, stream_chat}
use sync_tex.Window.{Window, Message, called, render, effect, run, handle_send}
use sync_tex.Window.Shown.{key_pressed}
use sync_tex.Window.Delivery.{
  Item, chunk, settled, events, text_of, messages_of, user_message, assistant_message,
  reply_delivered,
}
use sync_tex.Window.Stop.{stop_keeps_streaming}

abbrev thesis : Chat
thesis = record { id = "c1"; title = "" }

abbrev asked : Window
asked = record {
  input = " Why? ";
  streaming = false;
  stream_buffer = "";
  error = none;
  stream_buf_ref = "";
  rendered_buffer = none;
  last_rendered = "";
  chats = no_chats Message;
  tabs = no_tabs;
}

abbrev finished : Payload
finished = record { error = undefined; done = str "stop"; chunk = undefined }

abbrev answer : List Item
answer = chunk (str "Be") ∷ settled ∷ chunk (str "cause") ∷ []

answer_arrived :
    messages_of "c1" (
      run thesis "Why?"
        (events answer ++ called 8 (on_done finished) ∷ [])
        (handle_send 7 none (some thesis) asked).1)
    ≡ user_message "Why?" 7 ∷ assistant_message "Because" 8 ∷ []
unfolding run handle_send lookup insert trim
answer_arrived = refl

reply_delivered_example :
    let w' =
      run thesis
        (trim " Why? ")
        (events answer ++ called 8 (on_done finished) ∷ [])
        (handle_send 7 none (some thesis) asked).1 in
    (w'.streaming ≡ false)
    × (w'.stream_buffer ≡ "")
    × (messages_of "c1" w'
        ≡ (messages_of "c1" asked ++ user_message (trim " Why? ") 7 ∷ [])
          ++ assistant_message (text_of answer) 8 ∷ [])
unfolding trim
reply_delivered_example = reply_delivered 7 8 none thesis answer finished asked refl refl refl refl

abbrev no_payload : Text → Option Payload
no_payload line = none

abbrev waiting : Window
waiting = record asked { input = ""; streaming = true }

stop_keeps_streaming_example :
    let w' = run thesis "Why?" (render ∷ effect ∷ []) waiting in
    (w'.streaming ≡ true)
    × (handle_send 9 none (some thesis) (record w' { input = "again" })
        ≡ (none, record w' { input = "again" }))
unfolding stream_chat
stop_keeps_streaming_example =
    stop_keeps_streaming no_payload [] "stopped" thesis "Why?" (render ∷ effect ∷ []) waiting 9 none
      "again" refl tt refl

enter_sends : is_some (key_pressed "Enter" false 7 none (some thesis) asked).0 ≡ true
unfolding key_pressed trim
enter_sends = refl
