-- ===== src/Window/Stop.antt =====
-- Two ways in which a stream goes wrong: it is stopped, and a chunk arrives before an effect.
use mathlib.Core.Option
use Prim.Native.String
use sync_tex.Base.{
  ℕ, String, Option, none, some, List, [], ◌∷◌, ◌++◌, map, ◌==◌, Bool, true, false, ◌≡◌, refl, ap,
  ◌∙◌, arith, Bool-cases, inl, inr, All, Value, to_text, trim,
}
use mathlib.Core.List.{append-nil}
use sync_tex.Tabs.{Chat, FileInfo}
use sync_tex.Stream.{
  Text, Payload, Call, on_chunk, on_done, on_error, value, failed, split_lines, all_but_last,
  handle_lines, stream_chat, stream,
}
use sync_tex.Stream.Calls.{concat, stream_chat_of_chunks}
use sync_tex.Window.{
  Window, Event, called, render, effect, step, run, handle_send, on_call, rendered, effect_ran,
  handle_chat_title_update,
}
use sync_tex.Chats.{update_chat_title}
use sync_tex.Window.Delivery.{messages_of, assistant_message, add_message_lem}

-- The calls among the events.
abbrev pub calls_of : List Event → List Call
calls_of [] = []
calls_of (called now c ∷ es) = c ∷ calls_of es
calls_of (render ∷ es) = calls_of es
calls_of (effect ∷ es) = calls_of es

abbrev pub is_chunk : Call → Bool
is_chunk (on_chunk v) = true
is_chunk (on_done p) = false
is_chunk (on_error message) = false

step-streaming :
    (chat : Chat) (text : String) (e : Event) (w : Window)
    → All (λ c. is_chunk c ≡ true) (calls_of (e ∷ []))
    → (step chat text e w).streaming ≡ w.streaming
unfolding step on_call rendered effect_ran
step-streaming chat text (called now (on_chunk v)) w h = refl
step-streaming chat text (called now (on_done p)) w h = ground (arith, h.0)
step-streaming chat text (called now (on_error message)) w h = ground (arith, h.0)
step-streaming chat text render w h = ground arith
step-streaming chat text effect w h = ground arith

run-streaming :
    (chat : Chat) (text : String) (es : List Event) (w : Window)
    → All (λ c. is_chunk c ≡ true) (calls_of es)
    → (run chat text es w).streaming ≡ w.streaming
unfolding run
run-streaming chat text [] w h = refl
run-streaming chat text (called now c ∷ es) w (h, hs) =
    run-streaming chat text es (step chat text (called now c) w) hs
    ∙ step-streaming chat text (called now c) w (h, tt)
run-streaming chat text (render ∷ es) w h =
    run-streaming chat text es (step chat text render w) h ∙ step-streaming chat text render w tt
run-streaming chat text (effect ∷ es) w h =
    run-streaming chat text es (step chat text effect w) h ∙ step-streaming chat text effect w tt

handle_send_of_streaming :
    (now : ℕ) (context : Option FileInfo) (chat : Option Chat) (w : Window)
    → w.streaming ≡ true
    → handle_send now context chat w ≡ (none, w)
unfolding handle_send
handle_send_of_streaming now context none w h = refl
handle_send_of_streaming now context (some chat) w h = elim (Bool-cases (trim w.input == "")) [
  | inl empty ↦ simp (empty, h) refl
  | inr given ↦ simp (given, h) refl
]

-- `handleStop` aborts the request. If the stream held nothing but chunks until then, however they
-- were cut and whatever is rendered in between, the window goes on streaming after its last event,
-- and whatever is typed then is not sent.
pub stop_keeps_streaming :
    (parse : Text → Option Payload) (chunks : List Text) (message : String) (chat : Chat)
    (text : String) (es : List Event) (w : Window) (now : ℕ) (context : Option FileInfo)
    (typed : String)
    → w.streaming ≡ true
    → All (λ c. is_chunk c ≡ true) (handle_lines parse (all_but_last (split_lines (concat chunks))))
    → calls_of es ≡ stream_chat parse (stream (map value chunks ++ failed true message ∷ []))
    → let w' = run chat text es w in
      (w'.streaming ≡ true)
      × (handle_send now context (some chat) (record w' { input = typed })
          ≡ (none, record w' { input = typed }))
stop_keeps_streaming parse chunks message chat text es w now context typed streaming only_chunks
      same =
    let e = same ∙ (stream_chat_of_chunks parse chunks true message []).1 ∙ append-nil _ in
    let on = run-streaming chat text es w (rw e only_chunks) ∙ streaming in
    (
      on,
      handle_send_of_streaming now context (some chat)
          (record (run chat text es w) { input = typed }) on,
    )

-- A chunk that arrives between a render and its effect is lost: the effect sets the text back to what
-- was rendered, and if the answer ends before the next render, the message lacks the chunk.
pub chunk_lost :
    (chat : Chat) (text : String) (now : ℕ) (first second : Value) (p : Payload) (w : Window)
    → w.rendered_buffer ≡ none
    → (String.◌++◌ w.stream_buf_ref (to_text first) == w.last_rendered) ≡ false
    → (chat.id == "") ≡ false
    → messages_of chat.id (
        run chat text
          (called now (on_chunk first)
            ∷ render
            ∷ called now (on_chunk second)
            ∷ effect
            ∷ called now (on_done p)
            ∷ [])
          w)
      ≡ messages_of chat.id w
        ++ assistant_message (String.◌++◌ w.stream_buf_ref (to_text first)) now ∷ []
unfolding run step on_call rendered effect_ran handle_chat_title_update update_chat_title
chunk_lost chat text now first second p w no_effect changed given =
    let received = String.◌++◌ w.stream_buf_ref (to_text first) in
    let added =
      ap (λ o. Option.get_or o [])
        (add_message_lem chat.id (assistant_message received now) w.chats given) in
    elim (Bool-cases (chat.title == "")) [
      | inl untitled ↦ rw (no_effect, changed, untitled) added
      | inr titled ↦ rw (no_effect, changed, titled) added
    ]
