-- ===== src/Window/Scroll.antt =====
-- Which scrolling frontend/src/components/Editor/AIPanel/MessageList.jsx and ChatWindow.jsx cause.
-- Sizes are whole pixels.
use sync_tex.Base.{
  ℕ, ◌+◌, String, List, [], ◌∷◌, ◌==◌, Bool, true, false, not, ◌&&◌, ◌||◌, ◌≡◌, refl, if◌then◌else◌,
  ltb, Bool-cases, inl, inr,
}
use sync_tex.Explorer.Tools.{ends_with}
use sync_tex.Explorer.Dialogs.{includes}

pub record Scroll : Type 0 where
  -- the listener is on the container that is shown
  pub listening : Bool
  pub should_auto_scroll : Bool
  -- `prevBufferRef.current`
  pub prev_buffer : String
  -- the calls of `scrollIntoView` so far
  pub scrolled : ℕ

-- The first render: the effect that listens runs once, after it.
unfoldable pub mounted : Bool → Scroll
mounted loading = record {
  listening = not loading;
  should_auto_scroll = true;
  prev_buffer = "";
  scrolled = 0;
}

-- While messages are loading the container is not shown; the one that is shown later is new.
unfoldable pub load_began : Scroll → Scroll
load_began s = record s { listening = false }

-- `handleScroll`, with the container's scrollHeight, scrollTop and clientHeight.
unfoldable pub user_scrolled : ℕ → ℕ → ℕ → Scroll → Scroll
user_scrolled height top client s =
    if s.listening then record s { should_auto_scroll = ltb height (top + client + 100) } else s

-- The effect of `MessageList` on the buffer.
unfoldable pub list_effect : String → Scroll → Scroll
unfolding ends_with includes
list_effect buffer s = if not s.should_auto_scroll || (buffer == "") then s else record s {
  scrolled =
      if includes 10 buffer && not (ends_with s.prev_buffer "\n")
      then s.scrolled + 1
      else s.scrolled;
  prev_buffer = buffer;
}

-- The effect of `ChatWindow` on the messages and the buffer.
unfoldable pub window_effect : Scroll → Scroll
window_effect s = record s { scrolled = s.scrolled + 1 }

pub data Event : Type 0 where
  loading : Event
  moved : ℕ → ℕ → ℕ → Event
  streamed : String → Event
  answered : Event

-- A change of the buffer runs both effects, that of the child first; a new message runs the other.
unfoldable pub step : Event → Scroll → Scroll
unfolding load_began user_scrolled list_effect window_effect
step loading s = load_began s
step (moved height top client) s = user_scrolled height top client s
step (streamed buffer) s = window_effect (list_effect buffer s)
step answered s = window_effect s

unfoldable pub run : List Event → Scroll → Scroll
unfolding step
run [] s = s
run (e ∷ es) s = run es (step e s)

abbrev Deaf : Bool → Scroll → Type 0
Deaf follows s = (s.listening ≡ false) × (s.should_auto_scroll ≡ follows)

Deaf-list_effect :
    (b : Bool) (buffer : String) (s : Scroll) → Deaf b s → Deaf b (list_effect buffer s)
unfolding list_effect
Deaf-list_effect b buffer s h = elim (Bool-cases (not s.should_auto_scroll || (buffer == ""))) [
  | inl skipped ↦ rw skipped h
  | inr kept ↦ rw kept h
]

step-Deaf : (b : Bool) (e : Event) (s : Scroll) → Deaf b s → Deaf b (step e s)
unfolding step
step-Deaf b loading s h = unfold load_began in (refl, h.1)
step-Deaf b (moved height top client) s h = unfold user_scrolled in rw h.0 (refl, h.1)
step-Deaf b (streamed buffer) s h = unfold window_effect in Deaf-list_effect b buffer s h
step-Deaf b answered s h = unfold window_effect in h

run-Deaf : (b : Bool) (es : List Event) (s : Scroll) → Deaf b s → Deaf b (run es s)
unfolding run
run-Deaf b [] s h = h
run-Deaf b (e ∷ es) s h = run-Deaf b es (step e s) (step-Deaf b e s h)

-- A list that was mounted while its messages were loading, or whose messages were loaded later, goes on
-- following the answer, or not following it, as it did then, wherever the user scrolls.
pub scrolling_unnoticed :
    (es later : List Event) (at_first : Bool)
    → ((run later (mounted true)).should_auto_scroll ≡ true)
      × ((run later (step loading (run es (mounted at_first)))).should_auto_scroll
          ≡ (run es (mounted at_first)).should_auto_scroll)
unfolding mounted step load_began
scrolling_unnoticed es later at_first = (
  (run-Deaf true later (mounted true) (refl, refl)).1,
  (run-Deaf (run es (mounted at_first)).should_auto_scroll later
      (step loading (run es (mounted at_first))) (refl, refl)).1,
)
