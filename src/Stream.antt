-- ===== src/Stream.antt =====
-- `streamChat` of frontend/src/api/llm.js: the answer of the assistant as server-sent events. Texts are
-- lists of UTF-16 units. `JSON.parse` is a parameter, none where it throws or gives null, whose fields cannot be read;
-- the chunks' bytes are decoded already.
pub mod Lines
pub mod Calls
mod Tests
use sync_tex.Base.{
  ℕ, zero, suc, String, Option, none, some, List, [], ◌∷◌, ◌++◌, Bool, true, false, not, ◌&&◌,
  if◌then◌else◌, eqb, drop, Value, undefined, null, bool, num, str, truthy, to_text, coalesce,
  units,
}
use Prim.Native.String

abbrev pub Text : Type 0
Text = List ℕ

-- What `payload.error`, `payload.done` and `payload.chunk` give.
pub record Payload : Type 0 where
  pub error : Value
  pub done : Value
  pub chunk : Value

pub data Call : Type 0 where
  on_error : String → Call
  on_done : Payload → Call
  on_chunk : Value → Call

abbrev cons_head : ℕ → List Text → List Text
cons_head c [] = (c ∷ []) ∷ []
cons_head c (line ∷ lines) = (c ∷ line) ∷ lines

-- `s.split('\n')`
unfoldable pub split_lines : Text → List Text
split_lines [] = [] ∷ []
split_lines (c ∷ s) = let rest = split_lines s in if eqb c 10 then [] ∷ rest else cons_head c rest

-- `lines.pop()`: what it removes, and what it leaves.
abbrev pub popped : List Text → Text
popped [] = []
popped (line ∷ []) = line
popped (line ∷ next ∷ lines) = popped (next ∷ lines)

abbrev pub all_but_last : List Text → List Text
all_but_last [] = []
all_but_last (line ∷ []) = []
all_but_last (line ∷ next ∷ lines) = line ∷ all_but_last (next ∷ lines)

unfoldable pub starts_with : Text → Text → Bool
starts_with [] s = true
starts_with (c ∷ cs) [] = false
starts_with (c ∷ cs) (d ∷ s) = eqb c d && starts_with cs s

abbrev data_prefix : Text
data_prefix = b'd' ∷ b'a' ∷ b't' ∷ b'a' ∷ b':' ∷ b' ' ∷ []

abbrev is_nullish : Value → Bool
is_nullish undefined = true
is_nullish null = true
is_nullish _ = false

unfoldable pub handle_payload : Payload → List Call
unfolding to_text
handle_payload p =
    if truthy p.error
    then on_error (to_text p.error) ∷ []
    else if truthy p.done
    then on_done p ∷ []
    else if not (is_nullish p.chunk)
    then on_chunk p.chunk ∷ []
    else []

-- What one `reader.read()` gives: a decoded chunk, the end, or a failure.
pub data Read : Type 0 where
  value : Text → Read
  end : Read
  failed : Bool → String → Read

module _ (parse : Text → Option Payload) where
  abbrev handle_parsed : Option Payload → List Call
  handle_parsed none = []
  handle_parsed (some p) = handle_payload p

  -- The body of the loop over the lines; a line that does not parse is skipped.
  unfoldable pub handle_line : Text → List Call
  unfolding starts_with handle_payload
  handle_line line =
      if starts_with data_prefix line then handle_parsed (parse (drop 6 line)) else []

  unfoldable pub handle_lines : List Text → List Call
  unfolding handle_line
  handle_lines [] = []
  handle_lines (line ∷ lines) = handle_line line ++ handle_lines lines

  -- The `while (true)` loop, over what the reads give; an `AbortError` is not reported.
  unfoldable pub read_loop : Text → List Read → List Call
  unfolding split_lines handle_lines
  read_loop buf [] = []
  read_loop buf (end ∷ reads) = []
  read_loop buf (failed aborted message ∷ reads) = if aborted then [] else on_error message ∷ []
  read_loop buf (value chunk ∷ reads) =
      let lines = split_lines (buf ++ chunk) in
      handle_lines (all_but_last lines) ++ read_loop (popped lines) reads

  -- What `authFetch` gives: a rejection, an error status with the `detail` of its body (an object), or a stream.
  pub data Response : Type 0 where
    rejected : Bool → String → Response
    error_status : Value → ℕ → Response
    stream : List Read → Response

  unfoldable pub stream_chat : Response → List Call
  unfolding read_loop to_text
  stream_chat (rejected aborted message) = if aborted then [] else on_error message ∷ []
  stream_chat (error_status detail status) =
      on_error (to_text (coalesce detail (str (String.◌++◌ "HTTP " (to_text (num status)))))) ∷ []
  stream_chat (stream reads) = read_loop [] reads
