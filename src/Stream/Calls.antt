-- ===== src/Stream/Calls.antt =====
-- The calls that a stream makes do not depend on how the network cuts it into chunks.
use sync_tex.Base.{
  String, List, [], ◌∷◌, ◌++◌, map, Bool, ◌≡◌, refl, sym, ◌∙◌, if◌then◌else◌, Option,
}
use mathlib.Core.List.{append_assoc, append-nil}
use sync_tex.Stream.{
  Text, Payload, on_error, Read, value, end, failed, split_lines, popped, all_but_last, handle_line,
  handle_lines, read_loop, stream_chat, stream,
}
use sync_tex.Stream.Lines.{
  split_lines-append, split_lines-popped, all_but_last-append, popped-append,
}

abbrev pub concat : List Text → Text
concat [] = []
concat (t ∷ ts) = t ++ concat ts

module _ (parse : Text → Option Payload) where
  handle_lines-append :
      (xs ys : List Text)
      → handle_lines parse (xs ++ ys) ≡ handle_lines parse xs ++ handle_lines parse ys
  unfolding handle_lines
  handle_lines-append [] ys = refl
  handle_lines-append (x ∷ xs) ys =
      rw (handle_lines-append xs ys) (sym (append_assoc (handle_line parse x) _ _))

  read_loop-chunks :
      (buf : Text) (chunks : List Text) (rest : List Read)
      → split_lines buf ≡ buf ∷ []
      → read_loop parse buf (map value chunks ++ rest)
        ≡ handle_lines parse (all_but_last (split_lines (buf ++ concat chunks)))
          ++ read_loop parse (popped (split_lines (buf ++ concat chunks))) rest
  unfolding read_loop
  read_loop-chunks buf [] rest h = rw (append-nil, h)
  read_loop-chunks buf (c ∷ chunks) rest h =
      let ls = split_lines (buf ++ c) in
      let ih = read_loop-chunks (popped ls) chunks rest (split_lines-popped (buf ++ c)) in
      rw
        (
          ih,
          sym (append_assoc buf c (concat chunks)),
          split_lines-append (buf ++ c) (concat chunks),
          all_but_last-append (all_but_last ls) (popped ls ++ concat chunks),
          popped-append (all_but_last ls) (popped ls ++ concat chunks),
          handle_lines-append (all_but_last ls)
              (all_but_last (split_lines (popped ls ++ concat chunks))),
        )
        (sym (append_assoc (handle_lines parse (all_but_last ls)) _ _))

  -- However the network cuts a text into chunks, a stream makes the calls of the text's complete lines
  -- in their order, and drops an incomplete last line. Where it ends in a failure, that is reported
  -- after them, unless the request was aborted.
  pub stream_chat_of_chunks :
      (chunks : List Text) (aborted : Bool) (message : String) (later : List Read)
      → (stream_chat parse (stream (map value chunks ++ end ∷ later))
          ≡ handle_lines parse (all_but_last (split_lines (concat chunks))))
        × (stream_chat parse (stream (map value chunks ++ failed aborted message ∷ later))
            ≡ handle_lines parse (all_but_last (split_lines (concat chunks)))
              ++ (if aborted then [] else on_error message ∷ []))
  unfolding stream_chat read_loop
  stream_chat_of_chunks chunks aborted message later = (
    read_loop-chunks [] chunks (end ∷ later) refl ∙ append-nil _,
    read_loop-chunks [] chunks (failed aborted message ∷ later) refl,
  )
