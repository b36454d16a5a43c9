-- ===== src/Stream/Tests.antt =====
-- The stream's theorem at two chunks that cut a line in its middle.
use sync_tex.Base.{
  Option, none, some, List, [], ◌∷◌, ◌++◌, map, false, ◌≡◌, refl, undefined, str, eqb,
  if◌then◌else◌,
}
use sync_tex.Stream.{
  Text, Payload, on_error, on_chunk, value, end, failed, split_lines, all_but_last, data_prefix,
  handle_lines, stream_chat, stream,
}
use sync_tex.Stream.Calls.{concat, stream_chat_of_chunks}

-- `JSON.parse` for texts that are just "1" or "2".
abbrev parse_digit : Text → Option Payload
parse_digit [] = none
parse_digit (c ∷ cs) =
    if eqb c 49
    then some (record { error = undefined; done = undefined; chunk = str "one" })
    else if eqb c 50
    then some (record { error = undefined; done = undefined; chunk = str "two" })
    else none

abbrev two_chunks : List Text
two_chunks =
    (data_prefix ++ 49 ∷ 10 ∷ b'd' ∷ [])
    ∷ (b'a' ∷ b't' ∷ b'a' ∷ b':' ∷ b' ' ∷ 50 ∷ 10 ∷ 10 ∷ b'd' ∷ [])
    ∷ []

two_chunks-calls :
    stream_chat parse_digit (stream (map value two_chunks ++ end ∷ []))
    ≡ on_chunk (str "one") ∷ on_chunk (str "two") ∷ []
unfolding stream_chat
two_chunks-calls = refl

stream_chat_of_chunks_example :
    (stream_chat parse_digit (stream (map value two_chunks ++ end ∷ []))
      ≡ handle_lines parse_digit (all_but_last (split_lines (concat two_chunks))))
    × (stream_chat parse_digit (stream (map value two_chunks ++ failed false "reset" ∷ []))
        ≡ handle_lines parse_digit (all_but_last (split_lines (concat two_chunks)))
          ++ (if false then [] else on_error "reset" ∷ []))
stream_chat_of_chunks_example = stream_chat_of_chunks parse_digit two_chunks false "reset" []
