-- ===== src/Clients/Tests.antt =====
-- The clients' theorems at concrete calls.
use sync_tex.Base.{str, String, none, some, List, [], ◌∷◌, ◌≡◌, refl, true, All, resolved}
use sync_tex.Clients.{Reply, lost, replied, Net, is_ok, request, auth_fetch, fetch, json_or}
use sync_tex.Clients.Items.{save_file_content, put_body}
use sync_tex.Clients.Errors.{status_of, save_file_content-resolved}
use sync_tex.Clients.Secrecy.{IsSafe}
use sync_tex.Clients.Secrecy.Calls

abbrev success : String → Reply String
success content = replied (record {
  status = 200;
  status_text = "OK";
  content = resolved content;
  fault = none;
  text = resolved content;
})

abbrev empty_net : Net
empty_net = record { token = some "t0"; sent = [] }

abbrev two_calls : List (Calls.ClientCall String)
two_calls =
    Calls.save_file_content "p1" "f1" "text" (success "https://storage/f1") (success "")
    ∷ Calls.list_providers (lost "offline")
    ∷ Calls.stream_chat "c1" "Why?" (str "") 2048 (success "")
    ∷ []

token_only_to_own_origin_example :
    All IsSafe (Calls.perform_all String two_calls (record { token = some "t0"; sent = [] })).sent
token_only_to_own_origin_example = Calls.token_only_to_own_origin String two_calls (some "t0")

saved :
    (save_file_content "p1" "f1" "text" (success "https://storage/f1") (success "") empty_net).0
    ≡ resolved tt
unfolding save_file_content request auth_fetch fetch json_or put_body
saved = refl

save_file_content-resolved_example :
    (is_ok (status_of (success "https://storage/f1")) ≡ true)
    × (is_ok (status_of (success "")) ≡ true)
save_file_content-resolved_example =
    save_file_content-resolved "p1" "f1" "text" (success "https://storage/f1") (success "")
      empty_net saved
