-- ===== src/Dashboard/Modals.antt =====
-- The forms of frontend/src/components/Dashboard: NewProjectModal.jsx, ImportModal.jsx and
-- JoinProjectModal.jsx. What a request comes to is an argument.
use Prim.Native.Char.{code}
use Prim.Native.String
use sync_tex.Base.{
  ℕ, String, Option, none, some, [], ◌∷◌, ◌==◌, Bool, not, ◌&&◌, ◌||◌, if◌then◌else◌, leb, ltb, eqb,
  trim, units, length, or_else, Answer, resolved, rejected, template,
}
use sync_tex.Clients.{Reply, lost, replied, is_ok}

-- How a submission ends: the form stays, with a message or none, or the caller goes on.
pub data Outcome : Type 0 where
  stays : Option String → Outcome
  goes_on : Outcome

abbrev of_reply {ℓ} : {A : Type ℓ} → String → Reply A → Outcome
of_reply message (lost failure) = stays (some message)
of_reply message (replied r) = if is_ok r.status then goes_on else stays (some message)

-- `handleSubmit` of `NewProjectModal`: what is posted to /projects/v1/projects, if anything is, and
-- what comes of it.
unfoldable pub create_submitted {ℓ} : {A : Type ℓ} → String → Reply A → Option String × Outcome
unfolding trim
create_submitted project_name reply =
    if trim project_name == ""
    then (none, stays (some "Please enter a project name"))
    else (some project_name, of_reply "Failed to create project. Please try again." reply)

-- `handleSubmit` of `ImportModal`.
unfoldable pub import_submitted {ℓ κ} : {A : Type ℓ} {F : Type κ} → Option F → Reply A → Outcome
import_submitted none reply = stays (some "Please select a file to import")
import_submitted (some file) reply = of_reply "Failed to import project. Please try again." reply

-- `[a-zA-Z0-9_-]`
abbrev pub is_word : ℕ → Bool
is_word c =
    leb 97 c && leb c 122 || leb 65 c && leb c 90 || leb 48 c && leb c 57 || eqb c 95 || eqb c 45

-- `[a-zA-Z0-9_-]*`, as far as it goes.
unfoldable pub word_prefix : String → String
word_prefix String.[] = ""
word_prefix (String.◌∷◌ c s) =
    let rest = word_prefix s in if is_word (code c) then String.◌∷◌ c rest else ""

-- The text after a prefix that it has.
unfoldable pub after : String → String → Option String
after String.[] s = some s
after (String.◌∷◌ c prefix) String.[] = none
after (String.◌∷◌ c prefix) (String.◌∷◌ d s) =
    let rest = after prefix s in if eqb (code c) (code d) then rest else none

abbrev whole_word : Option String → Option String
whole_word none = none
whole_word (some s) = if not (s == "") && (word_prefix s == s) then some s else none

abbrev first_word : Option String → Option String
first_word none = none
first_word (some s) = if word_prefix s == "" then none else some (word_prefix s)

-- `link.match(/\/join\/([a-zA-Z0-9_-]+)$/)`
unfoldable pub url_match : String → Option String
unfolding after word_prefix
url_match String.[] = none
url_match (String.◌∷◌ c s) =
    let rest = url_match s in or_else (whole_word (after "/join/" (String.◌∷◌ c s))) rest

-- `link.match(/[?&]token=([a-zA-Z0-9_-]+)/)`
unfoldable pub query_match : String → Option String
unfolding after word_prefix
query_match String.[] = none
query_match (String.◌∷◌ c s) =
    let rest = query_match s in
    or_else
      (or_else (first_word (after "?token=" (String.◌∷◌ c s)))
        (first_word (after "&token=" (String.◌∷◌ c s))))
      rest

-- `link.split('/').pop()`, from the text that follows the last slash before it.
unfoldable pub last_segment : String → String → String
last_segment read String.[] = read
last_segment read (String.◌∷◌ c s) =
    let onward = last_segment (String.◌++◌ read (String.◌∷◌ c String.[])) s in
    let anew = last_segment "" s in if eqb (code c) 47 then anew else onward

-- `extractTokenFromLink`; `url_token` is the `token` that `URL` finds in the link's query, if any.
unfoldable pub extract_token_from_link : (String → Option String) → String → String
unfolding url_match query_match last_segment units
extract_token_from_link url_token link =
    let segment = last_segment "" link in
    let guess = if ltb 10 (length (units segment)) then segment else link in
    elim (or_else (url_token link) (or_else (url_match link) (query_match link))) [
      | none ↦ guess
      | some token ↦ token
    ]

-- What `handleSubmit` of `JoinProjectModal` asks `acceptCollaboratorLink` for, if anything.
unfoldable pub join_request : (String → Option String) → String → Option String
unfolding trim extract_token_from_link
join_request url_token invite_link =
    if trim invite_link == ""
    then none
    else some (extract_token_from_link url_token (trim invite_link))

-- How it ends: the message that is shown, or the page that it leads to. The answer is the project's id.
pub data Joining : Type 0 where
  refused : String → Joining
  led_to : String → Joining

unfoldable pub join_answered : Answer String → Joining
join_answered (resolved project_id) =
    if project_id == ""
    then refused "Invalid response from server"
    else led_to (template ("/project/" ∷ project_id ∷ []))
join_answered (rejected message) =
    refused
      (if message == "" then "Failed to join project. Check your link and try again." else message)
