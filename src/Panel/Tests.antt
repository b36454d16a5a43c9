-- ===== src/Panel/Tests.antt =====
-- The rows of connected editors at a concrete list, and the panel's handlers at some answers.
use sync_tex.Base.{
  Distinct, ℕ, String, none, some, List, [], ◌∷◌, ◌≡◌, refl, true, false, resolved, undefined, str,
  map, lookup, Value, ◌++◌,
}
use sync_tex.Collab.User.{User}
use sync_tex.Collab.Presence.{AwarenessUser}
use sync_tex.Panel.{
  tab_selected, members, Panel, share, Link, handle_generate_link, handle_revoke_link,
}
use sync_tex.Markup.{titles}
use sync_tex.Panel.Shown.{collaborators_panel}
use sync_tex.Panel.Rows.{first_row, first_editor_shown, count, keys}
use sync_tex.Panel.People.{
  Person, by_key, primary_key, rows_by_user, live_row, live_editor_rows, get_display_name,
  get_person_keys, get_initial,
}

abbrev user : String → String → User
user id name = record { id = id; name = name; email = ""; avatar_url = ""; color = some "#336699" }

abbrev editor : ℕ → String → String → AwarenessUser
editor client id name = record { client_id = client; is_local = false; user = user id name }

abbrev ada : Person
ada = record {
  user_id = str "u1";
  id = undefined;
  email = str "ada@example.org";
  name = str "Ada";
  avatar_url = undefined;
  avatar_url_camel = undefined;
  picture = str "ada.png";
  color = undefined;
  role = str "editor";
  invited_at = str "2026-02-01";
}

-- Two tabs of one member and a guest.
abbrev two_tabs : List AwarenessUser
two_tabs = editor 4 "u1" "Ada L." ∷ editor 9 "u2" "Bob" ∷ editor 5 "u1" "Ada" ∷ []

keys_of_member : get_person_keys ada ≡ "u1" ∷ "ada@example.org" ∷ []
unfolding get_person_keys
keys_of_member = refl

one_row_each :
    map get_display_name (live_editor_rows (λ a b. false) (ada ∷ []) two_tabs)
    ≡ "Ada L." ∷ "Bob" ∷ []
unfolding live_editor_rows get_display_name lookup primary_key live_row
one_row_each = refl

initial_of_email : get_initial (λ s. s) (some "  ") (some "bob@example.org") ≡ "b"
unfolding get_initial
initial_of_email = refl

abbrev link : String → Link
link id = record {
  invite_id = id;
  link = "https://x/join";
  role = "viewer";
  created_at = undefined;
  joined_count = none;
}

abbrev opened : Panel
opened = record {
  active_tab = share;
  links = [];
  collaborators = ada ∷ [];
  loading = false;
  error = none;
  selected_access_level = "viewer";
  copied_link_id = none;
}

made_and_revoked :
    (handle_revoke_link true "i1"
      (resolved tt)
      (handle_generate_link (resolved (link "i1")) opened)).links
    ≡ []
unfolding handle_revoke_link handle_generate_link
made_and_revoked = refl

abbrev plain : String → String
plain s = s

abbrev no_day : Value → String
no_day v = "Invalid Date"

first_editor_shown_example :
    Distinct (keys (rows_by_user (by_key (ada ∷ [])) two_tabs []))
    × (lookup "u1" (rows_by_user (by_key (ada ∷ [])) two_tabs [])
        ≡ first_row (by_key (ada ∷ [])) "u1" two_tabs)
    × (count (λ _. true) (live_editor_rows (λ a b. false) (ada ∷ []) two_tabs)
        ≡ count (λ _. true) (map (λ entry. entry.1) (rows_by_user (by_key (ada ∷ [])) two_tabs [])))
    × (titles
          (collaborators_panel (λ a b. false) plain no_day two_tabs (tab_selected members opened))
        ≡ map get_display_name (live_editor_rows (λ a b. false) (ada ∷ []) two_tabs)
          ++ "Remove collaborator" ∷ [])
first_editor_shown_example =
    first_editor_shown (λ a b. false) plain no_day two_tabs opened "u1" (λ _. true)
