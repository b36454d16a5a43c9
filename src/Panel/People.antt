-- ===== src/Panel/People.antt =====
-- The people that frontend/src/components/Editor/CollaboratorsPanel.jsx shows: members, and the editors
-- who are connected.
use sync_tex.Base.{
  is_some, String, Option, none, some, List, [], ◌∷◌, ◌==◌, Bool, false, not, map, keep,
  if◌then◌else◌, Value, undefined, null, num, str, or_value, to_text, trim, Dict, lookup, insert,
  take_units,
}
use sync_tex.Collab.Presence.{AwarenessUser}

-- A member, a live editor or a row made of both; a missing field is undefined.
pub record Person : Type 0 where
  pub user_id : Value
  pub id : Value
  pub email : Value
  pub name : Value
  pub avatar_url : Value
  -- `avatarUrl`
  pub avatar_url_camel : Value
  pub picture : Value
  pub color : Value
  pub role : Value
  pub invited_at : Value

abbrev pub has_text : Value → Bool
has_text undefined = false
has_text null = false
has_text v = not (trim (to_text v) == "")

-- `getPersonKeys`
unfoldable pub get_person_keys : Person → List String
unfolding to_text trim
get_person_keys person =
    map to_text (keep has_text (person.user_id ∷ person.id ∷ person.email ∷ []))

-- `getDisplayName`
unfoldable pub get_display_name : Person → String
unfolding to_text
get_display_name person =
    to_text (or_value person.name (or_value person.email (str "Unknown user")))

-- `getAvatarUrl`
unfoldable pub get_avatar_url : Person → Value
get_avatar_url person =
    or_value person.avatar_url (or_value person.avatar_url_camel (or_value person.picture (str "")))

abbrev initial_or : (String → String) → Option String → String → String
initial_or upper none other = other
initial_or upper (some text) other =
    if trim text == "" then other else upper (take_units 1 (trim text))

-- `getInitial`; the two arguments are the name and the email, and `upper` is `toUpperCase`.
unfoldable pub get_initial : (String → String) → Option String → Option String → String
unfolding trim take_units
get_initial upper name email = initial_or upper name (initial_or upper email "?")

-- `collaboratorsByKey`, `liveEditorsByKey`
abbrev set_keys : Person → List String → Dict Person → Dict Person
set_keys person [] d = d
set_keys person (key ∷ keys) d = set_keys person keys (insert key person d)

abbrev set_people : List Person → Dict Person → Dict Person
set_people [] d = d
set_people (person ∷ people) d = set_people people (set_keys person (get_person_keys person) d)

unfoldable pub by_key : List Person → Dict Person
unfolding insert get_person_keys
by_key people = set_people people []

-- `keys.map((key) => d.get(key)).find(Boolean)`
abbrev first_of : List String → Dict Person → Option Person
first_of [] d = none
first_of (key ∷ keys) d =
    let rest = first_of keys d in elim (lookup key d) [ none ↦ rest | some p ↦ some p ]

abbrev color_value : Option String → Value
color_value none = null
color_value (some color) = str color

-- A live editor's user, which has no `user_id`.
abbrev pub editor_person : AwarenessUser → Person
editor_person editor = record {
  user_id = undefined;
  id = str editor.user.id;
  email = str editor.user.email;
  name = str editor.user.name;
  avatar_url = str editor.user.avatar_url;
  avatar_url_camel = undefined;
  picture = undefined;
  color = color_value editor.user.color;
  role = undefined;
  invited_at = undefined;
}

abbrev head_or : List String → String → String
head_or [] other = other
head_or (key ∷ keys) other = if key == "" then other else key

-- `primaryKey`
unfoldable pub primary_key : AwarenessUser → String
unfolding get_person_keys to_text
primary_key editor =
    head_or (get_person_keys (editor_person editor)) (to_text (num editor.client_id))

abbrev field : (Person → Value) → Option Person → Value
field f none = undefined
field f (some person) = f person

-- The row of a live editor.
unfoldable pub live_row : Dict Person → AwarenessUser → Person
unfolding lookup primary_key
live_row collaborators_by_key editor =
    let user = editor_person editor in
    let matching = first_of (get_person_keys user) collaborators_by_key in
    record {
      user_id =
          or_value (field (λ p. p.user_id) matching) (or_value user.id (str (primary_key editor)));
      id = user.id;
      email = or_value user.email (field (λ p. p.email) matching);
      name = or_value user.name (field (λ p. p.name) matching);
      avatar_url = or_value user.avatar_url (field (λ p. p.avatar_url) matching);
      avatar_url_camel = field (λ p. p.avatar_url_camel) matching;
      picture = field (λ p. p.picture) matching;
      color = user.color;
      role = field (λ p. p.role) matching;
      invited_at = field (λ p. p.invited_at) matching;
    }

abbrev pub add_row : Dict Person → AwarenessUser → Dict Person → Dict Person
add_row collaborators editor rows =
    if is_some (lookup (primary_key editor) rows)
    then rows
    else insert (primary_key editor) (live_row collaborators editor) rows

-- `rowsByUser` after the loop
unfoldable pub rows_by_user : Dict Person → List AwarenessUser → Dict Person → Dict Person
rows_by_user collaborators [] rows = rows
rows_by_user collaborators (editor ∷ editors) rows =
    rows_by_user collaborators editors (add_row collaborators editor rows)

-- Stable insertion into a sorted list; `before a b` where `a` has to come first.
abbrev pub insert_by {ℓ} : {A : Type ℓ} → (A → A → Bool) → A → List A → List A
insert_by before x [] = x ∷ []
insert_by before x (y ∷ ys) =
    let rest = insert_by before x ys in if before y x then y ∷ rest else x ∷ y ∷ ys

-- `xs.sort((a, b) => …)`
unfoldable pub sort_by {ℓ} : {A : Type ℓ} → (A → A → Bool) → List A → List A
sort_by before [] = []
sort_by before (x ∷ xs) = insert_by before x (sort_by before xs)

-- `liveEditorRows`; `locale_before` is `localeCompare` below 0.
unfoldable pub live_editor_rows :
    (String → String → Bool) → List Person → List AwarenessUser → List Person
unfolding rows_by_user sort_by by_key
live_editor_rows locale_before collaborators editors =
    sort_by (λ a b. locale_before (get_display_name a) (get_display_name b))
      (map (λ entry. entry.1) (rows_by_user (by_key collaborators) editors []))

-- `getLiveEditorForCollaborator`
unfoldable pub get_live_editor_for_collaborator : Dict Person → Person → Option Person
unfolding lookup get_person_keys
get_live_editor_for_collaborator live_editors_by_key collab =
    first_of (get_person_keys collab) live_editors_by_key

-- What a member's avatar is drawn from.
unfoldable pub avatar_source : Option Person → Person → Person
avatar_source none collab = collab
avatar_source (some live) collab = record collab {
  avatar_url = or_value collab.avatar_url live.avatar_url;
  avatar_url_camel = or_value collab.avatar_url_camel live.avatar_url_camel;
  picture = or_value collab.picture live.picture;
}
