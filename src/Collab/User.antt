-- ===== src/Collab/User.antt =====
-- `normalizeAwarenessUser` of frontend/src/api/session.js. An absent property is `undefined`; objects
-- and arrays as properties are left out of the model.
pub mod Idempotent
use sync_tex.Base.{
  String, Option, none, some, or_else, Value, undefined, null, bool, num, str, truthy, coalesce,
  or_value, to_text, if◌then◌else◌,
}
use sync_tex.Collab.Color.{color_for_user_id, is_hex_color}

-- The properties that are read of the object that is passed in.
pub record Source : Type 0 where
  pub id : Value
  pub user_id : Value
  pub sub : Value
  pub email : Value
  pub name : Value
  pub display_name : Value
  pub username : Value
  pub color : Value
  pub avatar_url : Value
  pub avatar_url_camel : Value
  pub picture : Value

abbrev pub empty_source : Source
empty_source = record {
  id = undefined;
  user_id = undefined;
  sub = undefined;
  email = undefined;
  name = undefined;
  display_name = undefined;
  username = undefined;
  color = undefined;
  avatar_url = undefined;
  avatar_url_camel = undefined;
  picture = undefined;
}

pub record User : Type 0 where
  pub id : String
  pub name : String
  pub email : String
  pub avatar_url : String
  pub color : Option String

-- `typeof v === 'string' ? v : ''`
abbrev text_or_empty : Value → String
text_or_empty (str s) = s
text_or_empty _ = ""

-- `isHexColor(v) ? v : null`
abbrev hex_or_none : Value → Option String
hex_or_none (str s) = if is_hex_color (str s) then some s else none
hex_or_none _ = none

normalize : Source → User
normalize source =
    let id =
      to_text
        (coalesce source.id (coalesce source.user_id (coalesce source.sub (str "local-user")))) in
    let email = text_or_empty source.email in
    let raw_name = or_value source.name (
      or_value source.display_name
        (or_value source.username (or_value (str email) (str "Local User")))) in
    let avatar_url =
      or_value source.avatar_url
        (or_value source.avatar_url_camel (or_value source.picture (str ""))) in
    record {
      id = id;
      name = to_text raw_name;
      email = email;
      avatar_url = text_or_empty avatar_url;
      color = or_else (hex_or_none source.color) (color_for_user_id id);
    }

-- `null` and undefined are taken for an object with no properties.
unfoldable pub normalize_awareness_user : Option Source → User
unfolding normalize
normalize_awareness_user none = normalize empty_source
normalize_awareness_user (some source) = normalize source
