-- ===== src/Collab/Presence.antt =====
-- The users that a session of frontend/src/api/session.js shows: the rows of `getAwarenessUsers`, the
-- comparison of their keys, and the style sheet of `updateAwarenessStyles`.
use Prim.Native.String
use sync_tex.Base.{
  ℕ, suc, String, Option, none, some, List, [], ◌∷◌, Bool, true, false, not, ◌&&◌, ◌==◌, eqb, keep,
  map, decimal, digit, undefined, Value, str,
}
use sync_tex.Collab.Color.{color_with_alpha}
use sync_tex.Collab.User.{Source, User, normalize_awareness_user}

-- A row of `getAwarenessUsers`; the file is the session's own.
pub record AwarenessUser : Type 0 where
  pub client_id : ℕ
  pub is_local : Bool
  pub user : User

abbrev pub row : ℕ → ℕ × Option Source → Option AwarenessUser
row own (client, none) = none
row own (client, some source) = some (record {
  client_id = client;
  is_local = eqb client own;
  user = normalize_awareness_user (some source);
})

-- `usersKey === lastAwarenessUsersKey`: the keys are JSON texts of these fields.
abbrev same_color : Option String → Option String → Bool
same_color none none = true
same_color (some a) (some b) = a == b
same_color _ _ = false

abbrev same_bool : Bool → Bool → Bool
same_bool true b = b
same_bool false b = not b

abbrev same_user : AwarenessUser → AwarenessUser → Bool
same_user a b =
    eqb a.client_id b.client_id
    && same_bool a.is_local b.is_local
    && a.user.id == b.user.id
    && a.user.name == b.user.name
    && a.user.email == b.user.email
    && a.user.avatar_url == b.user.avatar_url
    && same_color a.user.color b.user.color

unfoldable pub same_users : List AwarenessUser → List AwarenessUser → Bool
same_users [] [] = true
same_users (a ∷ xs) (b ∷ ys) = same_user a b && same_users xs ys
same_users _ _ = false

abbrev color_value : Option String → Value
color_value none = undefined
color_value (some c) = str c

abbrev color_text : Option String → String
color_text none = "undefined"
color_text (some c) = c

-- The rules of `updateAwarenessStyles` for one remote user.
abbrev concat : List String → String
concat [] = ""
concat (s ∷ rest) = String.◌++◌ s (concat rest)

user_style : AwarenessUser → String
user_style u =
    let id = decimal (suc u.client_id) u.client_id in
    concat (
      "\n.yRemoteSelection-"
      ∷ id
      ∷ " {\n  background-color: "
      ∷ color_with_alpha (color_value u.user.color) "0.18"
      ∷ ";\n}\n\n.yRemoteSelectionHead-"
      ∷ id
      ∷ " {\n  border-left-color: "
      ∷ color_text u.user.color
      ∷ ";\n  border-left-width: 2px;\n  border-left-style: solid;\n}\n"
      ∷ [])

abbrev join_lines : List String → String
join_lines [] = ""
join_lines (s ∷ []) = s
join_lines (s ∷ t ∷ rest) = String.◌++◌ s (String.◌++◌ "\n" (join_lines (t ∷ rest)))

unfoldable pub awareness_styles : List AwarenessUser → String
unfolding user_style color_with_alpha decimal digit
awareness_styles us = join_lines (map user_style (keep (λ (u : AwarenessUser). not u.is_local) us))

abbrev pub same_key : List AwarenessUser → Option (List AwarenessUser) → Bool
same_key us none = false
same_key us (some last) = same_users us last
