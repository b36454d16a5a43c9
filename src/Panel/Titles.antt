-- ===== src/Panel/Titles.antt =====
-- The titles of the panel in Panel/Shown.
use sync_tex.Base.{
  String, Option, List, [], ◌∷◌, ◌++◌, if◌then◌else◌, eqb, length, map, Value, undefined, null, num,
  str, bool, truthy, ◌≡◌, refl, Bool, false, not, ◌==◌, inl, inr, Bool-cases, arith, none, some,
}
use sync_tex.Markup.{Markup, text, each, element, blank, titles, titles-each, untitled-if}
use sync_tex.Collab.Presence.{AwarenessUser}
use sync_tex.Panel.{Panel, members}
use sync_tex.Panel.People.{
  Person, by_key, get_display_name, get_avatar_url, live_editor_rows,
  get_live_editor_for_collaborator, avatar_source,
}
use sync_tex.Panel.Shown.{
  Call, error_shown, value, render_avatar, live_editor, live_section, color_of, member,
  members_section, collaborators_panel,
}

module _ (upper : String → String) (day : Value → String) where
  render_avatar-untitled :
      (person : Person) (class_name : String) (color : Value)
      → titles (render_avatar upper person class_name color) ≡ []
  unfolding render_avatar titles
  render_avatar-untitled person class_name color =
      untitled-if (truthy (get_avatar_url person)) _ _ refl refl

  live_editor-titles :
      (editor : Person) → titles (live_editor upper editor) ≡ get_display_name editor ∷ []
  unfolding titles
  live_editor-titles editor =
      rw (render_avatar-untitled editor "collab-live-avatar" editor.color) refl

  value-untitled : (v : Value) → titles (value v) ≡ []
  unfolding titles
  value-untitled undefined = refl
  value-untitled null = refl
  value-untitled (bool b) = refl
  value-untitled (num n) = refl
  value-untitled (str s) = refl

  member-titles :
      (live : Option Person) (collab : Person)
      → titles (member upper day live collab) ≡ "Remove collaborator" ∷ []
  unfolding titles
  member-titles live collab =
      rw
        (
          render_avatar-untitled (avatar_source live collab) "collab-member-avatar" (color_of live),
          untitled-if (truthy collab.name) (element "p" "collab-member-email" (value collab.email))
              blank (value-untitled collab.email) refl,
          value-untitled collab.role,
        )
        refl

  -- A list whose items show one title each, or a text that it is empty.
  list-titles :
      (xs : List Person) (class_name list_class message : String) (v : Person → Markup Call)
      (f : Person → String)
      → ((x : Person) → titles (v x) ≡ f x ∷ [])
      → titles (
          if eqb (length xs) 0
          then element "p" class_name (text message)
          else element "div" list_class (each xs v))
        ≡ map f xs
  unfolding titles
  list-titles [] class_name list_class message v f h = refl
  list-titles (x ∷ xs) class_name list_class message v f h =
      let filled : eqb (length (x ∷ xs)) 0 ≡ false = ground arith in
      rw filled (titles-each (x ∷ xs) v f h)

  live_section-titles :
      (rows : List Person) → titles (live_section upper rows) ≡ map get_display_name rows
  unfolding titles
  live_section-titles rows =
      list-titles rows _ _ _ (live_editor upper) get_display_name live_editor-titles

  members_section-titles :
      (rows : List Person) (s : Panel)
      → titles (members_section upper day rows s)
        ≡ (if s.loading then [] else map (λ _. "Remove collaborator") s.collaborators)
  unfolding titles
  members_section-titles rows s = elim (Bool-cases s.loading) [
    | inl loading ↦ rw loading refl
    | inr loaded ↦ rw loaded (
        list-titles s.collaborators _ _ _ _ _
          λ collab. member-titles (get_live_editor_for_collaborator (by_key rows) collab) collab)
  ]

  error-untitled : (error : Option String) → titles (error_shown error) ≡ []
  unfolding titles
  error-untitled none = refl
  error-untitled (some message) = untitled-if (not (message == "")) _ _ refl refl

  -- While the members are shown, the titles are the names of the editors who are connected, one for each
  -- row in the rows' order, and, unless the panel is loading, one of a button that removes for each member.
  pub collaborators_panel-titles :
      (locale_before : String → String → Bool) (editors : List AwarenessUser) (s : Panel)
      → s.active_tab ≡ members
      → titles (collaborators_panel locale_before upper day editors s)
        ≡ map get_display_name (live_editor_rows locale_before s.collaborators editors)
          ++ (if s.loading then [] else map (λ _. "Remove collaborator") s.collaborators)
  unfolding collaborators_panel titles
  collaborators_panel-titles locale_before editors s active =
      let rows = live_editor_rows locale_before s.collaborators editors in
      rw (active, error-untitled s.error, live_section-titles rows, members_section-titles rows s)
        refl
