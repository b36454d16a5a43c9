-- ===== src/Panel/Shown.antt =====
-- What frontend/src/components/Editor/CollaboratorsPanel.jsx shows. `upper` is `toUpperCase`, and `day` the
-- text that `toLocaleDateString` makes of a date.
use sync_tex.Base.{
  ℕ, String, Option, none, some, List, [], ◌∷◌, ◌==◌, Bool, true, false, not, if◌then◌else◌, eqb,
  length, template, Value, undefined, null, num, str, truthy, to_text,
}
use sync_tex.Markup.{
  Markup, text, element, titled, handles, disabled, blank, ◌&◌, shown_if, each, button,
}
use sync_tex.Collab.Presence.{AwarenessUser}
use sync_tex.Panel.{Panel, PanelTab, share, members, Link}
use sync_tex.Panel.People.{
  Person, by_key, get_display_name, get_avatar_url, get_initial, live_editor_rows,
  get_live_editor_for_collaborator, avatar_source,
}

pub data Call : Type 0 where
  show_tab : PanelTab → Call
  pick_level generate : Call
  copy : Link → Call
  revoke : String → Call
  -- the `user_id`
  remove : Value → Call

-- A value between two tags; what is undefined or null is not shown.
abbrev pub value : Value → Markup Call
value undefined = blank
value null = blank
value v = text (to_text v)

-- A name or an email to trim.
abbrev text_field : Value → Option String
text_field (str s) = some s
text_field _ = none

abbrev class_if : Bool → String → String
class_if b name = if b then name else ""

-- `renderAvatar`
unfoldable pub render_avatar : (String → String) → Person → String → Value → Markup Call
unfolding get_avatar_url get_initial to_text
render_avatar upper person class_name presence_color =
    let avatar_url = get_avatar_url person in
    element "div"
      (template (
        class_name
        ∷ " "
        ∷ class_if (truthy presence_color) "collab-avatar--live"
        ∷ " "
        ∷ class_if (truthy avatar_url) "collab-avatar--image"
        ∷ []))
      (if truthy avatar_url
        then element "img" (to_text avatar_url) blank
        else text (get_initial upper (text_field person.name) (text_field person.email)))

abbrev tab_class : Bool → String
tab_class active = template ("collab-tab " ∷ class_if active "active" ∷ [])

abbrev is_share : PanelTab → Bool
is_share share = true
is_share members = false

abbrev tabs : Panel → Markup Call
tabs s = element "div" "collab-tabs" (
    button (tab_class (is_share s.active_tab)) false (show_tab share) "Share"
    & button (tab_class (not (is_share s.active_tab))) false (show_tab members) (
        template (
          "Members"
          ∷ (if eqb (length s.collaborators) 0
              then ""
              else template (" (" ∷ to_text (num (length s.collaborators)) ∷ ")" ∷ []))
          ∷ [])))

abbrev pub error_shown : Option String → Markup Call
error_shown none = blank
error_shown (some message) =
    shown_if (not (message == "")) (element "div" "collab-error" (element "p" "" (text message)))

abbrev generate_link : Panel → Markup Call
generate_link s = element "div" "collab-section" (
    element "h3" "collab-section-title" (text "Generate Share Link")
    & element "p" "collab-section-desc"
        (text "Anyone with the link can join this project with the selected access level.")
    & element "label" "collab-label" (text "Access Level")
    & disabled s.loading (
        handles (pick_level ∷ []) (
          element "select" "collab-select" (
            element "option" "viewer" (text "Read Only")
            & element "option" "editor" (text "Read & Write"))))
    & button "collab-btn collab-btn-primary" s.loading generate
        (if s.loading then "Generating..." else "Generate Link"))

abbrev is_copied : Option String → String → Bool
is_copied none id = false
is_copied (some copied) id = copied == id

abbrev count : Option ℕ → ℕ
count none = 0
count (some n) = n

abbrev pub link_item : (Value → String) → Option String → Link → Markup Call
link_item day copied item = element "div" "collab-link-item" (
    element "div" "collab-link-badge" (text item.role)
    & titled "Copy link to clipboard" (
        button "collab-btn collab-btn-secondary" false (copy item)
          (if is_copied copied item.invite_id then "✓ Copied" else "Copy"))
    & titled "Revoke this link"
        (button "collab-btn collab-btn-danger" false (revoke item.invite_id) "Revoke")
    & element "p" "collab-link-url" (text item.link)
    & element "p" "collab-link-meta-line" (
        text (template ("Created " ∷ day item.created_at ∷ " · " ∷ []))
        & text (template (to_text (num (count item.joined_count)) ∷ " joined" ∷ []))))

abbrev share_tab : (Value → String) → Panel → Markup Call
share_tab day s = element "div" "collab-tab-content" (
    generate_link s
    & element "div" "collab-section" (
        element "h3" "collab-section-title" (text "Active Links")
        & (if eqb (length s.links) 0
            then element "p" "collab-empty" (text "No active links. Generate one to get started.")
            else element "div" "collab-links-list"
                (each s.links (link_item day s.copied_link_id)))))

abbrev pub live_editor : (String → String) → Person → Markup Call
live_editor upper editor = titled (get_display_name editor) (
    element "div" "collab-live-editor" (
      render_avatar upper editor "collab-live-avatar" editor.color
      & element "p" "collab-live-name" (text (get_display_name editor))))

abbrev pub color_of : Option Person → Value
color_of none = undefined
color_of (some live) = live.color

abbrev pub member : (String → String) → (Value → String) → Option Person → Person → Markup Call
member upper day live collab = element "div" "collab-member-item" (
    render_avatar upper (avatar_source live collab) "collab-member-avatar" (color_of live)
    & element "p" "collab-member-name" (text (get_display_name collab))
    & shown_if (truthy collab.name) (element "p" "collab-member-email" (value collab.email))
    & element "span"
        (template ("collab-member-access collab-member-access--" ∷ to_text collab.role ∷ []))
        (value collab.role)
    & element "span" "collab-member-joined" (text (day collab.invited_at))
    & titled "Remove collaborator"
        (button "collab-btn collab-btn-danger collab-btn-remove" false (remove collab.user_id) "✕"))

abbrev pub live_section : (String → String) → List Person → Markup Call
live_section upper rows = element "div" "collab-section collab-live-section" (
    element "h3" "collab-section-title" (text "Currently editing")
    & (if eqb (length rows) 0
        then element "p" "collab-empty collab-empty-compact" (text "No other editors connected.")
        else element "div" "collab-live-list" (each rows (live_editor upper))))

abbrev pub members_section :
    (String → String) → (Value → String) → List Person → Panel → Markup Call
members_section upper day rows s = element "div" "collab-section" (
    element "h3" "collab-section-title" (text "Project Members")
    & (if s.loading
        then element "p" "collab-empty" (text "Loading...")
        else if eqb (length s.collaborators) 0
        then element "p" "collab-empty"
            (text "No collaborators yet. Share a link to invite people.")
        else element "div" "collab-members-list" (
            each s.collaborators λ collab.
              member upper day (get_live_editor_for_collaborator (by_key rows) collab) collab)))

abbrev members_tab : (String → String) → (Value → String) → List Person → Panel → Markup Call
members_tab upper day rows s =
    element "div" "collab-tab-content" (live_section upper rows & members_section upper day rows s)

-- `CollaboratorsPanel`
unfoldable pub collaborators_panel :
    (String → String → Bool)
    → (String → String)
    → (Value → String)
    → List AwarenessUser
    → Panel
    → Markup Call
unfolding render_avatar get_display_name
collaborators_panel locale_before upper day live_editors s = element "div" "collaborators-panel" (
    tabs s & error_shown s.error & elim s.active_tab [
      | share ↦ share_tab day s
      | members ↦
          members_tab upper day (live_editor_rows locale_before s.collaborators live_editors) s
    ])
