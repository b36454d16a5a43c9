-- ===== src/Tabs/Bar.antt =====
-- frontend/src/components/Editor/TabBar.jsx: the bar of the open tabs.
use sync_tex.Base.{
  String, Option, none, some, List, [], ◌∷◌, ◌==◌, Bool, true, false, ◌&&◌, if◌then◌else◌, has,
  template,
}
use sync_tex.Markup.{Markup, text, element, titled, handles, blank, ◌&◌, shown_if, each, button}
use sync_tex.Tabs.{Tab, Kind, file, chat}

pub data Call : Type 0 where
  select close : String → Call

abbrev pub is_file : Kind → Bool
is_file file = true
is_file chat = false

abbrev pub is_chat : Kind → Bool
is_chat file = false
is_chat chat = true

abbrev text_of : Option String → String
text_of none = ""
text_of (some s) = s

-- `tab.title || tab.filename || 'Untitled'`
unfoldable pub label : Tab → String
label t =
    if t.title == ""
    then (if text_of t.filename == "" then "Untitled" else text_of t.filename)
    else t.title

-- `isUnsaved`
unfoldable pub is_unsaved : List String → Tab → Bool
is_unsaved unsaved_files t = is_file t.kind && has t.resource_id unsaved_files

abbrev is_active : Option String → String → Bool
is_active none tab_id = false
is_active (some active) tab_id = active == tab_id

abbrev class_if : Bool → String → String
class_if b name = if b then name else ""

unfoldable pub tab_item : Option String → List String → Tab → Markup Call
unfolding label is_unsaved
tab_item active_tab_id unsaved_files t =
    titled (if is_unsaved unsaved_files t then template (label t ∷ " (unsaved)" ∷ []) else label t)
      (handles (select t.id ∷ []) (
        element "div"
          (template (
            "tab "
            ∷ class_if (is_active active_tab_id t.id) "active"
            ∷ " "
            ∷ class_if (is_unsaved unsaved_files t) "unsaved"
            ∷ " "
            ∷ class_if (is_chat t.kind) "chat-tab"
            ∷ []))
          (element "span" "tab-name" (
              shown_if (is_chat t.kind) (element "span" "tab-kind-icon" (text "◇"))
              & text (label t)
              & shown_if (is_unsaved unsaved_files t) (element "span" "unsaved-dot" (text "●")))
            & button "tab-close" false (close t.id) "✕")))

-- `TabBar`
unfoldable pub tab_bar : List Tab → Option String → List String → Markup Call
unfolding tab_item
tab_bar tabs active_tab_id unsaved_files =
    element "div" "tab-bar"
      (each tabs (λ t. tab_item active_tab_id unsaved_files t) & element "div" "tab-spacer" blank)
