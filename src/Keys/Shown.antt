-- ===== src/Keys/Shown.antt =====
-- What frontend/src/components/Editor/LLMPanel/LLMPanel.jsx shows, and what its keys do.
use sync_tex.Base.{
  String, Option, none, [], ◌∷◌, ◌==◌, Bool, true, false, not, ◌&&◌, if◌then◌else◌, template,
}
use sync_tex.Markup.{Markup, text, element, titled, handles, blank, ◌&◌, shown_if, each, button}
use sync_tex.Keys.{
  Meta, get_meta, Status, idle, saving, saved, deleting, error, ProviderRow, toggle_open,
  begin_save, can_save, LlmPanel, has_key, subtitle,
}

-- What a row is asked.
pub data RowCall : Type 0 where
  toggle delete save type_key header_key field_key : RowCall

pub data Call : Type 0 where
  row_call : String → RowCall → Call
  retry : Call

abbrev class_if : Bool → String → String
class_if b name = if b then name else ""

abbrev is_deleting : Status → Bool
is_deleting deleting = true
is_deleting _ = false

abbrev is_failed : Status → Bool
is_failed error = true
is_failed _ = false

abbrev status_class : Status → String
status_class idle = "idle"
status_class saving = "saving"
status_class saved = "saved"
status_class deleting = "deleting"
status_class error = "error"

abbrev save_label : Bool → Status → String
save_label has_key saving = "Saving…"
save_label has_key saved = " Saved"
save_label has_key _ = if has_key then "Update" else "Save"

-- A click on a row's header calls `toggleOpen`, but for one where the button is that deletes; a key that
-- is pressed anywhere in it comes to `onKeyDown`.
abbrev pub row_header : (RowCall → Call) → Meta → Bool → ProviderRow → Markup Call
row_header at m has_key s = handles (at header_key ∷ []) (
    element "div" "llm-provider-header" (
      handles (at toggle ∷ []) (
        element "span" "llm-provider-label" (text m.label)
        & shown_if has_key (element "span" "llm-key-badge" (text " key saved")))
      & element "span" "llm-provider-actions" (
          shown_if has_key (
            titled "Delete key"
              (button "llm-icon-btn danger" (is_deleting s.status) (at delete) "")))
      & titled (if s.is_open then "Collapse" else if has_key then "Update key" else "Add key")
          (handles (at toggle ∷ []) (element "button" "llm-icon-btn chevron-btn" blank))))

abbrev pub row_form : (RowCall → Call) → Meta → Bool → ProviderRow → Markup Call
row_form at m has_key s = element "div" "llm-provider-form" (
    element "label" "llm-form-label" (text (if has_key then "Replace API key" else "Add API key"))
    & handles (at type_key ∷ at field_key ∷ []) (
        -- a password is not read; an empty field reads as its placeholder
        element "input" "llm-key-input" (shown_if (s.key_val == "") (text m.placeholder)))
    & button (template ("llm-save-btn " ∷ status_class s.status ∷ [])) (not (can_save s)) (at save)
        (save_label has_key s.status)
    & shown_if (is_failed s.status) (element "p" "llm-form-error" (text s.err_msg))
    & element "p" "llm-form-hint"
        (text "Keys are stored encrypted server-side and never returned in full."))

-- `ProviderRow`
unfoldable pub provider_row : String → Bool → ProviderRow → Markup Call
unfolding get_meta can_save
provider_row provider has_key s =
    let m = get_meta provider in
    element "div"
      (template (
        "llm-provider-row "
        ∷ class_if has_key "has-key"
        ∷ " "
        ∷ class_if s.is_open "expanded"
        ∷ []))
      (row_header (row_call provider) m has_key s
        & shown_if s.is_open (row_form (row_call provider) m has_key s))

-- `LLMPanel`; `rows` are the states of the rows.
unfoldable pub llm_panel : (String → ProviderRow) → LlmPanel → Markup Call
unfolding provider_row has_key subtitle
llm_panel rows s = element "div" "llm-panel" (
    element "div" "llm-panel-header" (
      element "div" "llm-panel-title" (element "span" "" (text "API Keys"))
      & shown_if (not s.loading) (element "span" "llm-panel-subtitle" (text (subtitle s))))
    & element "div" "llm-panel-body" (
        shown_if s.loading
          (element "div" "llm-loading" (element "span" "" (text "Loading providers…")))
        & shown_if (not (s.error == "") && not s.loading) (
            element "div" "llm-error-state"
              (element "p" "" (text s.error) & button "llm-retry-btn" false retry "Retry"))
        & shown_if (not s.loading && (s.error == "")) (
            element "div" "llm-provider-list" (
              element "p" "llm-section-label" (text "Available providers")
              & each s.providers λ p. provider_row p (has_key p s) (rows p)))))

-- `onKeyDown` of a row's header
unfoldable pub header_key_down : String → ProviderRow → ProviderRow
header_key_down key s = if key == "Enter" then toggle_open s else s

-- `onKeyDown` of the field: what `handleSave` then sends.
unfoldable pub field_key_down : String → ProviderRow → Option String × ProviderRow
field_key_down key s = if key == "Enter" then begin_save s else (none, s)

-- Enter on the button at the header's end: the key goes up to the header, and so does the click that the
-- browser makes of it.
unfoldable pub chevron_enter : ProviderRow → ProviderRow
unfolding header_key_down toggle_open
chevron_enter s = toggle_open (header_key_down "Enter" s)
