-- ===== src/Keys/Tests.antt =====
-- The panel of keys at concrete answers.
use sync_tex.Base.{some, [], ◌∷◌, ◌≡◌, refl, true, false, resolved}
use sync_tex.Markup.{texts}
use sync_tex.Keys.{
  LlmPanel, ProviderRow, idle, saving, load_answered, subtitle, begin_save, has_key, get_meta,
  toggle_open, can_save,
}
use sync_tex.Keys.Shown.{provider_row, chevron_enter, header_key_down, field_key_down}

abbrev loaded : LlmPanel
loaded =
    load_answered (resolved (some ("openai" ∷ "cohere" ∷ []), some ("openai" ∷ "openai" ∷ [])))
      (record { providers = []; key_map = []; loading = true; error = "" })

one_key : subtitle loaded ≡ "1 provider configured"
unfolding subtitle load_answered
one_key = refl

other_key : has_key "cohere" loaded ≡ false
unfolding has_key load_answered
other_key = refl

sent_key :
    (begin_save (record { is_open = true; key_val = " k1 "; status = idle; err_msg = "" })).0
    ≡ some "k1"
unfolding begin_save
sent_key = refl

-- A row that is closed and shows no key to delete offers just to be opened.
abbrev closed : ProviderRow
closed = record { is_open = false; key_val = ""; status = idle; err_msg = "" }

closed_row : texts (provider_row "cohere" false closed) ≡ "Cohere" ∷ []
unfolding texts provider_row get_meta
closed_row = refl

-- Enter on the button at the end opens the row and closes it again.
chevron_of_closed : chevron_enter closed ≡ closed
unfolding chevron_enter header_key_down toggle_open
chevron_of_closed = refl

-- Enter sends the key once more while it is being saved, when the button is disabled.
abbrev key_saving : ProviderRow
key_saving = record { is_open = true; key_val = "k1"; status = saving; err_msg = "" }

sent_again : (field_key_down "Enter" key_saving).0 ≡ some "k1"
unfolding field_key_down begin_save
sent_again = refl

not_by_button : can_save key_saving ≡ false
unfolding can_save
not_by_button = refl
