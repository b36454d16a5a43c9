-- ===== src/Editor/Selection.antt =====
-- Selecting a file in the explorer.
use sync_tex.Base.{
  String, Option, some, List, ◌==◌, eq_refl, Bool, true, false, ◌||◌, ◌≡◌, refl, ap, sym, ◌∙◌, has,
  has-add, is_some, find, Bool-cases, inl, inr,
}
use sync_tex.Tabs.{Tabs, Tab, FileInfo, file_tab_id, make_file_tab, add_tab, handle_tab_select}
use sync_tex.Tabs.Ids.{ids, is_some-find, ids-add_tab}
use sync_tex.Sessions.{Callback}
use sync_tex.Editor.{Client, handle_file_select, is_image_type}

-- The tab is open and active.
abbrev IsShown : String → Tabs → Type 0
IsShown tab_id s = (has tab_id (ids s) ≡ true) × (s.active_tab_id ≡ some tab_id)

active_of_added : (t : Tab) (s : Tabs) → (add_tab t s).active_tab_id ≡ some t.id
unfolding add_tab
active_of_added t s = refl

IsShown-add_tab :
    (f : FileInfo) (s : Tabs) → IsShown (file_tab_id f.id) (add_tab (make_file_tab f) s)
unfolding make_file_tab
IsShown-add_tab f s = (
  rw (ids-add_tab (make_file_tab f) s) (
      has-add (file_tab_id f.id) (file_tab_id f.id) (ids s)
      ∙ ap (◌|| has (file_tab_id f.id) (ids s)) (eq_refl (file_tab_id f.id))),
  active_of_added (make_file_tab f) s,
)

module _ (lower : String → String) (is_collab : Bool) (token : Option String)
    (callbacks : List Callback) (f : FileInfo) where
  select_of_shown :
      (c : Client)
      → IsShown (file_tab_id f.id) c.tabs
      → handle_file_select lower is_collab token callbacks f c ≡ (false, c)
  unfolding handle_file_select handle_tab_select
  select_of_shown c (there, active) =
      rw (is_some-find (file_tab_id f.id) c.tabs.open_tabs ∙ there)
        (ap (λ a. (false, record c { tabs = record c.tabs { active_tab_id = a } })) (sym active))

  IsShown-select :
      (c : Client)
      → IsShown (file_tab_id f.id) (handle_file_select lower is_collab token callbacks f c).1.tabs
  unfolding handle_file_select handle_tab_select
  IsShown-select c =
      elim (Bool-cases (is_some (find (λ t. t.id == file_tab_id f.id) c.tabs.open_tabs))) [
        | inl there ↦
            rw there (sym (is_some-find (file_tab_id f.id) c.tabs.open_tabs) ∙ there, refl)
        | inr absent ↦ elim (Bool-cases (is_image_type lower f.file_type)) [
          | inl image ↦ rw (absent, image) (IsShown-add_tab f c.tabs)
          | inr other ↦ elim (Bool-cases is_collab) [
            | inl collab ↦ rw (absent, other, collab) (IsShown-add_tab f c.tabs)
            | inr alone ↦ rw (absent, other, alone) (IsShown-add_tab f c.tabs)
          ]
        ]
      ]

  -- Selecting a file opens its tab and activates it; selecting it again loads nothing, opens no
  -- session and changes nothing.
  pub handle_file_select_lem :
      (c : Client)
      → (has
            (file_tab_id f.id)
            (ids (handle_file_select lower is_collab token callbacks f c).1.tabs)
          ≡ true)
        × ((handle_file_select lower is_collab token callbacks f c).1.tabs.active_tab_id
            ≡ some (file_tab_id f.id))
        × (handle_file_select lower is_collab token callbacks f
              (handle_file_select lower is_collab token callbacks f c).1
            ≡ (false, (handle_file_select lower is_collab token callbacks f c).1))
  handle_file_select_lem c =
      let (there, active) = IsShown-select c in
      (
        there,
        active,
        select_of_shown (handle_file_select lower is_collab token callbacks f c).1 (there, active),
      )
