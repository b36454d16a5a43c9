-- ===== src/Editor/Run/Marked.antt =====
-- In every run of the view the tab bar shows which files are unsaved.
use sync_tex.Base.{
  ℕ, String, Option, some, List, [], ◌∷◌, ◌==◌, eq_refl, Bool, true, ◌≡◌, refl, inl, inr, arith,
  find, has, has-concat, template, Bool-cases,
}
use sync_tex.Markup.{titles, each}
use sync_tex.Tabs.{Tab, Kind, file_tab_id}
use sync_tex.Tabs.Bar.{tab_bar, tab_item, label, is_unsaved}
use sync_tex.Chats.{Chats}
use sync_tex.Editor.Run.{Event, AllHaveIds, run, mounted}
use sync_tex.Editor.Run.Open.{tab_of_IsOpen}
use sync_tex.Editor.Run.Always.{mounted-IsOwned}

module _ (active : Option String) (unsaved : List String) where
  has-titles-item :
      (t : Tab)
      → is_unsaved unsaved t ≡ true
      → has (template (label t ∷ " (unsaved)" ∷ [])) (titles (tab_item active unsaved t)) ≡ true
  unfolding tab_item titles has
  has-titles-item t u = rw (u, eq_refl (template (label t ∷ " (unsaved)" ∷ []))) refl

  has-titles-each :
      (p : Tab → Bool) (ts : List Tab) (t : Tab)
      → find p ts ≡ some t
      → is_unsaved unsaved t ≡ true
      → has
          (template (label t ∷ " (unsaved)" ∷ []))
          (titles (each ts (λ u. tab_item active unsaved u)))
        ≡ true
  unfolding titles
  has-titles-each p [] t e u = cc
  has-titles-each p (x ∷ ts) t e u = elim (Bool-cases (p x)) [
    | inl here ↦
        let first : some x ≡ some t = rw here at e in
        let same : x ≡ t = cc in rw (has-concat, same, has-titles-item t u) refl
    | inr there ↦ rw (has-concat, has-titles-each p ts t (rw there at e) u) (ground arith)
  ]

  has-titles-tab_bar :
      (p : Tab → Bool) (ts : List Tab) (t : Tab)
      → find p ts ≡ some t
      → is_unsaved unsaved t ≡ true
      → has (template (label t ∷ " (unsaved)" ∷ [])) (titles (tab_bar ts active unsaved)) ≡ true
  unfolding tab_bar titles
  has-titles-tab_bar p ts t e u = rw (has-concat, has-titles-each p ts t e u) refl

is_unsaved_of_file :
    (unsaved : List String) (t : Tab) (id : String)
    → t.kind ≡ Kind.file
    → t.resource_id ≡ id
    → has id unsaved ≡ true
    → is_unsaved unsaved t ≡ true
unfolding is_unsaved
is_unsaved_of_file unsaved t id kind resource m = rw (kind, resource, m) refl

-- Whatever happens in the view of a project, in any order and whatever is answered, where each file
-- that is selected has an id: a file that has an unsaved mark has an open tab, whose title in the tab
-- bar says that it is unsaved.
pub run_marked :
    {Message : Type 0} (lower : String → String) (document : ℕ → String) (chats : Chats Message)
    (es : List Event) (id : String)
    → AllHaveIds es
    → has id (run lower document es (mounted chats)).client.files.unsaved_files ≡ true
    → (t : Tab) × (find
          (λ u. u.id == file_tab_id id)
          (run lower document es (mounted chats)).client.tabs.open_tabs
        ≡ some t)
      × (has (template (label t ∷ " (unsaved)" ∷ [])) (
            titles (
              tab_bar
                (run lower document es (mounted chats)).client.tabs.open_tabs
                (run lower document es (mounted chats)).client.tabs.active_tab_id
                (run lower document es (mounted chats)).client.files.unsaved_files))
          ≡ true)
run_marked lower document chats es id given m =
    let c = (run lower document es (mounted chats)).client in
    let h = mounted-IsOwned lower document chats es given in
    let (t, found, kind, resource) = tab_of_IsOpen id c.tabs.open_tabs h.own (h.marks id m).1 in
    (
      t,
      found,
      has-titles-tab_bar c.tabs.active_tab_id c.files.unsaved_files _ c.tabs.open_tabs t found
          (is_unsaved_of_file c.files.unsaved_files t id kind resource m),
    )
