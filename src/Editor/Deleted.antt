-- ===== src/Editor/Deleted.antt =====
-- What is left of an item that is deleted from the view.
use sync_tex.Base.{
  String, none, List, ◌==◌, eq_iff, Bool, true, false, not, ◌&&◌, ◌≡◌, refl, sym, ap, ◌∙◌,
  if◌then◌else◌, lookup, has, has-discard, lookup-remove, resolved, Bool-cases, inl, inr,
}
use sync_tex.Tabs.{file_tab_id}
use sync_tex.Tabs.Ids.{ids, ids-close_tab}
use sync_tex.Tree.{Directories}
use sync_tex.Files.{ItemType, handle_delete_item, clear_file_content}
use sync_tex.Sessions.{Callback}
use sync_tex.Editor.{Client, delete_item_and_close}
use sync_tex.Editor.Cleanup.{close_file_tab}
use sync_tex.Editor.Run.Owned.{file_tab_id-injective}

file_tab_id-eq : (a b : String) → (file_tab_id a == file_tab_id b) ≡ (a == b)
file_tab_id-eq a b = elim (Bool-cases (a == b)) [
  | inl same ↦ rw same ((eq_iff _ _).1 (ap file_tab_id ((eq_iff a b).0 same)))
  | inr other ↦ elim (Bool-cases (file_tab_id a == file_tab_id b)) [
    | inl same ↦
        let e = (eq_iff a b).1 (file_tab_id-injective a b ((eq_iff _ _).0 same)) in
        rw (same, other) (sym e ∙ other)
    | inr apart ↦ rw (apart, other) refl
  ]
]

-- After a file is deleted, it has no tab, no session, no content and no unsaved mark, and every other
-- file keeps its own. After a folder is deleted, the tree is the one that was fetched, and everything
-- else is as before: the tabs, sessions, contents and marks of the files that were in it are kept.
pub delete_item_and_close_lem :
    (id j : String) (tree : Directories) (callbacks : List Callback) (c : Client)
    → (id == "") ≡ false
    → (has (file_tab_id j) (
          ids
            (delete_item_and_close id ItemType.file (resolved tt) (resolved tree) callbacks c).tabs)
        ≡ (if id == j then false else has (file_tab_id j) (ids c.tabs)))
      × (lookup j
            (delete_item_and_close id ItemType.file
              (resolved tt)
              (resolved tree)
              callbacks
              c).sessions.collab_sessions
          ≡ (if id == j then none else lookup j c.sessions.collab_sessions))
      × (lookup j
            (delete_item_and_close id ItemType.file
              (resolved tt)
              (resolved tree)
              callbacks
              c).files.file_contents
          ≡ (if id == j then none else lookup j c.files.file_contents))
      × (has j
            (delete_item_and_close id ItemType.file
              (resolved tt)
              (resolved tree)
              callbacks
              c).files.unsaved_files
          ≡ (if id == j then false else has j c.files.unsaved_files))
      × (delete_item_and_close id ItemType.folder (resolved tt) (resolved tree) callbacks c
          ≡ record c { files = record c.files { tree_data = tree } })
unfolding delete_item_and_close handle_delete_item clear_file_content
delete_item_and_close_lem id j tree callbacks c given =
    let cleared = record c {
      files = clear_file_content id (record c.files { tree_data = tree });
    } in
    let (tab, session, content, mark, saved) = close_file_tab callbacks id j cleared given in
    (
      rw (ids-close_tab (file_tab_id id) c.tabs, has-discard, file_tab_id-eq id j)
          (negated (id == j) _),
      session,
      content
          ∙ ap (λ o. if id == j then none else o) (lookup-remove id j c.files.file_contents)
          ∙ twice (id == j) none _,
      mark
          ∙ ap (λ b. if id == j then false else b)
              (has-discard id j c.files.unsaved_files ∙ negated (id == j) _)
          ∙ twice (id == j) false _,
      refl,
    )
  where
    negated : (b x : Bool) → (not b && x) ≡ (if b then false else x)
    negated true x = refl
    negated false x = refl

    twice :
        {A : Type 0} (b : Bool) (x y : A)
        → (if b then x else (if b then x else y)) ≡ (if b then x else y)
    twice true x y = refl
    twice false x y = refl
