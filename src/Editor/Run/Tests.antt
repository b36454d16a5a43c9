-- ===== src/Editor/Run/Tests.antt =====
-- Runs of the view.
use sync_tex.Base.{
  find, template, ◌==◌, add, if◌then◌else◌, ℕ, leb, ◌+◌, ◌-◌, to_text, num, String, none, some,
  List, [], ◌∷◌, true, false, ◌≡◌, refl, inl, is_some, has, lookup, insert, remove, resolved,
  rejected,
}
use sync_tex.Markup.{titles}
use sync_tex.Tabs.Bar.{tab_bar, label}
use sync_tex.Tree.{nil}
use sync_tex.Files.{ItemType, Save, handle_editor_change}
use sync_tex.Editor.Run.Marked.{run_marked}
use sync_tex.Editor.Deleted.{delete_item_and_close_lem}
use sync_tex.Tabs.{Tab, FileInfo, file_tab_id, chat_tab_id, make_file_tab, make_chat_tab}
use sync_tex.Tabs.Ids.{ids}
use sync_tex.Chats.{Chats, no_chats, create_new_chat}
use sync_tex.Sessions.{close_collab_session}
use sync_tex.Editor.{Client, delete_item_and_close, close, handle_file_select}
use sync_tex.Editor.Shown.{handle_create_chat_tab, active_file_id, active_file, active_file_tab}
use sync_tex.Editor.Run.{
  Event, View, loaded, save_ended, selected, edited, chat_created, tab_closed, run, mounted,
}
use sync_tex.Editor.Layout.{Numbers, Layout}
use sync_tex.Editor.Page.{page, panels, files_panel, tabs_with_file}
use sync_tex.Editor.Run.Failed.{ShowsError, failure_ends_view}
use sync_tex.Editor.Run.Always.{run_in_sight}

abbrev file_named : String → FileInfo
file_named id = record {
  id = id;
  filename = "main.tex";
  file_type = some "tex";
  download_url = none;
}

abbrev no_chats_yet : Chats ℕ
no_chats_yet = no_chats ℕ

abbrev two_files : List Event
two_files =
    selected true (some "token") [] (file_named "f1")
    ∷ selected true (some "token") [] (file_named "f2")
    ∷ chat_created (resolved (record { id = "f1"; title = "Help" }))
    ∷ tab_closed (file_tab_id "f1") []
    ∷ []

session_of_f2 :
    is_some (
      lookup "f2"
        (run (λ s. s) (λ n. "") two_files (mounted no_chats_yet)).client.sessions.collab_sessions)
    ≡ true
unfolding run handle_file_select handle_create_chat_tab create_new_chat close lookup insert remove
    has close_collab_session make_file_tab make_chat_tab file_tab_id chat_tab_id
session_of_f2 = refl

-- Its tab is closed, and its session with it; the chat of the same id keeps its tab.
nothing_of_f1 :
    (is_some (
        lookup "f1"
          (run (λ s. s) (λ n. "") two_files (mounted no_chats_yet)).client.sessions.collab_sessions)
      ≡ false)
    × (ids (run (λ s. s) (λ n. "") two_files (mounted no_chats_yet)).client.tabs
        ≡ file_tab_id "f2" ∷ chat_tab_id "f1" ∷ [])
unfolding run handle_file_select handle_create_chat_tab create_new_chat close lookup insert remove
    has close_collab_session make_file_tab make_chat_tab file_tab_id chat_tab_id
nothing_of_f1 = (refl, refl)

run_in_sight_example :
    has
      (file_tab_id "f2")
      (ids (run (λ s. s) (λ n. "") two_files (mounted no_chats_yet)).client.tabs)
    ≡ true
run_in_sight_example =
    run_in_sight (λ s. s) (λ n. "") no_chats_yet two_files "f2" (refl, (refl, (tt, (tt, tt))))
      (inl session_of_f2)

abbrev typed_in : List Event
typed_in = selected false none [] (file_named "f1") ∷ edited (some "text") ∷ []

mark_of_f1 :
    has "f1" (run (λ s. s) (λ n. "") typed_in (mounted no_chats_yet)).client.files.unsaved_files
    ≡ true
unfolding run handle_file_select handle_editor_change active_file_id add lookup has make_file_tab
    file_tab_id active_file active_file_tab
mark_of_f1 = refl

run_marked_example :
    (t : Tab) × (find
        (λ u. u.id == file_tab_id "f1")
        (run (λ s. s) (λ n. "") typed_in (mounted no_chats_yet)).client.tabs.open_tabs
      ≡ some t)
    × (has (template (label t ∷ " (unsaved)" ∷ [])) (
          titles (
            tab_bar
              (run (λ s. s) (λ n. "") typed_in (mounted no_chats_yet)).client.tabs.open_tabs
              (run (λ s. s) (λ n. "") typed_in (mounted no_chats_yet)).client.tabs.active_tab_id
              (run (λ s. s) (λ n. "") typed_in (mounted no_chats_yet)).client.files.unsaved_files))
        ≡ true)
run_marked_example =
    run_marked (λ s. s) (λ n. "") no_chats_yet typed_in "f1" (refl, (tt, tt)) mark_of_f1

abbrev one_open : Client
one_open = (run (λ s. s) (λ n. "") typed_in (mounted no_chats_yet)).client

delete_item_and_close_lem_example :
    (has (file_tab_id "f1") (
        ids
          (delete_item_and_close "f1" ItemType.file (resolved tt) (resolved nil) [] one_open).tabs)
      ≡ (if "f1" == "f1" then false else has (file_tab_id "f1") (ids one_open.tabs)))
    × (lookup "f1"
          (delete_item_and_close "f1" ItemType.file
            (resolved tt)
            (resolved nil)
            []
            one_open).sessions.collab_sessions
        ≡ (if "f1" == "f1" then none else lookup "f1" one_open.sessions.collab_sessions))
    × (lookup "f1"
          (delete_item_and_close "f1" ItemType.file
            (resolved tt)
            (resolved nil)
            []
            one_open).files.file_contents
        ≡ (if "f1" == "f1" then none else lookup "f1" one_open.files.file_contents))
    × (has "f1"
          (delete_item_and_close "f1" ItemType.file
            (resolved tt)
            (resolved nil)
            []
            one_open).files.unsaved_files
        ≡ (if "f1" == "f1" then false else has "f1" one_open.files.unsaved_files))
    × (delete_item_and_close "f1" ItemType.folder (resolved tt) (resolved nil) [] one_open
        ≡ record one_open { files = record one_open.files { tree_data = nil } })
delete_item_and_close_lem_example = delete_item_and_close_lem "f1" "f1" nil [] one_open refl

-- A save that was refused, and all that may be done with the explorer afterwards.
abbrev pixels : Numbers
pixels = record {
  Number = ℕ;
  whole = λ n. n;
  le = leb;
  plus = λ a b. a + b;
  minus = λ a b. a - b;
  print = λ a. to_text (num a);
}

abbrev no_layout : Layout pixels
no_layout = record {
  sidebar_panel = "files";
  sidebar_open = true;
  main_panel = none;
  sidebar_width = 300;
  resize_pointer = none;
  is_resizing = false;
}

abbrev job_of_f1 : Save
job_of_f1 = record { file_id = "f1"; content = some "text"; from_session = false }

abbrev after_refusal : View ℕ
after_refusal =
    run (λ s. s) (λ n. "") (save_ended job_of_f1 (rejected "403") ∷ two_files)
      (run (λ s. s) (λ n. "") typed_in (mounted no_chats_yet))

shown_before :
    page false
      (run (λ s. s) (λ n. "") typed_in (mounted no_chats_yet)).client.files.error
      no_layout
      (run (λ s. s) (λ n. "") typed_in (mounted no_chats_yet)).client.tabs
    ≡ panels (some files_panel) tabs_with_file
unfolding run handle_file_select handle_editor_change make_file_tab file_tab_id page active_file_id
    active_file active_file_tab lookup has add
shown_before = refl

failure_ends_view_example :
    ShowsError no_layout after_refusal
    × ShowsError no_layout (
        run
          (λ s. s)
          (λ n. "")
          (loaded "f1" (rejected "403") ∷ two_files)
          (run (λ s. s) (λ n. "") typed_in (mounted no_chats_yet)))
failure_ends_view_example =
    failure_ends_view (λ s. s) (λ n. "") job_of_f1 "f1" "403" two_files
      (run (λ s. s) (λ n. "") typed_in (mounted no_chats_yet)) no_layout (tt, (tt, (tt, (tt, tt))))
