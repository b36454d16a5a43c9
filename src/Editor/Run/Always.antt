-- ===== src/Editor/Run/Always.antt =====
-- Every run of the view keeps what is open in the background in sight.
use sync_tex.Base.{
  ℕ, String, List, [], ◌∷◌, ◌==◌, true, ◌≡◌, refl, ◌⊎◌, inl, inr, is_some, find, has, lookup,
  Bool-cases, Option-cases, Answer, resolved, rejected,
}
use sync_tex.Tabs.{Chat, chat_tab_id, file_tab_id, make_chat_tab}
use sync_tex.Tabs.Ids.{ids}
use sync_tex.Sessions.Stale.{bind_active_session-same, retry_due-same}
use sync_tex.Chats.{Chats, create_new_chat, remove_chat}
use sync_tex.Editor.{Client}
use sync_tex.Editor.Opened.{load_answered}
use sync_tex.Editor.Cleanup.{close_chat_tab}
use sync_tex.Editor.Shown.{handle_open_chat_tab, handle_create_chat_tab, handle_delete_chat}
use sync_tex.Editor.Run.{
  Event, View, empty_client, mounted, HasId, AllHaveIds, step, run, selected, refreshed,
  project_loaded, loaded, edited, save_began, save_ended, created, uploaded, renamed, deleted,
  tab_selected, tab_closed, chat_opened, chat_created, chat_deleted, chat_titled, called, bound,
  retried,
}
use sync_tex.Editor.Run.Open.{collab_sessions_of_called}
use sync_tex.Editor.Run.Owned.{
  IsOwned, ShowsOwn-chat, IsOwned-files, IsOwned-sessions, IsOwned-add_tab, IsOwned-select,
  IsOwned-selected, IsOwned-close,
}
use sync_tex.Editor.Run.Steps.{
  IsOwned-created, IsOwned-uploaded, IsOwned-edited, IsOwned-saving, IsOwned-saved, IsOwned-loaded,
  IsOwned-refreshed, IsOwned-deleted, IsOwned-renamed, IsOwned-update_tab,
}

module _ {Message : Type 0} (c : Client) (h : IsOwned c) where
  IsOwned-chat_opened :
      (id : String) (chats : Chats Message)
      → IsOwned (record c { tabs = (handle_open_chat_tab id (chats, c.tabs)).1 })
  unfolding handle_open_chat_tab
  IsOwned-chat_opened id chats = elim (Option-cases (find (λ x. x.id == id) chats.chats)) [
    | inl missing ↦ rw (handle_open_chat_tab, missing) h
    | inr (x, there) ↦
        rw (handle_open_chat_tab, there)
          (elim (Bool-cases (is_some (find (λ t. t.id == chat_tab_id x.id) c.tabs.open_tabs))) [
            | inl shown ↦ rw shown (IsOwned-select c h (chat_tab_id x.id))
            | inr new ↦ rw new (IsOwned-add_tab c h (make_chat_tab x) (ShowsOwn-chat x))
          ])
  ]

  IsOwned-chat_created :
      (answer : Answer Chat) (chats : Chats Message)
      → IsOwned (record c { tabs = (handle_create_chat_tab answer (chats, c.tabs)).1 })
  unfolding handle_create_chat_tab create_new_chat
  IsOwned-chat_created (rejected message) chats = h
  IsOwned-chat_created (resolved x) chats = IsOwned-add_tab c h (make_chat_tab x) (ShowsOwn-chat x)

  IsOwned-chat_deleted :
      (id : String) (answer : Answer (Unit {0})) (chats : Chats Message)
      → IsOwned (record c { tabs = (handle_delete_chat id answer (chats, c.tabs)).1 })
  unfolding handle_delete_chat remove_chat
  IsOwned-chat_deleted id (rejected message) chats = h
  IsOwned-chat_deleted id (resolved _) chats =
      rw (← close_chat_tab [] id c) (IsOwned-close c h [] (chat_tab_id id))

module _ {Message : Type 0} (lower : String → String) (document : ℕ → String) where
  step-IsOwned :
      (e : Event) (v : View Message)
      → HasId e
      → IsOwned v.client
      → IsOwned (step lower document e v).client
  unfolding step load_answered
  step-IsOwned (selected is_collab token callbacks f) v given h =
      IsOwned-selected v.client h lower is_collab token callbacks f given
  step-IsOwned (refreshed tree) v given h = IsOwned-refreshed v.client h tree
  step-IsOwned (project_loaded (resolved found)) v given h = h
  step-IsOwned (project_loaded (rejected message)) v given h = IsOwned-files v.client h _ (λ j m. m)
  step-IsOwned (loaded id content) v given h = IsOwned-loaded v.client h id content
  step-IsOwned (edited value) v given h = IsOwned-edited v.client h _ value
  step-IsOwned save_began v given h = IsOwned-saving v.client h _
  step-IsOwned (save_ended job answer) v given h = IsOwned-saved v.client h job answer
  step-IsOwned (created is_collab token callbacks response tree) v given h =
      IsOwned-created v.client h is_collab token callbacks response tree
  step-IsOwned (uploaded response tree) v given h = IsOwned-uploaded v.client h response tree
  step-IsOwned (renamed id type name answer tree open_tabs) v given h =
      IsOwned-renamed v.client h id type name answer tree open_tabs
  step-IsOwned (deleted id type answer tree callbacks) v given h =
      IsOwned-deleted v.client h id type answer tree callbacks
  step-IsOwned (tab_selected tab_id) v given h = IsOwned-select v.client h tab_id
  step-IsOwned (tab_closed tab_id callbacks) v given h = IsOwned-close v.client h callbacks tab_id
  step-IsOwned (chat_opened id) v given h = IsOwned-chat_opened v.client h id v.chats
  step-IsOwned (chat_created answer) v given h = IsOwned-chat_created v.client h answer v.chats
  step-IsOwned (chat_deleted id answer) v given h =
      IsOwned-chat_deleted v.client h id answer v.chats
  step-IsOwned (chat_titled id title) v given h =
      IsOwned-update_tab v.client h (chat_tab_id id) _ refl refl refl (λ f e. cc)
  step-IsOwned (called id callback) v given h =
      IsOwned-sessions v.client h _ (collab_sessions_of_called id callback v.client.sessions)
  step-IsOwned (bound id is_collab model ok) v given h =
      IsOwned-sessions v.client h _
        (bind_active_session-same id is_collab 0 model ok v.client.sessions).0
  step-IsOwned (retried id session attempt model ok) v given h =
      IsOwned-sessions v.client h _ (retry_due-same id session attempt model ok v.client.sessions).0

  run-IsOwned :
      (es : List Event) (v : View Message)
      → AllHaveIds es
      → IsOwned v.client
      → IsOwned (run lower document es v).client
  unfolding run
  run-IsOwned [] v given h = h
  run-IsOwned (e ∷ es) v (given, rest) h =
      run-IsOwned es (step lower document e v) rest (step-IsOwned e v given h)

empty_client-IsOwned : IsOwned empty_client
unfolding lookup has
empty_client-IsOwned = record { own = tt; sessions = λ id m. cc; marks = λ id m. cc }

pub mounted-IsOwned :
    {Message : Type 0} (lower : String → String) (document : ℕ → String) (chats : Chats Message)
    (es : List Event)
    → AllHaveIds es
    → IsOwned (run lower document es (mounted chats)).client
mounted-IsOwned lower document chats es given =
    run-IsOwned lower document es (mounted chats) given empty_client-IsOwned

-- Whatever happens in the view of a project, in any order and whatever is answered, where each file
-- that is selected has an id: a file that has a collaborative session or an unsaved mark has an open
-- tab.
pub run_in_sight :
    {Message : Type 0} (lower : String → String) (document : ℕ → String) (chats : Chats Message)
    (es : List Event) (id : String)
    → AllHaveIds es
    → (is_some (lookup id (run lower document es (mounted chats)).client.sessions.collab_sessions)
        ≡ true)
      ⊎ (has id (run lower document es (mounted chats)).client.files.unsaved_files ≡ true)
    → has (file_tab_id id) (ids (run lower document es (mounted chats)).client.tabs) ≡ true
run_in_sight lower document chats es id given alive =
    let h = mounted-IsOwned lower document chats es given in
    elim alive [ inl m ↦ (h.sessions id m).1 | inr m ↦ (h.marks id m).1 ]
