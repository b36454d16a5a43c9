-- ===== src/Editor/Run/Owned.antt =====
-- Over any run of the view, what is open in the background belongs to an open tab: each session, and
-- each unsaved mark.
use sync_tex.Base.{
  String, Option, none, some, List, ◌==◌, eq_iff, eq_refl, Bool, true, false, not, ◌&&◌, ◌≡◌, refl,
  ap, sym, ◌∙◌, ◌⊎◌, inl, inr, if◌then◌else◌, is_some, find, All, has, has-discard, lookup,
  Bool-cases, Option-cases,
}
use sync_tex.Tabs.{
  Tab, FileInfo, Chat, file_tab_id, make_file_tab, make_chat_tab, add_tab, close_tab,
  handle_tab_close, handle_tab_select,
}
use sync_tex.Files.{Files, clear_file_content, set_file_url}
use sync_tex.Sessions.{Registry, Callback, open_collab_session}
use sync_tex.Editor.{
  Client, close, tab_closed, resource_id_from_tab_id, handle_file_select, is_image_type,
}
use sync_tex.Sessions.Run.{sessions_of_closed}
use sync_tex.Editor.Cleanup.{close_file_tab, resource_id-file_tab_id, resource_id-chat_tab_id}
use sync_tex.Editor.Run.Open.{
  IsOpen, IsOpen-add_tab, IsOpen-added, IsOpen-close_tab, ShowsOwn, ShowsOwn-add_tab,
  ShowsOwn-close_tab, sessions_of_opened,
}

pub record IsOwned (c : Client) : Type 0 where
  pub own : All ShowsOwn c.tabs.open_tabs
  pub sessions :
      (id : String) → is_some (lookup id c.sessions.collab_sessions) ≡ true → IsOpen id c.tabs
  pub marks : (id : String) → has id c.files.unsaved_files ≡ true → IsOpen id c.tabs

kept_session {ℓ} :
    {A : Type ℓ} (b : Bool) (o : Option A)
    → is_some (if b then none else o) ≡ true
    → is_some o ≡ true
kept_session true o h = cc
kept_session false o h = h

pub kept_mark : (b has_mark : Bool) → (not b && has_mark) ≡ true → has_mark ≡ true
kept_mark true has_mark h = cc
kept_mark false has_mark h = h

pub file_tab_id-injective : (a b : String) → file_tab_id a ≡ file_tab_id b → a ≡ b
file_tab_id-injective a b e =
    let same : some a ≡ some b =
      sym (resource_id-file_tab_id a)
      ∙ ap (λ k. resource_id_from_tab_id k "file:") e
      ∙ resource_id-file_tab_id b in
    cc

pub ShowsOwn-file : (f : FileInfo) → ShowsOwn (make_file_tab f)
unfolding make_file_tab
ShowsOwn-file f = (λ g e. cc, λ id e. (refl, file_tab_id-injective f.id id e))

pub ShowsOwn-chat : (c : Chat) → ShowsOwn (make_chat_tab c)
unfolding make_chat_tab
ShowsOwn-chat c = (
  λ f e. cc,
  λ id e.
      let gone : none ≡ some id =
        sym (resource_id-chat_tab_id c.id)
        ∙ ap (λ k. resource_id_from_tab_id k "file:") e
        ∙ resource_id-file_tab_id id in
      cc,
)

-- Where only the files change, and no mark is added.
module _ (c : Client) (h : IsOwned c) where
  pub IsOwned-files :
      (files : Files)
      → ((id : String) → has id files.unsaved_files ≡ true → has id c.files.unsaved_files ≡ true)
      → IsOwned (record c { files = files })
  IsOwned-files files fewer = record {
    own = h.own;
    sessions = h.sessions;
    marks = λ id m. h.marks id (fewer id m);
  }

  pub IsOwned-marks :
      {files : Files}
      → ((id : String) → has id files.unsaved_files ≡ true → IsOpen id c.tabs)
      → IsOwned (record c { files = files })
  IsOwned-marks marks = record { own = h.own; sessions = h.sessions; marks = marks }

  pub IsOwned-sessions :
      (sessions : Registry)
      → sessions.collab_sessions ≡ c.sessions.collab_sessions
      → IsOwned (record c { sessions = sessions })
  IsOwned-sessions sessions same = record {
    own = h.own;
    sessions = λ id m. h.sessions id (rw same at m);
    marks = h.marks;
  }

  pub IsOwned-add_tab : (t : Tab) → ShowsOwn t → IsOwned (record c { tabs = add_tab t c.tabs })
  IsOwned-add_tab t own = record {
    own = ShowsOwn-add_tab t c.tabs own h.own;
    sessions = λ id m. IsOpen-add_tab t c.tabs id (h.sessions id m);
    marks = λ id m. IsOpen-add_tab t c.tabs id (h.marks id m);
  }

  pub IsOwned-select : (k : String) → IsOwned (record c { tabs = handle_tab_select k c.tabs })
  unfolding handle_tab_select
  IsOwned-select k = record { own = h.own; sessions = h.sessions; marks = h.marks }

  pub IsOwned-open :
      (f : FileInfo) (token : Option String) (callbacks : List Callback)
      → (f.id == "") ≡ false
      → IsOwned (record c {
        tabs = add_tab (make_file_tab f) c.tabs;
        sessions = open_collab_session f.id token callbacks c.sessions;
      })
  IsOwned-open f token callbacks given = record {
    own = ShowsOwn-add_tab (make_file_tab f) c.tabs (ShowsOwn-file f) h.own;
    sessions = λ id m. elim (sessions_of_opened f.id id token callbacks c.sessions m) [
      | inl same ↦ IsOpen-added f c.tabs id given same
      | inr before ↦ IsOpen-add_tab (make_file_tab f) c.tabs id (h.sessions id before)
    ];
    marks = λ id m. IsOpen-add_tab (make_file_tab f) c.tabs id (h.marks id m);
  }

  pub IsOwned-selected :
      (lower : String → String) (is_collab : Bool) (token : Option String)
      (callbacks : List Callback) (f : FileInfo)
      → (f.id == "") ≡ false
      → IsOwned (handle_file_select lower is_collab token callbacks f c).1
  unfolding handle_file_select set_file_url
  IsOwned-selected lower is_collab token callbacks f given =
      elim (Bool-cases (is_some (find (λ t. t.id == file_tab_id f.id) c.tabs.open_tabs))) [
        | inl there ↦ rw there (IsOwned-select (file_tab_id f.id))
        | inr absent ↦ elim (Bool-cases (is_image_type lower f.file_type)) [
          | inl image ↦
              rw (absent, image)
                (let o = IsOwned-add_tab (make_file_tab f) (ShowsOwn-file f) in
                  record { own = o.own; sessions = o.sessions; marks = o.marks })
          | inr other ↦ elim (Bool-cases is_collab) [
            | inl collab ↦ rw (absent, other, collab) (IsOwned-open f token callbacks given)
            | inr alone ↦
                rw (absent, other, alone) (IsOwned-add_tab (make_file_tab f) (ShowsOwn-file f))
          ]
        ]
      ]

  fewer_sessions :
      (callbacks : List Callback) (k id : String)
      → is_some (lookup id (close callbacks k c).sessions.collab_sessions) ≡ true
      → is_some (lookup id c.sessions.collab_sessions) ≡ true
  unfolding close handle_tab_close tab_closed
  fewer_sessions callbacks k id m = elim (Option-cases (resource_id_from_tab_id k "file:")) [
    | inl other ↦ rw (tab_closed, other) at m
    | inr (j, there) ↦ elim (Bool-cases (j == "")) [
      | inl empty ↦ rw (tab_closed, there, empty) at m
      | inr given ↦
          kept_session (j == id) (lookup id c.sessions.collab_sessions)
            (rw (tab_closed, there, given, sessions_of_closed j id callbacks c.sessions) at m)
    ]
  ]

  fewer_marks :
      (callbacks : List Callback) (k id : String)
      → has id (close callbacks k c).files.unsaved_files ≡ true
      → has id c.files.unsaved_files ≡ true
  unfolding close handle_tab_close tab_closed clear_file_content
  fewer_marks callbacks k id m = elim (Option-cases (resource_id_from_tab_id k "file:")) [
    | inl other ↦ rw (tab_closed, other) at m
    | inr (j, there) ↦ elim (Bool-cases (j == "")) [
      | inl empty ↦ rw (tab_closed, there, empty) at m
      | inr given ↦
          kept_mark (j == id) (has id c.files.unsaved_files)
            (rw (tab_closed, there, given, has-discard j id c.files.unsaved_files) at m)
    ]
  ]

  tabs_of_closed :
      (callbacks : List Callback) (k : String) → (close callbacks k c).tabs ≡ close_tab k c.tabs
  unfolding close handle_tab_close
  tabs_of_closed callbacks k = refl

  nothing_left :
      (callbacks : List Callback) (id : String)
      → (id == "") ≡ false
      → ¬ (
          (is_some (lookup id (close callbacks (file_tab_id id) c).sessions.collab_sessions) ≡ true)
          ⊎ (has id (close callbacks (file_tab_id id) c).files.unsaved_files ≡ true))
  nothing_left callbacks id given left =
      let (tabs, session, content, mark, saved) = close_file_tab callbacks id id c given in
      elim left [
        | inl m ↦ let gone : false ≡ true = rw (session, eq_refl id) at m in cc
        | inr m ↦ let gone : false ≡ true = rw (mark, eq_refl id) at m in cc
      ]

  -- What is left of a file whose session or mark is left does not belong to the tab that goes.
  is_other_tab :
      (callbacks : List Callback) (k id : String)
      → (id == "") ≡ false
      → (is_some (lookup id (close callbacks k c).sessions.collab_sessions) ≡ true)
        ⊎ (has id (close callbacks k c).files.unsaved_files ≡ true)
      → (k == file_tab_id id) ≡ false
  is_other_tab callbacks k id given left = elim (Bool-cases (k == file_tab_id id)) [
    | inr other ↦ other
    | inl same ↦ absurd (nothing_left callbacks id given (rw ((eq_iff k _).0 same) at left))
  ]

  pub IsOwned-close : (callbacks : List Callback) (k : String) → IsOwned (close callbacks k c)
  IsOwned-close callbacks k = record {
    own = rw (tabs_of_closed callbacks k) (ShowsOwn-close_tab k c.tabs h.own);
    sessions = λ id m.
        let before = h.sessions id (fewer_sessions callbacks k id m) in
        rw (tabs_of_closed callbacks k)
          (IsOpen-close_tab k c.tabs id (is_other_tab callbacks k id before.0 (inl m)) before);
    marks = λ id m.
        let before = h.marks id (fewer_marks callbacks k id m) in
        rw (tabs_of_closed callbacks k)
          (IsOpen-close_tab k c.tabs id (is_other_tab callbacks k id before.0 (inr m)) before);
  }
