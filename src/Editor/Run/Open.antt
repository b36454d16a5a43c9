-- ===== src/Editor/Run/Open.antt =====
-- Which files have an open tab: what the operations of the tab manager and of the session registry do
-- to the tabs, the sessions and the unsaved marks of a file.
use mathlib.Core.Option
use sync_tex.Base.{
  or_else, String, Option, none, some, List, [], ◌∷◌, map, ◌==◌, eq_iff, eq_refl, Bool, true, false,
  not, ◌≡◌, refl, ◌∙◌, ◌⊎◌, inl, inr, arith, if◌then◌else◌, is_some, find, keep, All, All-append,
  has, has-add, has-discard, lookup, lookup-insert, Bool-cases, Option-cases,
}
use sync_tex.Tabs.{
  Tabs, Tab, Kind, TabPatch, FileInfo, file_tab_id, make_file_tab, add_tab, update_tab, patch_tab,
  close_tab, active_tab,
}
use sync_tex.Editor.Shown.{is_kind, active_file_id, active_file, active_file_tab}
use sync_tex.Tabs.Ids.{ids_of, ids, ids-add_tab, ids-close_tab, ids-update_tab}
use sync_tex.Sessions.{Registry, Callback, on_callback, on_callbacks, open_collab_session, is_given}
use sync_tex.Sessions.Sound.{on_callbacks_lem}

-- The file's tab is open; its id is not empty.
abbrev pub IsOpen : String → Tabs → Type 0
IsOpen id s = ((id == "") ≡ false) × (has (file_tab_id id) (ids s) ≡ true)

pub IsOpen-add_tab : (t : Tab) (s : Tabs) (id : String) → IsOpen id s → IsOpen id (add_tab t s)
IsOpen-add_tab t s id (given, there) = (given, rw (ids-add_tab t s, has-add, there) (ground arith))

pub IsOpen-added :
    (f : FileInfo) (s : Tabs) (id : String)
    → (f.id == "") ≡ false
    → (f.id == id) ≡ true
    → IsOpen id (add_tab (make_file_tab f) s)
unfolding make_file_tab
IsOpen-added f s id given same =
    let e = (eq_iff f.id id).0 same in
    rw (← e) (given, rw (ids-add_tab (make_file_tab f) s, has-add, eq_refl (file_tab_id f.id)) refl)

pub IsOpen-update_tab :
    (k : String) (p : TabPatch) (s : Tabs) (id : String)
    → p.id ≡ none
    → IsOpen id s
    → IsOpen id (update_tab k p s)
IsOpen-update_tab k p s id kept (given, there) = (given, rw (ids-update_tab k p s kept) there)

pub IsOpen-close_tab :
    (k : String) (s : Tabs) (id : String)
    → (k == file_tab_id id) ≡ false
    → IsOpen id s
    → IsOpen id (close_tab k s)
IsOpen-close_tab k s id other (given, there) =
    (given, rw (ids-close_tab k s, has-discard, other, there) refl)

-- A tab that shows a file has that file's id; and a tab with a file's id is that file's.
abbrev pub ShowsOwn : Tab → Type 0
ShowsOwn t =
    ((f : FileInfo) → t.file ≡ some f → t.id ≡ file_tab_id f.id)
    × ((id : String) → t.id ≡ file_tab_id id → (t.kind ≡ Kind.file) × (t.resource_id ≡ id))

pub ShowsOwn-add_tab :
    (t : Tab) (s : Tabs)
    → ShowsOwn t
    → All ShowsOwn s.open_tabs
    → All ShowsOwn (add_tab t s).open_tabs
unfolding add_tab
ShowsOwn-add_tab t s h hs = elim (Bool-cases (is_some (find (λ u. u.id == t.id) s.open_tabs))) [
  | inl there ↦ rw there hs
  | inr absent ↦ rw absent (All-append ShowsOwn s.open_tabs (t ∷ []) hs (h, tt))
]

pub ShowsOwn-keep :
    (k : String) (ts : List Tab) → All ShowsOwn ts → All ShowsOwn (keep (λ t. not (t.id == k)) ts)
ShowsOwn-keep k [] h = tt
ShowsOwn-keep k (t ∷ ts) (h, hs) = elim (Bool-cases (t.id == k)) [
  | inl same ↦ rw same (ShowsOwn-keep k ts hs)
  | inr other ↦ rw other (h, ShowsOwn-keep k ts hs)
]

pub ShowsOwn-close_tab :
    (k : String) (s : Tabs) → All ShowsOwn s.open_tabs → All ShowsOwn (close_tab k s).open_tabs
unfolding close_tab
ShowsOwn-close_tab k s h = ShowsOwn-keep k s.open_tabs h

ShowsOwn-patch :
    (new_id : Option String) (new_file file : Option FileInfo) (k id : String) (f : FileInfo)
    → new_id ≡ none
    → id ≡ k
    → ((g : FileInfo) → new_file ≡ some g → k ≡ file_tab_id g.id)
    → ((g : FileInfo) → file ≡ some g → id ≡ file_tab_id g.id)
    → or_else new_file file ≡ some f
    → Option.get_or new_id id ≡ file_tab_id f.id
ShowsOwn-patch none none file k id f kept same own h e = h f e
ShowsOwn-patch none (some g) file k id f kept same own h e = same ∙ own f e
ShowsOwn-patch (some j) new_file file k id f kept same own h e = cc

IsTab-patch :
    (p : TabPatch) (new_id new_resource : Option String) (new_kind : Option Kind) (t : Tab)
    → new_id ≡ none
    → new_kind ≡ none
    → new_resource ≡ none
    → ((id : String) → t.id ≡ file_tab_id id → (t.kind ≡ Kind.file) × (t.resource_id ≡ id))
    → (id : String) → Option.get_or new_id t.id ≡ file_tab_id id
    → (Option.get_or new_kind t.kind ≡ Kind.file) × (Option.get_or new_resource t.resource_id ≡ id)
IsTab-patch p none none none t i n r h id e = h id e
IsTab-patch p (some x) resource kind t i n r h id e = cc
IsTab-patch p none (some x) kind t i n r h id e = cc
IsTab-patch p none none (some x) t i n r h id e = cc

-- A patch of the tab `k` gives no id, kind or resource, and no file but that of the tab.
pub ShowsOwn-update_tab :
    (k : String) (p : TabPatch) (s : Tabs)
    → p.id ≡ none
    → p.kind ≡ none
    → p.resource_id ≡ none
    → ((f : FileInfo) → p.file ≡ some f → k ≡ file_tab_id f.id)
    → All ShowsOwn s.open_tabs
    → All ShowsOwn (update_tab k p s).open_tabs
unfolding update_tab
ShowsOwn-update_tab k p s kept kind resource own h = go s.open_tabs h
  where
    go :
        (ts : List Tab)
        → All ShowsOwn ts
        → All ShowsOwn (map (λ t. if t.id == k then patch_tab t p else t) ts)
    go [] h = tt
    go (t ∷ ts) (h, hs) = elim (Bool-cases (t.id == k)) [
      | inl same ↦ rw same (
        (
          λ f e. ShowsOwn-patch p.id p.file t.file k t.id f kept ((eq_iff t.id k).0 same) own h.0 e,
          IsTab-patch p p.id p.resource_id p.kind t kept kind resource h.1,
        ),
        go ts hs,
      )
      | inr other ↦ rw other (h, go ts hs)
    ]

pub sessions_of_opened :
    (id j : String) (token : Option String) (cs : List Callback) (s : Registry)
    → is_some (lookup j (open_collab_session id token cs s).collab_sessions) ≡ true
    → ((id == j) ≡ true) ⊎ (is_some (lookup j s.collab_sessions) ≡ true)
unfolding open_collab_session
sessions_of_opened id j token cs s h = elim (Option-cases (lookup id s.collab_sessions)) [
  | inl closed ↦ elim (Bool-cases (is_given token)) [
    | inl given ↦ elim (Bool-cases (id == j)) [
      | inl same ↦ inl same
      | inr other ↦ inr (rw (open_collab_session, closed, given, lookup-insert, other) at h)
    ]
    | inr no_token ↦ inr (rw (open_collab_session, closed, no_token) at h)
  ]
  | inr (n, there) ↦ inr (rw (open_collab_session, there) at h)
]

pub collab_sessions_of_called :
    (id : String) (c : Callback) (s : Registry)
    → (on_callback id c s).collab_sessions ≡ s.collab_sessions
unfolding on_callback on_callbacks
collab_sessions_of_called id c s = (on_callbacks_lem id (c ∷ []) s).0

-- What is shown of the active tab.
shown_in :
    (p : Tab → Bool) (ts : List Tab) (t : Tab)
    → All ShowsOwn ts
    → find p ts ≡ some t
    → ShowsOwn t × (has t.id (ids_of ts) ≡ true)
unfolding has
shown_in p [] t h e = cc
shown_in p (u ∷ ts) t (h, hs) e = elim (Bool-cases (p u)) [
  | inl here ↦
      let same : u ≡ t = let first : some u ≡ some t = rw here at e in cc in
      rw (← same) (h, rw (eq_refl u.id) refl)
  | inr there ↦
      let (own, found) = shown_in p ts t hs (rw there at e) in (own, rw found (ground arith))
]

-- The file that is edited is that of an open tab.
pub IsOpen-active :
    (s : Tabs) (k : String)
    → All ShowsOwn s.open_tabs
    → active_file_id s ≡ some k
    → (k == "") ≡ false
    → IsOpen k s
unfolding active_file_id active_file active_file_tab active_tab
IsOpen-active s k h e given = elim (Option-cases s.active_tab_id) [
  | inl off ↦
      let gone : none ≡ some k =
        rw (active_file_id, active_file, active_file_tab, active_tab, off) at e in
      cc
  | inr (a, on) ↦ elim (Option-cases (find (λ t. t.id == a) s.open_tabs)) [
    | inl lost ↦
        let gone : none ≡ some k =
          rw (active_file_id, active_file, active_file_tab, active_tab, on, lost) at e in
        cc
    | inr (t, there) ↦ elim (Bool-cases (is_kind t.kind Kind.file)) [
      | inr chat ↦
          let gone : none ≡ some k =
            rw (active_file_id, active_file, active_file_tab, active_tab, on, there, chat) at e in
          cc
      | inl of_file ↦ elim (Option-cases t.file) [
        | inl empty ↦
            let gone : none ≡ some k =
              rw
                (
                  active_file_id, active_file, active_file_tab, active_tab, on, there, of_file,
                  empty,
                )
                at e in
            cc
        | inr (f, shown) ↦
            let same : some f.id ≡ some k =
              rw
                (
                  active_file_id, active_file, active_file_tab, active_tab, on, there, of_file,
                  shown,
                )
                at e in
            let ((own, tab), found) = shown_in _ s.open_tabs t h there in
            let id : f.id ≡ k = cc in (given, rw (← id, ← own f shown) found)
      ]
    ]
  ]
]

-- A file with an open tab has one that is its own.
pub tab_of_IsOpen :
    (id : String) (ts : List Tab)
    → All ShowsOwn ts
    → has (file_tab_id id) (ids_of ts) ≡ true
    → (t : Tab) × (find (λ u. u.id == file_tab_id id) ts ≡ some t)
      × (t.kind ≡ Kind.file)
      × (t.resource_id ≡ id)
unfolding has
tab_of_IsOpen id [] h e = cc
tab_of_IsOpen id (t ∷ ts) (h, hs) e = elim (Bool-cases (t.id == file_tab_id id)) [
  | inl same ↦
      let (kind, resource) = h.1 id ((eq_iff t.id (file_tab_id id)).0 same) in
      (t, rw same, kind, resource)
  | inr other ↦
      let (u, found, kind, resource) = tab_of_IsOpen id ts hs (rw other at e) in
      (u, rw other found, kind, resource)
]
