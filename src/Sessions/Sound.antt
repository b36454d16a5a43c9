-- ===== src/Sessions/Sound.antt =====
-- What holds of the registry in every state: no trace is left of a file that has no session.
use sync_tex.Base.{
  ℕ, String, Option, none, some, List, [], ◌∷◌, ◌==◌, eq_iff, Bool, true, false, not, ◌||◌, ◌≡◌,
  refl, ap, sym, ◌∙◌, arith, is_some, ltb, Dict, lookup, lookup-insert, lookup-remove, Bool-cases,
  Option-cases, inl, inr,
}
use sync_tex.Sessions.{
  Registry, Binding, Callback, reported_status, reported_users, on_callback, on_callbacks,
  open_collab_session, close_collab_session, bind_session, bind_active_session, retry_due, is_given,
  is_bound, is_session, register, forget, close_all,
}

-- What the entries of a file satisfy: a file without a session has no other entry, and a binding is one
-- to the file's session.
abbrev pub EntriesSound : Option ℕ → Option Binding → Bool → Bool → Type 0
EntriesSound none none status live = (status ≡ false) × (live ≡ false)
EntriesSound none (some b) status live = ⊥
EntriesSound (some session) none status live = Unit
EntriesSound (some session) (some b) status live = b.session ≡ session

abbrev pub SoundAt : String → Registry → Type 0
SoundAt id s =
    EntriesSound (lookup id s.collab_sessions) (lookup id s.bound_editors)
      (is_some (lookup id s.collab_status)) (is_some (lookup id s.live_editors_by_file))

abbrev pub Sound : Registry → Type 0
Sound s = (id : String) → SoundAt id s

EntriesSound-of_registered :
    (session : Option ℕ) (b : Option Binding) (status live status' live' : Bool)
    → is_some session ≡ true
    → EntriesSound session b status live
    → EntriesSound session b status' live'
EntriesSound-of_registered (some n) none status live status' live' has_one h = tt
EntriesSound-of_registered (some n) (some b) status live status' live' has_one h = h
EntriesSound-of_registered none none status live status' live' has_one h = ground (arith, has_one)
EntriesSound-of_registered none (some b) status live status' live' has_one h = absurd h

EntriesSound-of_fresh :
    (n : ℕ) (b : Option Binding) (status live status' live' : Bool)
    → EntriesSound none b status live
    → EntriesSound (some n) b status' live'
EntriesSound-of_fresh n none status live status' live' h = tt
EntriesSound-of_fresh n (some b) status live status' live' h = absurd h

on_callback_of_other :
    (id j : String) (c : Callback) (s : Registry)
    → (id == j) ≡ false
    → SoundAt j s
    → SoundAt j (on_callback id c s)
unfolding on_callback
on_callback_of_other id j (reported_status status users) s other h =
    rw (lookup-insert, lookup-insert, other) h
on_callback_of_other id j (reported_users users) s other h = rw (lookup-insert, other) h

on_callbacks_of_other :
    (id j : String) (cs : List Callback) (s : Registry)
    → (id == j) ≡ false
    → SoundAt j s
    → SoundAt j (on_callbacks id cs s)
unfolding on_callbacks
on_callbacks_of_other id j [] s other h = h
on_callbacks_of_other id j (c ∷ cs) s other h =
    on_callbacks_of_other id j cs (on_callback id c s) other (on_callback_of_other id j c s other h)

-- Callbacks change neither sessions nor bindings.
pub on_callback_lem :
    (id : String) (c : Callback) (s : Registry)
    → ((on_callback id c s).collab_sessions ≡ s.collab_sessions)
      × ((on_callback id c s).bound_editors ≡ s.bound_editors)
      × ((on_callback id c s).made ≡ s.made)
unfolding on_callback
on_callback_lem id (reported_status status users) s = (refl, refl, refl)
on_callback_lem id (reported_users users) s = (refl, refl, refl)

pub on_callbacks_lem :
    (id : String) (cs : List Callback) (s : Registry)
    → ((on_callbacks id cs s).collab_sessions ≡ s.collab_sessions)
      × ((on_callbacks id cs s).bound_editors ≡ s.bound_editors)
      × ((on_callbacks id cs s).made ≡ s.made)
unfolding on_callbacks
on_callbacks_lem id [] s = (refl, refl, refl)
on_callbacks_lem id (c ∷ cs) s =
    let (a, b, m) = on_callback_lem id c s in
    let (a', b', m') = on_callbacks_lem id cs (on_callback id c s) in (a' ∙ a, b' ∙ b, m' ∙ m)

pub on_callback-Sound :
    (id : String) (c : Callback) (s : Registry)
    → is_some (lookup id s.collab_sessions) ≡ true
    → Sound s
    → Sound (on_callback id c s)
on_callback-Sound id c s has_one h j = elim (Bool-cases (id == j)) [
  | inl same ↦
      let (a, b, m) = on_callback_lem id c s in
      rw (a, b)
        (EntriesSound-of_registered (lookup j s.collab_sessions) (lookup j s.bound_editors) _ _ _ _
          (ground (arith, eq_iff id j)) (h j))
  | inr other ↦ on_callback_of_other id j c s other (h j)
]

register-Sound :
    (id : String) (cs : List Callback) (s : Registry)
    → lookup id s.collab_sessions ≡ none
    → Sound s
    → Sound (register id cs s)
register-Sound id cs s closed h j = elim (Bool-cases (id == j)) [
  | inl same ↦
      let (a, b, m) = on_callbacks_lem id cs s in
      rw (lookup-insert, same, b)
        (EntriesSound-of_fresh s.made (lookup j s.bound_editors) _ _ _ _ (
          rw (ap (λ i. lookup i s.collab_sessions) (sym ((eq_iff id j).0 same)) ∙ closed) at (h j)))
  | inr other ↦
      let (a, b, m) = on_callbacks_lem id cs s in
      rw (lookup-insert, other) (rw a at (on_callbacks_of_other id j cs s other (h j)))
]

pub open_collab_session-Sound :
    (id : String) (token : Option String) (cs : List Callback) (s : Registry)
    → Sound s
    → Sound (open_collab_session id token cs s)
unfolding open_collab_session
open_collab_session-Sound id token cs s h = elim (Option-cases (lookup id s.collab_sessions)) [
  | inl closed ↦ elim (Bool-cases (is_given token)) [
    | inl given ↦ rw (open_collab_session, closed, given) (register-Sound id cs s closed h)
    | inr missing ↦ rw (open_collab_session, closed, missing) h
  ]
  | inr (session, there) ↦ rw (open_collab_session, there) h
]

forget-Sound :
    (id : String) (cs : List Callback) (s : Registry)
    → Sound s
    → Sound (forget id (on_callbacks id cs s))
forget-Sound id cs s h j = elim (Bool-cases (id == j)) [
  | inl same ↦ rw (lookup-remove, lookup-remove, lookup-remove, lookup-remove, same) (refl, refl)
  | inr other ↦
      rw (lookup-remove, lookup-remove, lookup-remove, lookup-remove, other)
        (on_callbacks_of_other id j cs s other (h j))
]

pub close_collab_session-Sound :
    (id : String) (cs : List Callback) (s : Registry)
    → Sound s
    → Sound (close_collab_session id cs s)
unfolding close_collab_session
close_collab_session-Sound id cs s h = elim (Option-cases (lookup id s.collab_sessions)) [
  | inl closed ↦ rw (close_collab_session, closed) h
  | inr (session, there) ↦ rw (close_collab_session, there) (forget-Sound id cs s h)
]

EntriesSound-of_bound :
    (session : Option ℕ) (b : Option Binding) (status live : Bool) (n : ℕ) (model : Option ℕ)
    → session ≡ some n
    → EntriesSound session b status live
    → EntriesSound session (some (record { session = n; model = model })) status live
EntriesSound-of_bound none b status live n model e h = ground (arith, e)
EntriesSound-of_bound (some m) b status live n model e h = ground (arith, e)

bind_session-Sound :
    (id : String) (session attempt : ℕ) (model : Option ℕ) (ok : Bool) (s : Registry)
    → lookup id s.collab_sessions ≡ some session
    → Sound s
    → Sound (bind_session id session attempt model ok s).1
unfolding bind_session
bind_session-Sound id session attempt model true s there h j =
    elim (Bool-cases (is_bound (lookup id s.bound_editors) session model)) [
      | inl same ↦ rw same (h j)
      | inr other ↦ elim (Bool-cases (id == j)) [
        | inl here ↦
            rw (other, lookup-insert, here)
              (EntriesSound-of_bound (lookup j s.collab_sessions) (lookup j s.bound_editors) _ _
                session model
                (ap (λ i. lookup i s.collab_sessions) (sym ((eq_iff id j).0 here)) ∙ there) (h j))
        | inr away ↦ rw (other, lookup-insert, away) (h j)
      ]
    ]
bind_session-Sound id session attempt model false s there h j =
    elim (Bool-cases (is_bound (lookup id s.bound_editors) session model)) [
      | inl same ↦ rw same (h j)
      | inr other ↦ elim (Bool-cases (ltb attempt 10)) [
        | inl more ↦ rw (other, more) (h j)
        | inr last ↦ rw (other, last) (h j)
      ]
    ]

pub bind_active_session-Sound :
    (id : String) (is_collab : Bool) (attempt : ℕ) (model : Option ℕ) (ok : Bool) (s : Registry)
    → Sound s
    → Sound (bind_active_session id is_collab attempt model ok s).1
unfolding bind_active_session
bind_active_session-Sound id is_collab attempt model ok s h =
    elim (Bool-cases (not is_collab || (id == ""))) [
      | inl off ↦ rw off h
      | inr on ↦ elim (Option-cases (lookup id s.collab_sessions)) [
        | inl closed ↦ rw (on, closed) h
        | inr (session, there) ↦
            rw (on, there) (bind_session-Sound id session attempt model ok s there h)
      ]
    ]

pub retry_due-Sound :
    (id : String) (session attempt : ℕ) (model : Option ℕ) (ok : Bool) (s : Registry)
    → Sound s
    → Sound (retry_due id session attempt model ok s).1
unfolding retry_due
retry_due-Sound id session attempt model ok s h =
    elim (Bool-cases (is_session session (lookup id s.collab_sessions))) [
      | inl current ↦ rw current (bind_active_session-Sound id true attempt model ok s h)
      | inr stale ↦ rw stale h
    ]

pub close_all-Sound :
    (ids : Dict ℕ) (callbacks : String → List Callback) (s : Registry)
    → Sound s
    → Sound (close_all ids callbacks s)
unfolding close_all
close_all-Sound [] callbacks s h = h
close_all-Sound ((id, session) ∷ ids) callbacks s h =
    close_all-Sound ids callbacks (close_collab_session id (callbacks id) s)
      (close_collab_session-Sound id (callbacks id) s h)
