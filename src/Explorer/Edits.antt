-- ===== src/Explorer/Edits.antt =====
-- Editing the name of an item.
use sync_tex.Base.{
  String, Option, none, some, List, [], ◌∷◌, ◌==◌, Bool, true, false, ◌≡◌, refl, ap, ◌∙◌, ◌⊎◌,
  arith, any, All, resolved, Bool-cases, inl, inr,
}
use sync_tex.Explorer.{
  Explorer, Index, Locale, Node, NodeType, Edit, EditKind, create, request, visible_nodes,
  is_pending, open_directory, begin_create, begin_rename, edit_changed, edit_cancelled,
  begin_commit, end_commit, name_error, taken,
}

All-not_any : (p : Node → Bool) (ns : List Node) → any p ns ≡ false → All (λ n. p n ≡ false) ns
All-not_any p [] h = tt
All-not_any p (n ∷ ns) h = (ground (arith, h), All-not_any p ns (ground (arith, h)))

module _ (L : Locale) where
  name_error_lem :
      (ix : Index) (kind : EditKind) (value : String) (s : Explorer)
      → (name_error L ix kind value s == "") ≡ true
      → ((L.trim value == "") ≡ false)
        × All (λ n. taken L (L.trim value) kind n ≡ false) (visible_nodes ix s)
  unfolding name_error
  name_error_lem ix kind value s h = elim (Bool-cases (L.trim value == "")) [
    | inl empty ↦ absurd (ground (arith, rw empty at h))
    | inr given ↦ elim (Bool-cases (any (taken L (L.trim value) kind) (visible_nodes ix s))) [
      | inl some_taken ↦ absurd (ground (arith, rw (given, some_taken) at h))
      | inr free ↦ (given, All-not_any _ (visible_nodes ix s) free)
    ]
  ]

  -- A name is free if it is not empty and no other item that is shown has it, whatever the case.
  abbrev pub IsFree : Index → EditKind → String → Explorer → Type 0
  IsFree ix kind name s =
      ((name == "") ≡ false) × All (λ n. taken L name kind n ≡ false) (visible_nodes ix s)

  -- Where an edit that is not pending is committed, either the edit stays, with the message of what is
  -- wrong with the name and without a request; or the name without the space around it is free,
  -- exactly one request is made, for that name in the folder that is shown, and the edit is pending.
  pub begin_commit_lem :
      (ix : Index) (e : Edit) (s : Explorer)
      → ((t : String) → L.trim (L.trim t) ≡ L.trim t)
      → s.edit ≡ some e
      → e.pending ≡ false
      → ((message : String) × ((message == "") ≡ false)
          × (begin_commit L ix s
              ≡ (none, record s { edit = some (record e { error = message; retry = false }) })))
        ⊎ (IsFree ix e.kind (L.trim e.value) s
            × (begin_commit L ix s ≡ (
              some (request e s.current_directory_id (L.trim e.value)),
              record s {
                edit = some (record e {
                  value = L.trim e.value;
                  pending = true;
                  error = "";
                  retry = false;
                });
              },
            )))
  unfolding begin_commit
  begin_commit_lem ix e s trim_idem editing idle =
      let name = L.trim e.value in
      elim (Bool-cases (name_error L ix e.kind name s == "")) [
        | inl good ↦ inr (
          rw (trim_idem e.value) at (name_error_lem ix e.kind name s good),
          rw (begin_commit, editing, idle, good) refl,
        )
        | inr bad ↦
            inl (name_error L ix e.kind name s, bad, rw (begin_commit, editing, idle, bad) refl)
      ]

  -- While the answer to a request is awaited, committing again makes no request, and neither a new
  -- edit nor a cancellation changes anything.
  pub pending_edit_kept :
      (ix : Index) (e : Edit) (s : Explorer) (read_only : Bool) (type : NodeType) (node : Node)
      → s.edit ≡ some e
      → e.pending ≡ true
      → (begin_commit L ix s ≡ (none, s))
        × (begin_create read_only type s ≡ s)
        × (begin_rename read_only node s ≡ s)
        × (edit_cancelled s ≡ s)
  unfolding begin_commit begin_create begin_rename edit_cancelled
  pending_edit_kept ix e s read_only type node editing pending =
      let busy : is_pending s.edit ≡ true = ap is_pending editing ∙ pending in
      (
        simp (begin_commit, editing, pending) refl,
        ground (arith, busy),
        ground (arith, busy),
        rw busy refl,
      )

-- Opening a folder is allowed while an edit is pending. The edit that is begun there is lost when the
-- answer to the first one arrives.
pub answer_ends_other_edit :
    (ix : Index) (e : Edit) (name value directory : String) (id : Option String) (type : NodeType)
    (s : Explorer)
    → s.edit ≡ some (record e { pending = true })
    → (directory == "") ≡ false
    → ((edit_changed value (begin_create false type (open_directory ix directory s))).edit
        ≡ some (record {
          kind = create;
          type = type;
          value = value;
          pending = false;
          error = "";
          retry = false;
        }))
      × ((end_commit e name
            (resolved id)
            (edit_changed value (begin_create false type (open_directory ix directory s)))).edit
          ≡ none)
unfolding edit_changed begin_create open_directory end_commit
answer_ends_other_edit ix e name value directory id type s pending given = (rw given refl, refl)
