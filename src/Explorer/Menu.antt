-- ===== src/Explorer/Menu.antt =====
-- The rest of the keys and of the menus of frontend/src/components/Editor/FileTree.jsx: Enter in the
-- list, the keys within a menu, and the items that delete.
use native.Mathlib.Nat.{mod-lt, mod-eq_of_lt, mod-eq-sub-mod}
use sync_tex.Base.{
  Bool-cases, inl, inr, refl, ap, ◌∙◌, ℕ, suc, ◌+◌, ◌-◌, ◌%◌, ◌<◌, String, Option, none, some, Bool,
  true, false, ◌||◌, ◌≡◌, arith, if◌then◌else◌, eqb, length, is_some, lookup,
}
use sync_tex.Explorer.{
  NodeType, file, folder, Node, Index, Explorer, Key, arrow_down, arrow_up, home, end_key,
  visible_ids, open_directory,
}
use sync_tex.Explorer.Tools.{Tools, close_menu, select_node, begin_upload}

unfoldable pub enter_node : NodeType → Index → Node → Explorer → Option Node × Explorer
unfolding open_directory select_node
enter_node folder ix node s = (none, open_directory ix node.id s)
enter_node file ix node s = (some node, (select_node node true s).1)

unfoldable pub enter : Index → Option Node → Explorer → Option Node × Explorer
unfolding enter_node
enter ix none s = (none, s)
enter ix (some node) s = enter_node node.type ix node s

abbrev pub focused : Index → Option String → Option Node
focused ix none = none
focused ix (some id) = lookup id ix.nodes_by_id

-- `handleListKeyDown` for Enter, with the file that it selects, if any.
unfoldable pub enter_pressed : Index → Explorer → Option Node × Explorer
unfolding visible_ids enter
enter_pressed ix s =
    if is_some s.edit || s.context_menu || eqb (length (visible_ids ix s)) 0
    then (none, s)
    else enter ix (focused ix s.focused_node_id) s

-- `handleMenuKeyDown` among so many items, from the item that has the focus, or from none of them:
-- `(current + 1 + n) % n` or `(current - 1 + n) % n`, where none has the index -1.
unfoldable pub next_item : Key → ℕ → Option ℕ → ℕ
next_item home n current = 0
next_item end_key n current = n - 1
next_item arrow_down n none = n % n
next_item arrow_down n (some current) = (current + 1 + n) % n
next_item arrow_up n none = if eqb n 1 then 0 else (n - 2) % n
next_item arrow_up n (some current) = (current + n - 1) % n

module _ {ℓ} {F : Type ℓ} where
  -- The item Delete of a row's menu.
  unfoldable pub ask_delete : Node → Tools F → Tools F
  unfolding close_menu
  ask_delete node s = record (close_menu s) { delete_target = some node }

  -- `onCancel` of the question.
  unfoldable pub cancel_delete : Tools F → Tools F
  cancel_delete s = if s.delete_pending then s else record s { delete_target = none }

  -- The button Retry of an upload that failed.
  unfoldable pub retry_upload : Bool → Tools F → Option String × Tools F
  unfolding begin_upload
  retry_upload read_only s = elim s.operation [
    | none ↦ (none, s)
    | some operation ↦
        if is_some operation.failure
        then begin_upload read_only (some operation.image) (some operation.directory_id) s
        else (none, s)
  ]

wrapped : (a n : ℕ) → a < n → (a + n) % n ≡ a
wrapped a n h = mod-eq-sub-mod (omega arith) ∙ ap (◌% n) (omega arith) ∙ mod-eq_of_lt h

-- The keys of a menu move the focus to one of its items, from whichever item or from none: Home to the
-- first, End to the last, and the arrows to the next and the previous, around the ends.
pub next_item_lem :
    (n current : ℕ)
    → current < suc n
    → (next_item home (suc n) (some current) ≡ 0)
      × (next_item end_key (suc n) (some current) ≡ n)
      × (next_item arrow_down (suc n) (some current) ≡ (if eqb current n then 0 else current + 1))
      × (next_item arrow_up (suc n) (some current) ≡ (if eqb current 0 then n else current - 1))
      × (next_item arrow_down (suc n) none < suc n)
      × (next_item arrow_up (suc n) none < suc n)
unfolding next_item
next_item_lem n current h = (
  refl,
  omega arith,
  elim (Bool-cases (eqb current n)) [
    | inl last ↦ rw last (
        ap (◌% suc n) (around last)
        ∙ mod-eq-sub-mod (omega arith)
        ∙ ap (◌% suc n) (omega arith)
        ∙ wrapped 0 (suc n) (omega arith))
    | inr other ↦ rw other (wrapped (current + 1) (suc n) (ground (arith, other)))
  ],
  elim (Bool-cases (eqb current 0)) [
    | inl first ↦ rw first (ap (◌% suc n) (back first) ∙ mod-eq_of_lt (omega arith))
    | inr other ↦
        rw other (ap (◌% suc n) (step other) ∙ wrapped (current - 1) (suc n) (omega arith))
  ],
  mod-lt (suc n) (omega arith),
  elim (Bool-cases (eqb (suc n) 1)) [
    | inl one ↦ rw one (omega arith)
    | inr more ↦ rw more (mod-lt (suc n - 2) (omega arith))
  ],
)
  where
    around : eqb current n ≡ true → current + 1 + suc n ≡ 0 + suc n + suc n
    around e = ground (arith, e)

    back : eqb current 0 ≡ true → current + suc n - 1 ≡ n
    back e = ground (arith, e)

    step : eqb current 0 ≡ false → current + suc n - 1 ≡ (current - 1) + suc n
    step e = ground (arith, e)
