-- ===== src/Stream/Lines.antt =====
-- Splitting into lines, of a text that arrives in two parts.
use sync_tex.Base.{ℕ, List, [], ◌∷◌, ◌++◌, false, ◌≡◌, refl, ap, eqb, Bool-cases, inl, inr}
use sync_tex.Stream.{Text, split_lines, cons_head, popped, all_but_last}

after_head :
    (c : ℕ) (line : Text) (ls : List Text) (s : Text)
    → eqb c 10 ≡ false
    → cons_head c (all_but_last (line ∷ ls) ++ split_lines (popped (line ∷ ls) ++ s))
      ≡ all_but_last ((c ∷ line) ∷ ls) ++ split_lines (popped ((c ∷ line) ∷ ls) ++ s)
unfolding split_lines
after_head c line [] s h = rw h
after_head c line (next ∷ ls) s h = refl

-- There is always a line.
pub split_lines-cons : (s : Text) → (l : Text) × (ls : List Text) × (split_lines s ≡ l ∷ ls)
unfolding split_lines
split_lines-cons [] = ([], [], refl)
split_lines-cons (c ∷ s) = elim (Bool-cases (eqb c 10)) [
  | inl newline ↦ ([], split_lines s, rw newline)
  | inr other ↦ let (l, ls, e) = split_lines-cons s in (c ∷ l, ls, rw (other, e))
]

-- The lines of a text in two parts are the complete lines of the first part, and then the lines of
-- what the first part left over, followed by the second.
pub split_lines-append :
    (xs s : Text)
    → split_lines (xs ++ s)
      ≡ all_but_last (split_lines xs) ++ split_lines (popped (split_lines xs) ++ s)
unfolding split_lines
split_lines-append [] s = refl
split_lines-append (c ∷ xs) s =
    let (l, ls, e) = split_lines-cons xs in
    let ih = split_lines-append xs s in
    elim (Bool-cases (eqb c 10)) [
      | inl newline ↦ rw (newline, ih, e)
      | inr other ↦ rw (other, ih, e) (after_head c l ls s other)
    ]

-- What is left over holds no line break.
pub split_lines-popped :
    (xs : Text) → split_lines (popped (split_lines xs)) ≡ popped (split_lines xs) ∷ []
unfolding split_lines
split_lines-popped [] = refl
split_lines-popped (c ∷ xs) =
    let (l, ls, e) = split_lines-cons xs in
    let ih = split_lines-popped xs in
    elim (Bool-cases (eqb c 10)) [
      | inl newline ↦ rw (newline, e) (rw e at ih)
      | inr other ↦ rw (other, e) (go l ls (rw e at ih) other)
    ]
  where
    go :
        (l : Text) (ls : List Text)
        → split_lines (popped (l ∷ ls)) ≡ popped (l ∷ ls) ∷ []
        → eqb c 10 ≡ false
        → split_lines (popped ((c ∷ l) ∷ ls)) ≡ popped ((c ∷ l) ∷ ls) ∷ []
    go l [] h other = rw (other, h)
    go l (next ∷ ls) h other = h

pub all_but_last-append :
    (front : List Text) (s : Text)
    → all_but_last (front ++ split_lines s) ≡ front ++ all_but_last (split_lines s)
all_but_last-append [] s = refl
all_but_last-append (a ∷ []) s = let (l, ls, e) = split_lines-cons s in rw e
all_but_last-append (a ∷ b ∷ front) s = ap (a ∷◌) (all_but_last-append (b ∷ front) s)

pub popped-append :
    (front : List Text) (s : Text) → popped (front ++ split_lines s) ≡ popped (split_lines s)
popped-append [] s = refl
popped-append (a ∷ []) s = let (l, ls, e) = split_lines-cons s in rw e
popped-append (a ∷ b ∷ front) s = popped-append (b ∷ front) s
