-- ===== src/Editor/Widths.antt =====
-- The width of the side panel over a reload.
use Prim.Native.Char.{Char, code}
use Prim.Native.String
use text.Mathlib.TextLemmas.{nil-append, cons-append}
use sync_tex.Base.{
  is_space, trim_start, ◌*◌, leb, sym, ℕ, zero, suc, ◌+◌, ◌-◌, ◌≤◌, ◌<◌, String, Option, none, some,
  eq_refl, Bool, true, false, ◌&&◌, eqb, num, to_text, lookup-insert, ◌≡◌, refl, ◌∙◌, ap, arith,
  inl, inr, Bool-cases,
}
use sync_tex.Editor.Layout.{
  Numbers, Layout, Storage, min, clamp_sidebar_width, is_digit, digits_from, parse_int, read_width,
  width_key, load_sidebar_width, update_sidebar_width,
}

eqb_sound : (k n : ℕ) → eqb k n ≡ true → k ≡ n
eqb_sound k n h = ground arith

-- A test at every number below a bound.
abbrev all_below : (ℕ → Bool) → ℕ → Bool
all_below p zero = true
all_below p (suc n) = p n && all_below p n

all_below_lem : (p : ℕ → Bool) (n k : ℕ) → all_below p n ≡ true → k < n → p k ≡ true
all_below_lem p zero k h below = ground arith
all_below_lem p (suc n) k h below = elim (Bool-cases (eqb k n)) [
  | inl same ↦ ap p (eqb_sound k n same) ∙ first (p n) (all_below p n) h
  | inr other ↦ all_below_lem p n k (second (p n) (all_below p n) h) (ground (arith, other, below))
]
  where
    first : (b c : Bool) → (b && c) ≡ true → b ≡ true
    first true c h = refl
    first false c h = h

    second : (b c : Bool) → (b && c) ≡ true → c ≡ true
    second true c h = h
    second false c h = ground arith

-- A point ends the digits.
digits_from-cut :
    (t digits : String) (n : ℕ)
    → digits_from n (String.◌++◌ t (String.◌∷◌ "." digits)) ≡ digits_from n t
unfolding digits_from
digits_from-cut String.[] digits n = rw (nil-append (String.◌∷◌ "." digits)) refl
digits_from-cut (String.◌∷◌ c t) digits n =
    rw (cons-append c t (String.◌∷◌ "." digits), digits_from-cut t digits (n * 10 + (code c - 48)))
      refl

parse_int-plain :
    (c : Char) (t : String)
    → is_digit (code c) ≡ true
    → parse_int (String.◌∷◌ c t) ≡ some (digits_from 0 (String.◌∷◌ c t))
unfolding parse_int trim_start
parse_int-plain c t digit =
    let visible : is_space (code c) ≡ false = ground arith in
    let no_plus : eqb (code c) 43 ≡ false = ground arith in
    let no_minus : eqb (code c) 45 ≡ false = ground arith in
    rw (visible, no_plus, no_minus, digit) refl

starts_plainly : String → Bool
starts_plainly String.[] = false
starts_plainly (String.◌∷◌ c t) = is_digit (code c)

parse_int-cut :
    (t digits : String)
    → starts_plainly t ≡ true
    → parse_int (String.◌++◌ t (String.◌∷◌ "." digits)) ≡ parse_int t
unfolding starts_plainly
parse_int-cut String.[] digits h = cc
parse_int-cut (String.◌∷◌ c t) digits h =
    ap parse_int (cons-append c t (String.◌∷◌ "." digits))
    ∙ parse_int-plain c (String.◌++◌ t (String.◌∷◌ "." digits)) h
    ∙ ap (λ x. some (digits_from 0 x)) (sym (cons-append c t (String.◌∷◌ "." digits)))
    ∙ ap some (digits_from-cut (String.◌∷◌ c t) digits 0)
    ∙ sym (parse_int-plain c t h)

-- The text of a whole number from 260 to 520 starts with a digit, and is read as the number.
reads_back : ℕ → Bool
reads_back k = elim (parse_int (to_text (num (260 + k)))) [
  | none ↦ false
  | some n ↦ eqb n (260 + k) && starts_plainly (to_text (num (260 + k)))
]

all_read_back : all_below reads_back 261 ≡ true
unfolding reads_back parse_int starts_plainly to_text
all_read_back = refl

number_read_back :
    (k : ℕ)
    → k < 261
    → (parse_int (to_text (num (260 + k))) ≡ some (260 + k))
      × (starts_plainly (to_text (num (260 + k))) ≡ true)
unfolding reads_back
number_read_back k below =
    go (parse_int (to_text (num (260 + k)))) (starts_plainly (to_text (num (260 + k))))
      (all_below_lem reads_back 261 k all_read_back below)
  where
    go :
        (o : Option ℕ) (plain : Bool)
        → elim o as (λ _. Bool) [ none ↦ false | some n ↦ eqb n (260 + k) && plain ] ≡ true
        → (o ≡ some (260 + k)) × (plain ≡ true)
    go none plain h = ground arith
    go (some n) true h = (ap some (eqb_sound n (260 + k) (ground arith)), refl)
    go (some n) false h = ground arith

clamped_read_back :
    (n : ℕ)
    → 260 ≤ n
    → n ≤ 520
    → (parse_int (to_text (num n)) ≡ some n) × (starts_plainly (to_text (num n)) ≡ true)
clamped_read_back n low high =
    let again = number_read_back (n - 260) (omega (arith, low, high)) in rw (back) at again
  where
    back : 260 + (n - 260) ≡ n
    back = omega (arith, low, high)

-- What JavaScript says of its numbers, where none is NaN: they are ordered, and whole ones as usual.
pub record IsOrdered (N : Numbers) : Type 0 where
  pub le_whole : (a b : ℕ) → N.le (N.whole a) (N.whole b) ≡ leb a b
  pub le_total : (x y : N.Number) → N.le x y ≡ false → N.le y x ≡ true
  pub le_trans : (x y z : N.Number) → N.le x y ≡ true → N.le y z ≡ true → N.le x z ≡ true

-- A number's text is that of its whole part, and a point and digits if it is not whole.
pub data IsText (whole_part : String) (text : String) : Type 0 where
  no_fraction : text ≡ whole_part → IsText whole_part text
  fraction :
      (digits : String)
      → text ≡ String.◌++◌ whole_part (String.◌∷◌ "." digits)
      → IsText whole_part text

pub record IsWholePart (N : Numbers) (x : N.Number) (n : ℕ) : Type 0 where
  pub from_below : N.le (N.whole n) x ≡ true
  pub from_above : N.le (N.whole (suc n)) x ≡ false
  pub printed : IsText (to_text (num n)) (N.print x)

module _ {N : Numbers} (o : IsOrdered N) where
  clamped-range :
      (width : N.Number)
      → (N.le (N.whole 260) (clamp_sidebar_width N width) ≡ true)
        × (N.le (clamp_sidebar_width N width) (N.whole 520) ≡ true)
  unfolding clamp_sidebar_width
  clamped-range width = elim (Bool-cases (N.le (N.whole 260) width)) [
    | inl wide ↦ rw wide (capped width wide)
    | inr narrow ↦ rw narrow (capped (N.whole 260) (o.le_whole 260 260))
  ]
    where
      capped :
          (x : N.Number)
          → N.le (N.whole 260) x ≡ true
          → (N.le (N.whole 260) (min N (N.whole 520) x) ≡ true)
            × (N.le (min N (N.whole 520) x) (N.whole 520) ≡ true)
      capped x low = elim (Bool-cases (N.le (N.whole 520) x)) [
        | inl over ↦ rw over (o.le_whole 260 520, o.le_whole 520 520)
        | inr within ↦ rw within (low, o.le_total (N.whole 520) x within)
      ]

  whole-range :
      (x : N.Number) (n : ℕ)
      → N.le (N.whole 260) x ≡ true
      → N.le x (N.whole 520) ≡ true
      → IsWholePart N x n
      → (260 ≤ n) × (n ≤ 520)
  whole-range x n low high is = (above, below)
    where
      below : n ≤ 520
      below =
          let h : leb n 520 ≡ true =
            sym (o.le_whole n 520) ∙ o.le_trans (N.whole n) x (N.whole 520) is.from_below high in
          ground arith

      above : 260 ≤ n
      above = elim (Bool-cases (leb (suc n) 260)) [
        | inl less ↦
            let h =
              o.le_trans (N.whole (suc n)) (N.whole 260) x (o.le_whole (suc n) 260 ∙ less) low in
            let no : true ≡ false = sym h ∙ is.from_above in absurd (cc no)
        | inr more ↦ ground arith
      ]

  clamp-whole : (n : ℕ) → 260 ≤ n → n ≤ 520 → clamp_sidebar_width N (N.whole n) ≡ N.whole n
  unfolding clamp_sidebar_width
  clamp-whole n low high =
      let wide : N.le (N.whole 260) (N.whole n) ≡ true = o.le_whole 260 n ∙ ground arith in
      elim (Bool-cases (leb 520 n)) [
        | inl most ↦
            let same : n ≡ 520 = ground arith in
            let over : N.le (N.whole 520) (N.whole n) ≡ true = o.le_whole 520 n ∙ most in
            rw (wide, over) (ap N.whole (sym same))
        | inr less ↦
            let within : N.le (N.whole 520) (N.whole n) ≡ false = o.le_whole 520 n ∙ less in
            rw (wide, within) refl
      ]

  stored_width :
      (x : N.Number) (n : ℕ)
      → 260 ≤ n
      → n ≤ 520
      → IsText (to_text (num n)) (N.print x)
      → read_width N (some (N.print x)) ≡ N.whole n
  stored_width x n low high printed = go (parse_int (N.print x)) (read printed)
    where
      read : IsText (to_text (num n)) (N.print x) → parse_int (N.print x) ≡ some n
      read (no_fraction e) = ap parse_int e ∙ (clamped_read_back n low high).0
      read (fraction digits e) =
          ap parse_int e
          ∙ parse_int-cut (to_text (num n)) digits (clamped_read_back n low high).1
          ∙ (clamped_read_back n low high).0

      go :
          (p : Option ℕ)
          → p ≡ some n
          → elim p as (λ _. N.Number) [
            | none ↦ N.whole 350
            | some stored ↦ clamp_sidebar_width N (N.whole stored)
          ]
            ≡ N.whole n
      go p e = rw e (clamp-whole n low high)

  -- Where storage is not denied, a project that is opened again shows the whole part of the width that its
  -- panel was last given, clamped, whatever the panel looks like then; the clamped width and its whole
  -- part are from 260 to 520.
  pub width_kept :
      (project_id : String) (width : N.Number) (n : ℕ) (storage : Storage) (s s' : Layout N)
      → IsWholePart N (clamp_sidebar_width N width) n
      → storage.denied ≡ false
      → ((load_sidebar_width project_id
            (update_sidebar_width project_id width (storage, s)).0
            s').sidebar_width
          ≡ N.whole n)
        × (N.le (N.whole 260) (clamp_sidebar_width N width) ≡ true)
        × (N.le (clamp_sidebar_width N width) (N.whole 520) ≡ true)
        × (260 ≤ n)
        × (n ≤ 520)
  unfolding load_sidebar_width update_sidebar_width
  width_kept project_id width n storage s s' is allowed =
      let (low, high) = clamped-range width in
      let (n_low, n_high) = whole-range (clamp_sidebar_width N width) n low high is in
      (
        rw
            (
              allowed,
              lookup-insert (width_key project_id) (width_key project_id),
              eq_refl (width_key project_id),
            )
            (stored_width (clamp_sidebar_width N width) n n_low n_high is.printed),
        low,
        high,
        n_low,
        n_high,
      )
