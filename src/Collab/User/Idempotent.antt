-- ===== src/Collab/User/Idempotent.antt =====
-- A client normalises its own user before it publishes it, and every peer normalises it again.
use Prim.Native.Nat.{◌/◌, ◌%◌}
use text.Mathlib.TextLemmas.{append-ne-nil_of_right_ne-nil}
use sync_tex.Base.{
  ℕ, suc, String, Option, none, some, Value, undefined, null, bool, num, str, truthy, or_value,
  to_text, decimal, digit, if◌then◌else◌, ◌==◌, eq_iff, ◌≡◌, ◌≢◌, refl, Bool, true, false,
  Bool-cases, Option-cases, inl, inr, arith, eqb, ltb,
}
use sync_tex.Collab.Color.{is_hex_color}
use sync_tex.Collab.Color.Hash.{color_for_user_id-hex}
use sync_tex.Collab.User.{
  Source, empty_source, User, text_or_empty, hex_or_none, normalize, normalize_awareness_user,
}

abbrev value_of : Option String → Value
value_of none = undefined
value_of (some s) = str s

-- The object that a peer receives for a published user.
abbrev pub published : User → Source
published u = record empty_source {
  id = str u.id;
  name = str u.name;
  email = str u.email;
  avatar_url = str u.avatar_url;
  color = value_of u.color;
}

if_ne :
    (b : Bool) (x y : String)
    → (x == "") ≡ false
    → (y == "") ≡ false
    → ((if b then x else y) == "") ≡ false
if_ne true x y p q = p
if_ne false x y p q = q

digit-ne-empty : (n : ℕ) → (digit n == "") ≡ false
unfolding digit
digit-ne-empty n = if_ne (eqb n 0) _ _ refl (
    if_ne (eqb n 1) _ _ refl (
      if_ne (eqb n 2) _ _ refl (
        if_ne (eqb n 3) _ _ refl (
          if_ne (eqb n 4) _ _ refl (
            if_ne (eqb n 5) _ _ refl (
              if_ne (eqb n 6) _ _ refl
                (if_ne (eqb n 7) _ _ refl (if_ne (eqb n 8) _ _ refl refl))))))))

decimal-ne-empty : (n : ℕ) → decimal (suc n) n ≢ ""
unfolding decimal
decimal-ne-empty n = elim (Bool-cases (ltb n 10)) [
  | inl small ↦ rw small (ground (arith, digit-ne-empty n, eq_iff (digit n) ""))
  | inr large ↦ rw large (
      append-ne-nil_of_right_ne-nil (decimal n (n / 10))
        (ground (arith, digit-ne-empty (n % 10), eq_iff (digit (n % 10)) "")))
]

to_text-ne-empty : (v : Value) → truthy v ≡ true → to_text v ≢ ""
unfolding to_text
to_text-ne-empty undefined h = cc
to_text-ne-empty null h = cc
to_text-ne-empty (bool true) h = ground (arith, eq_iff "true" "")
to_text-ne-empty (bool false) h = cc
to_text-ne-empty (num n) h = decimal-ne-empty n
to_text-ne-empty (str s) h = ground (arith, eq_iff s "")

truthy-or_value : (a b : Value) → truthy b ≡ true → truthy (or_value a b) ≡ true
truthy-or_value a b h = elim (Bool-cases (truthy a)) [ inl t ↦ rw (t, t) | inr f ↦ rw f h ]

-- What a normalised user satisfies, and a published one keeps.
record IsNormal (u : User) : Type 0 where
  named : (u.name == "") ≡ false
  colored : (c : String) × (u.color ≡ some c) × (is_hex_color (str c) ≡ true)

hex_or_none-hex : (v : Value) {c : String} → hex_or_none v ≡ some c → is_hex_color (str c) ≡ true
hex_or_none-hex (str s) e = ground arith
hex_or_none-hex undefined e = cc
hex_or_none-hex _ e = cc

name-ne-empty :
    (a b c : Value) (email : String)
    → to_text (or_value a (or_value b (or_value c (or_value (str email) (str "Local User"))))) ≢ ""
name-ne-empty a b c email = to_text-ne-empty _ (
    truthy-or_value a _
      (truthy-or_value b _ (truthy-or_value c _ (truthy-or_value (str email) _ refl))))

normalize-IsNormal : (s : Source) → IsNormal (normalize s)
unfolding normalize
normalize-IsNormal s = record {
  named = ground (
    arith,
    name-ne-empty s.name s.display_name s.username (text_or_empty s.email),
    eq_iff (normalize s).name "",
  );
  colored = elim (Option-cases (hex_or_none s.color)) [
    | inl missing ↦ let (c, e, h) = color_for_user_id-hex (normalize s).id in (c, rw missing e, h)
    | inr (c, e) ↦ (c, rw e, hex_or_none-hex s.color e)
  ];
}

normalize-published : (u : User) → IsNormal u → normalize (published u) ≡ u
unfolding normalize to_text
normalize-published u n =
    let (c, e, h) = n.colored in ground (arith, n.named, eq_iff u.avatar_url "", e, h)

-- Normalising is idempotent: a user that was normalised, published and normalised again by a peer
-- is the same user, with the same name, colour and picture.
pub normalize_awareness_user_idem :
    (source : Option Source)
    → normalize_awareness_user (some (published (normalize_awareness_user source)))
      ≡ normalize_awareness_user source
unfolding normalize_awareness_user
normalize_awareness_user_idem none =
    normalize-published (normalize empty_source) (normalize-IsNormal empty_source)
normalize_awareness_user_idem (some source) =
    normalize-published (normalize source) (normalize-IsNormal source)
