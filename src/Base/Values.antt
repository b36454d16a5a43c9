-- ===== src/Base/Values.antt =====
-- The values of JavaScript that reach the program untyped, with truthiness and `String()`.
use Prim.Native.Nat.{ℕ, zero, suc, ◌/◌, ◌%◌}
use Prim.Native.String.{String}
use Prim.Native.String
use mathlib.Core.Bool.{Bool, true, false, not}
use mathlib.Core.Path.{◌≡◌, refl}
use text.Mathlib.Text.{◌==◌}
use sync_tex.Base.Tests.{if◌then◌else◌, eqb, ltb}

pub data Value : Type 0 where
  undefined null : Value
  bool : Bool → Value
  num : ℕ → Value
  str : String → Value

-- What `if (v)` asks.
abbrev pub truthy : Value → Bool
truthy undefined = false
truthy null = false
truthy (bool b) = b
truthy (num n) = not (eqb n 0)
truthy (str s) = not (s == "")

-- `a ?? b`
abbrev pub coalesce : Value → Value → Value
coalesce undefined b = b
coalesce null b = b
coalesce (bool c) b = bool c
coalesce (num n) b = num n
coalesce (str s) b = str s

-- `a || b`
abbrev pub or_value : Value → Value → Value
or_value a b = if truthy a then a else b

unfoldable pub digit : ℕ → String
digit n =
    if eqb n 0
    then "0"
    else if eqb n 1
    then "1"
    else if eqb n 2
    then "2"
    else if eqb n 3
    then "3"
    else if eqb n 4
    then "4"
    else if eqb n 5
    then "5"
    else if eqb n 6
    then "6"
    else if eqb n 7
    then "7"
    else if eqb n 8
    then "8"
    else "9"

-- The decimal digits of a number, most significant first; the fuel is one more than the number.
unfoldable pub decimal : ℕ → ℕ → String
decimal zero n = ""
decimal (suc fuel) n =
    let more = String.◌++◌ (decimal fuel (n / 10)) (digit (n % 10)) in
    if ltb n 10 then digit n else more

-- `String(v)`
unfoldable pub to_text : Value → String
unfolding decimal digit
to_text undefined = "undefined"
to_text null = "null"
to_text (bool true) = "true"
to_text (bool false) = "false"
to_text (num n) = decimal (suc n) n
to_text (str s) = s

to_text-num : to_text (num 2048) ≡ "2048"
unfolding to_text
to_text-num = refl
