-- ===== src/Base/Tasks.antt =====
-- Handlers that await requests: a state passing monad with rejections. A request's answer is a value
-- that the handler is given; the state that follows an `await` is the one found there.
use Prim.Native.String.{String}
use mathlib.Core.Option.{Option, none, some}

-- A value, or a rejection with its message.
pub data Answer {ℓ} (A : Type ℓ) : Type ℓ where
  resolved : A → Answer A
  rejected : String → Answer A

abbrev pub Task {ℓ κ} : Type ℓ → Type κ → Type (ℓ ⊔ κ)
Task S A = S → Answer A × S

infixl 5 ◌>>=◌ ◌>>◌
abbrev pub ◌>>=◌ {ℓ κ μ} :
    {S : Type ℓ} {A : Type κ} {B : Type μ} → Task S A → (A → Task S B) → Task S B
◌>>=◌ m f s = let (r, s') = m s in elim r [ resolved a ↦ f a s' | rejected e ↦ (rejected e, s') ]

abbrev pub ◌>>◌ {ℓ κ} : {S : Type ℓ} {B : Type κ} → Task S (Unit {0}) → Task S B → Task S B
m >> k = m >>= λ _. k

module _ {ℓ κ} {S : Type ℓ} {A : Type κ} where
  -- `await`
  abbrev pub await : Answer A → Task S A
  await r s = (r, s)

  abbrev pub done : A → Task S A
  done a s = (resolved a, s)

  -- `throw new Error(message)`
  abbrev pub throw : String → Task S A
  throw message s = (rejected message, s)

  -- The value, or an error where there is none.
  abbrev pub some_or : Option A → String → Task S A
  some_or none message s = (rejected message, s)
  some_or (some a) message s = (resolved a, s)

abbrev pub update {ℓ} : {S : Type ℓ} → (S → S) → Task S (Unit {0})
update f s = (resolved tt, f s)
