-- ===== src/Markup.antt =====
-- What a component of the client shows: its elements with their classes, their texts and what they
-- call. Icons, styles and what only assistive techniques read are left out.
use sync_tex.Base.{
  String, List, [], ◌∷◌, ◌++◌, Bool, true, false, if◌then◌else◌, All, All-append, ◌≡◌, refl, map,
}

-- `A` is what elements can call: by `handles`, if no `disabled` around it holds.
pub data Markup (A : Type 0) : Type 0 where
  blank : Markup A
  text : String → Markup A
  element : String → String → Markup A → Markup A
  titled : String → Markup A → Markup A
  handles : List A → Markup A → Markup A
  disabled : Bool → Markup A → Markup A
  ◌&◌ : Markup A → Markup A → Markup A

infixr 30 ◌&◌
module _ {A : Type 0} where
  -- `{b && <…/>}`
  abbrev pub shown_if : Bool → Markup A → Markup A
  shown_if b v = if b then v else blank

  abbrev pub each {ℓ} : {X : Type ℓ} → List X → (X → Markup A) → Markup A
  each [] v = blank
  each (x ∷ xs) v = v x & each xs v

  abbrev pub button : String → Bool → A → String → Markup A
  button class_name is_disabled call label =
      disabled is_disabled (handles (call ∷ []) (element "button" class_name (text label)))

  -- What the user can make it call.
  unfoldable pub offers : Markup A → List A
  offers blank = []
  offers (text s) = []
  offers (element tag class_name v) = offers v
  offers (titled title v) = offers v
  offers (handles calls v) = calls ++ offers v
  offers (disabled b v) = let inside = offers v in if b then [] else inside
  offers (v & w) = offers v ++ offers w

  -- The texts that are read, in their order.
  unfoldable pub texts : Markup A → List String
  texts blank = []
  texts (text s) = s ∷ []
  texts (element tag class_name v) = texts v
  texts (titled title v) = texts v
  texts (handles calls v) = texts v
  texts (disabled b v) = texts v
  texts (v & w) = texts v ++ texts w

  -- The titles that appear under the pointer.
  unfoldable pub titles : Markup A → List String
  titles blank = []
  titles (text s) = []
  titles (element tag class_name v) = titles v
  titles (titled title v) = title ∷ titles v
  titles (handles calls v) = titles v
  titles (disabled b v) = titles v
  titles (v & w) = titles v ++ titles w

  -- Where each of a list shows one title, these are the titles in the list's order.
  pub titles-each {ℓ} :
      {X : Type ℓ} (xs : List X) (v : X → Markup A) (f : X → String)
      → ((x : X) → titles (v x) ≡ f x ∷ [])
      → titles (each xs v) ≡ map f xs
  unfolding titles
  titles-each [] v f h = refl
  titles-each (x ∷ xs) v f h = rw (h x, titles-each xs v f h) refl

  -- A choice between parts without titles has none.
  pub untitled-if :
      (b : Bool) (v w : Markup A) → titles v ≡ [] → titles w ≡ [] → titles (if b then v else w) ≡ []
  untitled-if true v w h k = h
  untitled-if false v w h k = k

-- Every call that is offered has the property.
module _ {A : Type 0} (P : A → Type 0) where
  abbrev pub Only : Markup A → Type 0
  Only blank = Unit
  Only (text s) = Unit
  Only (element tag class_name v) = Only v
  Only (titled title v) = Only v
  Only (handles calls v) = All P calls × Only v
  Only (disabled true v) = Unit
  Only (disabled false v) = Only v
  Only (v & w) = Only v × Only w

  pub All-offers : (v : Markup A) → Only v → All P (offers v)
  unfolding offers
  All-offers blank h = tt
  All-offers (text s) h = tt
  All-offers (element tag class_name v) h = All-offers v h
  All-offers (titled title v) h = All-offers v h
  All-offers (handles calls v) (h, hs) = All-append P calls (offers v) h (All-offers v hs)
  All-offers (disabled true v) h = tt
  All-offers (disabled false v) h = All-offers v h
  All-offers (v & w) (h, k) = All-append P (offers v) (offers w) (All-offers v h) (All-offers w k)

  pub Only-each {ℓ} :
      {X : Type ℓ} (xs : List X) (v : X → Markup A) → ((x : X) → Only (v x)) → Only (each xs v)
  Only-each [] v h = tt
  Only-each (x ∷ xs) v h = (h x, Only-each xs v h)

  pub Only-if : (b : Bool) (v w : Markup A) → Only v → Only w → Only (if b then v else w)
  Only-if true v w h k = h
  Only-if false v w h k = k

  pub Only-disabled : (b : Bool) (v : Markup A) → ((b ≡ false) → Only v) → Only (disabled b v)
  Only-disabled true v h = tt
  Only-disabled false v h = h refl
