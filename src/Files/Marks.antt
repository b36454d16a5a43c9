-- ===== src/Files/Marks.antt =====
-- The unsaved marks, over the three dictionaries of the file manager: what keeps them right.
use mathlib.Core.Option
use sync_tex.Base.{
  String, Option, none, some, List, ◌==◌, eq_iff, true, if◌then◌else◌, ◌≡◌, ◌≢◌, arith, Dict,
  lookup, insert, remove, add, discard, has, lookup-insert, lookup-remove, has-add, has-discard,
  Bool-cases, inl, inr,
}
use sync_tex.Files.{Files, differs, put_original}

-- A file whose content differs from what was last loaded or saved carries the mark.
abbrev pub IsMarked : Dict (Option String) → Dict String → List String → Type 0
IsMarked contents originals unsaved =
    (k c o : String)
    → lookup k contents ≡ some (some c)
    → lookup k originals ≡ some o
    → c ≢ o
    → has k unsaved ≡ true

abbrev pub MarksHold : Files → Type 0
MarksHold s = IsMarked s.file_contents s.original_contents s.unsaved_files

module _ (k : String) (contents : Dict (Option String)) (originals : Dict String)
    (unsaved : List String) (h : IsMarked contents originals unsaved) where
  pub IsMarked-same :
      (t : String) → IsMarked (insert k (some t) contents) (insert k t originals) unsaved
  IsMarked-same t j c o p q n = elim (Bool-cases (k == j)) [
    | inl same ↦
        absurd
          (n (ground (arith, lookup-insert k j (some t) contents, lookup-insert k j t originals)))
    | inr other ↦
        h j c o (ground (arith, lookup-insert k j (some t) contents))
          (ground (arith, lookup-insert k j t originals)) n
  ]

  pub IsMarked-clear : IsMarked (remove k contents) (remove k originals) (discard k unsaved)
  IsMarked-clear j c o p q n = ground (
    arith,
    lookup-remove k j contents,
    lookup-remove k j originals,
    has-discard k j unsaved,
    h j c o,
  )

  pub IsMarked-url :
      (url : Option String)
      → lookup k originals ≡ none
      → IsMarked (insert k url contents) originals unsaved
  IsMarked-url url e j c o p q n =
      ground (arith, lookup-insert k j url contents, eq_iff k j, h j c o)

  pub IsMarked-edit :
      (value : Option String)
      → IsMarked
          (insert k (some (Option.get_or value "")) contents)
          originals
          (if differs value (lookup k originals) then add k unsaved else discard k unsaved)
  IsMarked-edit none j c o p q n = ground (
    arith,
    lookup-insert k j (some "") contents,
    eq_iff k j,
    has-add k j unsaved,
    has-discard k j unsaved,
    h j c o,
  )
  IsMarked-edit (some v) j c o p q n = ground (
    arith,
    lookup-insert k j (some v) contents,
    eq_iff k j,
    eq_iff v o,
    has-add k j unsaved,
    has-discard k j unsaved,
    h j c o,
  )

  pub IsMarked-saved :
      (content : Option String)
      → Option.get_or (lookup k contents) none ≡ content
      → IsMarked contents (put_original k content originals) (discard k unsaved)
  IsMarked-saved none e j c o p q n =
      ground (arith, lookup-remove k j originals, eq_iff k j, has-discard k j unsaved, h j c o)
  IsMarked-saved (some t) e j c o p q n =
      ground (arith, lookup-insert k j t originals, eq_iff k j, has-discard k j unsaved, h j c o)

  pub IsMarked-add : (j : String) → IsMarked contents originals (add j unsaved)
  IsMarked-add j i c o p q n = ground (arith, has-add j i unsaved, h i c o)
