-- ===== src/Explorer/Recovery.antt =====
-- The directory that is shown after the tree has changed.
use sync_tex.Base.{ℕ, suc, String, Option, none, some, ◌≡◌, true, false, ◌⊎◌, lookup}
use sync_tex.Explorer.{Index}
use sync_tex.Explorer.Paths.{parent_of}
use sync_tex.Explorer.Tools.{is_folder, given, head?}

-- The first directory is above the second in the tree.
pub data IsAbove (tree : Index) (above : String) : String → Type 0 where
  one_up :
      (id : String)
      → given (parent_of (lookup id tree.parent_by_id)) ≡ some above
      → IsAbove tree above id
  higher :
      (id next : String)
      → given (parent_of (lookup id tree.parent_by_id)) ≡ some next
      → IsAbove tree above next
      → IsAbove tree above id

-- What is shown instead of a directory that is gone: the nearest of those that were above it which is a
-- folder of the new tree, or the root where there is none.
pub data IsNearest (previous ix : Index) (current : String) (shown : Option String) : Type 0 where
  root :
      shown ≡ head? ix.roots
      → ((above : String) → IsAbove previous above current → is_folder ix above ≡ false)
      → IsNearest previous ix current shown
  folder :
      (id : String)
      → shown ≡ some id
      → is_folder ix id ≡ true
      → IsAbove previous id current
      → ((above : String)
          → IsAbove previous above current
          → is_folder ix above ≡ true
          → (above ≡ id) ⊎ IsAbove previous above id)
      → IsNearest previous ix current shown

-- The directory has at most so many directories above it.
pub data Rises (tree : Index) : ℕ → String → Type 0 where
  top :
      (n : ℕ) (id : String)
      → given (parent_of (lookup id tree.parent_by_id)) ≡ none
      → Rises tree n id
  rise :
      (n : ℕ) (id parent : String)
      → given (parent_of (lookup id tree.parent_by_id)) ≡ some parent
      → Rises tree n parent
      → Rises tree (suc n) id
