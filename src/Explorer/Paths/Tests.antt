-- ===== src/Explorer/Paths/Tests.antt =====
-- The paths of a project with a folder in its root folder.
use sync_tex.Base.{length, ◌+◌, none, some, [], ◌∷◌, ◌≡◌, refl, lookup, insert, has, All}
use sync_tex.Tabs.{FileInfo}
use sync_tex.Tree.{Directories, directory, nil, cons}
use sync_tex.Explorer.Paths.{index_tree, climb, relative_path}
use sync_tex.Explorer.Paths.Walks.{Item, paths_all, climb-index_tree}

abbrev main_tex : FileInfo
main_tex = record { id = "f1"; filename = "main.tex"; file_type = some "tex"; download_url = none }

abbrev plot : FileInfo
plot = record { id = "f2"; filename = "plot.png"; file_type = some "image"; download_url = none }

abbrev thesis : Directories
thesis =
    cons
      (directory "d1" "thesis" (cons (directory "d2" "figures" nil (plot ∷ [])) nil)
        (main_tex ∷ []))
      nil

plot-path : relative_path 5 (index_tree thesis) "f2" ≡ "thesis/figures/plot.png"
unfolding relative_path index_tree lookup insert
plot-path = refl

climb-index_tree_example :
    All
      (λ (item : Item). climb (length item.1 + 7) (index_tree thesis) (some item.0.id) ≡ item.1)
      (paths_all [] thesis)
unfolding has
climb-index_tree_example =
    climb-index_tree thesis 7 (refl, (refl, (refl, (refl, tt)))) (refl, (refl, (refl, (refl, tt))))
