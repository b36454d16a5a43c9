-- ===== src/Explorer/Tests.antt =====
-- The theorems on the explorer at a project with one folder and two files.
use sync_tex.Base.{String, none, some, [], ◌∷◌, ◌==◌, ◌⊎◌, true, false, ◌≡◌, refl, resolved}
use sync_tex.Files.{ItemType}
use sync_tex.Explorer.Dialogs.{rename_submitted}
use sync_tex.Explorer.{
  Locale, Node, file, folder, Index, Explorer, Edit, create, request, begin_commit, begin_create,
  edit_changed, open_directory, end_commit,
}
use sync_tex.Explorer.Edits.{IsFree, begin_commit_lem, answer_ends_other_edit}

-- Names in lower case without space around them.
abbrev plain : Locale
plain = record { trim = λ s. s; lower = λ s. s }

abbrev main_tex : Node
main_tex = record { id = "f1"; type = file; label = "main.tex" }

abbrev project : Index
project = record {
  nodes_by_id =
      ("d1", record { id = "d1"; type = folder; label = "thesis" })
      ∷ ("f1", main_tex)
      ∷ ("f2", record { id = "f2"; type = file; label = "refs.bib" })
      ∷ [];
  parent_by_id = ("d1", none) ∷ ("f1", some "d1") ∷ ("f2", some "d1") ∷ [];
  children_by_directory = ("d1", "f1" ∷ "f2" ∷ []) ∷ [];
  roots = "d1" ∷ [];
}

abbrev shown : Explorer
shown = record {
  current_directory_id = some "d1";
  selected_node_id = none;
  focused_node_id = some "f1";
  edit = none;
  context_menu = false;
  toast = none;
}

abbrev new_file : Edit
new_file = record {
  kind = create;
  type = file;
  value = "notes.tex";
  pending = false;
  error = "";
  retry = false;
}

abbrev editing : Explorer
editing = record shown { edit = some new_file }

abbrev saving : Explorer
saving = record shown { edit = some (record new_file { pending = true }) }

begin_commit_lem_example :
    ((message : String) × ((message == "") ≡ false)
      × (begin_commit plain project editing ≡ (
        none,
        record editing { edit = some (record new_file { error = message; retry = false }) },
      )))
    ⊎ (IsFree plain project create "notes.tex" editing
        × (begin_commit plain project editing ≡ (
          some (request new_file (some "d1") "notes.tex"),
          record editing {
            edit = some (record new_file {
              value = "notes.tex";
              pending = true;
              error = "";
              retry = false;
            });
          },
        )))
begin_commit_lem_example = begin_commit_lem plain project new_file editing (λ t. refl) refl refl

answer_ends_other_edit_example :
    ((edit_changed "b.tex" (begin_create false file (open_directory project "d1" saving))).edit
      ≡ some (record new_file { value = "b.tex" }))
    × ((end_commit new_file "notes.tex" (resolved (some "f3")) (
          edit_changed "b.tex" (begin_create false file (open_directory project "d1" saving)))).edit
        ≡ none)
answer_ends_other_edit_example =
    answer_ends_other_edit project new_file "notes.tex" "b.tex" "d1" (some "f3") file saving refl
      refl

-- The current name is taken for a new one if spaces follow it.
same_name_submitted : rename_submitted ItemType.file "a.tex" "a.tex " ≡ (some "a.tex", none)
unfolding rename_submitted
same_name_submitted = refl

-- The project before the folder that was shown went.
abbrev project_before : Index
project_before = record project {
  nodes_by_id =
      ("d2", record { id = "d2"; type = folder; label = "figures" }) ∷ project.nodes_by_id;
  parent_by_id = ("d2", some "d1") ∷ project.parent_by_id;
}
