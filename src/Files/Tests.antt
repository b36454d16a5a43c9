-- ===== src/Files/Tests.antt =====
-- Runs of the file manager, and its theorems at concrete inputs.
use sync_tex.Base.{
  String, Option, none, some, List, [], ◌∷◌, ◌≡◌, refl, ◌==◌, eq_iff, find, true, false, resolved,
  rejected, has, lookup, insert, discard, add, arith,
}
use sync_tex.Tabs.{FileInfo}
use sync_tex.Tree.{directory, Directories, nil, cons, find_file, all_files, find_file-eq-find}
use sync_tex.Files.{
  Files, no_files, Save, Response, ItemType, content_of, end_save, begin_save, content_loaded,
  handle_editor_change, handle_create_file, handle_delete_item, handle_image_upload,
}
use sync_tex.Files.Marks.{MarksHold}
use sync_tex.Files.Dirty.{
  Event, loaded, edited, save_began, save_ended, step, run, AllUndisturbed, run-MarksHold,
  end_save_loses_mark,
}
use sync_tex.Files.Create.{RejectsUnchanged, rejected-SameContents}

abbrev intro : FileInfo
intro = record { id = "f9"; filename = "intro.tex"; file_type = some "tex"; download_url = none }

abbrev sample_tree : Directories
sample_tree =
    cons
      (directory "d1" "project" (cons (directory "d2" "chapters" nil (intro ∷ [])) nil) (
        record { id = "f1"; filename = "main.tex"; file_type = some "tex"; download_url = none }
        ∷ []))
      nil

find_intro : find_file "f9" sample_tree ≡ some intro
unfolding find_file
find_intro = refl

find_file-eq-find_example :
    find_file "f9" sample_tree ≡ find (λ f. f.id == "f9") (all_files sample_tree)
find_file-eq-find_example = find_file-eq-find "f9" sample_tree

-- A session-free project: load a file, edit it, and save it.
abbrev none_in_session : String → Option String
none_in_session k = none

abbrev job : Save
job = record { file_id = "f1"; content = some "ab"; from_session = false }

abbrev working : List Event
working =
    loaded "f1" (resolved "a")
    ∷ edited (some "ab") (some "f1")
    ∷ save_began (some "f1")
    ∷ save_ended job (resolved tt)
    ∷ edited (some "abc") (some "f1")
    ∷ []

working_marks : (run none_in_session no_files working).unsaved_files ≡ "f1" ∷ []
unfolding step content_loaded handle_editor_change begin_save end_save content_of lookup insert
    discard has add
working_marks = refl

working-AllUndisturbed : AllUndisturbed none_in_session no_files working
unfolding step content_loaded handle_editor_change begin_save content_of lookup insert discard has
working-AllUndisturbed = (tt, (tt, (tt, ((λ e. refl), (tt, tt)))))

run-MarksHold_example : MarksHold (run none_in_session no_files working)
run-MarksHold_example = run-MarksHold none_in_session working working-AllUndisturbed

-- The file was edited to "abc" while "ab" was on its way.
abbrev edited_meanwhile : Files
edited_meanwhile = record no_files {
  file_contents = ("f1", some "abc") ∷ [];
  unsaved_files = "f1" ∷ [];
  is_saving = true;
  original_contents = ("f1", "a") ∷ [];
}

end_save_loses_mark_example :
    (content_of "f1" (end_save job (resolved tt) edited_meanwhile) ≡ some "abc")
    × (lookup "f1" (end_save job (resolved tt) edited_meanwhile).original_contents ≡ some "ab")
    × (has "f1" (end_save job (resolved tt) edited_meanwhile).unsaved_files ≡ false)
    × (¬ MarksHold (end_save job (resolved tt) edited_meanwhile))
unfolding content_of lookup
end_save_loses_mark_example =
    end_save_loses_mark job "ab" "abc" edited_meanwhile refl refl refl
      (λ e. ground (arith, eq_iff "abc" "ab"))

abbrev response : Response
response = record {
  file =
      some
        (record { id = some "f9"; filename = "intro.tex"; file_type = none; download_url = none });
  itself = record { id = none; filename = ""; file_type = none; download_url = none };
}

rejected-SameContents_example :
    RejectsUnchanged edited_meanwhile
      (handle_create_file (resolved response) (rejected "offline") edited_meanwhile)
    × RejectsUnchanged edited_meanwhile
        (handle_image_upload (resolved response) (rejected "offline") edited_meanwhile)
    × RejectsUnchanged edited_meanwhile (
        handle_delete_item "f1" ItemType.file
          (rejected "offline")
          (rejected "offline")
          edited_meanwhile)
rejected-SameContents_example =
    rejected-SameContents edited_meanwhile (resolved response) (rejected "offline") "f1"
      ItemType.file (rejected "offline")
