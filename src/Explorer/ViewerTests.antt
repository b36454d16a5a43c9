-- ===== src/Explorer/ViewerTests.antt =====
-- The explorer of a viewer, at a project with one folder and one file.
use sync_tex.Base.{String, none, some, List, [], ◌∷◌, true, false, ◌≡◌, refl, All}
use sync_tex.Markup.{offers}
use sync_tex.Explorer.{Locale, Node, file, folder, Index, Edit, create}
use sync_tex.Explorer.Tools.{begin_upload, Tools, row_menu}
use sync_tex.Explorer.Session.{
  Browser, Event, run, entered, create_begun, rename_begun, typed, committed, delete_asked,
  delete_confirmed, image_picked,
}
use sync_tex.Explorer.Viewer.{viewer_asks_nothing}
use sync_tex.Explorer.Listing.{Given}
use sync_tex.Explorer.Shown.{file_tree}
use sync_tex.Explorer.Harmless.{ChangesNothing, viewer_offers}

abbrev plain : Locale
plain = record { trim = λ s. s; lower = λ s. s }

abbrev main_tex : Node
main_tex = record { id = "f1"; type = file; label = "main.tex" }

abbrev project : Index
project = record {
  nodes_by_id =
      ("d1", record { id = "d1"; type = folder; label = "thesis" }) ∷ ("f1", main_tex) ∷ [];
  parent_by_id = ("d1", none) ∷ ("f1", some "d1") ∷ [];
  children_by_directory = ("d1", "f1" ∷ []) ∷ [];
  roots = "d1" ∷ [];
}

abbrev naming : Edit
naming = record {
  kind = create;
  type = file;
  value = "notes.tex";
  pending = false;
  error = "";
  retry = false;
}

-- A name is being typed when the user is found to be a viewer.
abbrev typing : Browser String
typing = record {
  index = project;
  tools = record {
    explorer = record {
      current_directory_id = some "d1";
      selected_node_id = none;
      focused_node_id = some "f1";
      edit = some naming;
      context_menu = false;
      toast = none;
    };
    menu = some (row_menu "f1");
    delete_target = none;
    delete_pending = false;
    operation = none;
    toast = none;
  };
}

abbrev attempts : List (Event String)
attempts =
    committed
    ∷ create_begun folder
    ∷ typed "figures"
    ∷ committed
    ∷ rename_begun main_tex
    ∷ delete_asked main_tex
    ∷ delete_confirmed
    ∷ image_picked (some "plot.png")
    ∷ []

viewer_asks_nothing_example :
    ((run plain 3 true attempts (entered plain 3 true typing)).0 ≡ [])
    × ((run plain 3 true attempts (entered plain 3 true typing)).1.tools.explorer.edit ≡ none)
viewer_asks_nothing_example = viewer_asks_nothing plain 3 attempts typing

abbrev given : Given
given = record {
  project_name = "Thesis";
  read_only = true;
  dark = false;
  active_file_id = some "f1";
  crumbs = [];
  presentation = λ node. "LaTeX source";
}

abbrev idle : Tools String
idle = record typing.tools { explorer = record typing.tools.explorer { edit = none } }

viewer_offers_example :
    All ChangesNothing (offers (file_tree given (λ s. s) project idle))
    × (begin_upload true (some "plot.png") (some "d1") idle ≡ (none, idle))
viewer_offers_example = viewer_offers given (λ s. s) project idle (some "plot.png") refl refl refl
