-- ===== src/Editor/Tests.antt =====
-- The theorems on the view, at states with one open file or none.
use sync_tex.Base.{
  ℕ, ◌*◌, ◌+◌, ◌-◌, ◌/◌, ◌%◌, leb, eqb, if◌then◌else◌, to_text, num, template, arith, none, some,
  [], ◌∷◌, ◌≡◌, ◌≤◌, refl, true, false,
}
use sync_tex.Editor.Layout.{
  Numbers, Layout, Storage, load_sidebar_width, update_sidebar_width, clamp_sidebar_width,
}
use sync_tex.Editor.Widths.{IsOrdered, IsWholePart, fraction, width_kept}
use sync_tex.Tabs.{no_tabs, add_tab, FileInfo, make_file_tab}
use sync_tex.Files.{no_files}
use sync_tex.Sessions.{no_sessions}
use sync_tex.Editor.{Client}

abbrev notes : FileInfo
notes = record { id = "f1"; filename = "notes.tex"; file_type = some "tex"; download_url = none }

abbrev one_file : Client
one_file = record {
  files = record no_files {
    file_contents = ("f1", some "ab") ∷ ("f2", some "c") ∷ [];
    unsaved_files = "f1" ∷ [];
    original_contents = ("f1", "a") ∷ [];
  };
  sessions = record no_sessions { collab_sessions = ("f1", 0) ∷ []; made = 1 };
  tabs = add_tab (make_file_tab notes) no_tabs;
}

abbrev nothing_open : Client
nothing_open = record { files = no_files; sessions = no_sessions; tabs = no_tabs }

-- Widths to a tenth of a pixel.
abbrev tenths : Numbers
tenths = record {
  Number = ℕ;
  whole = λ n. n * 10;
  le = leb;
  plus = λ a b. a + b;
  minus = λ a b. a - b;
  print = λ a.
      if eqb (a % 10) 0
      then to_text (num (a / 10))
      else template (to_text (num (a / 10)) ∷ "." ∷ to_text (num (a % 10)) ∷ []);
}

tenths-IsOrdered : IsOrdered tenths
tenths-IsOrdered = record {
  le_whole = λ a b. ground arith;
  le_total = λ x y h. ground arith;
  le_trans = λ x y z h k. ground arith;
}

abbrev some_layout : Layout tenths
some_layout = record {
  sidebar_panel = "files";
  sidebar_open = true;
  main_panel = none;
  sidebar_width = 3500;
  resize_pointer = none;
  is_resizing = false;
}

abbrev storage : Storage
storage = record { denied = false; items = [] }

abbrev half_a_pixel : ℕ
half_a_pixel = 3005

three_hundred : IsWholePart tenths (clamp_sidebar_width tenths half_a_pixel) 300
unfolding clamp_sidebar_width to_text
three_hundred = record { from_below = refl; from_above = refl; printed = fraction "5" refl }

width_kept_example :
    ((load_sidebar_width "p1"
        (update_sidebar_width "p1" half_a_pixel (storage, some_layout)).0
        some_layout).sidebar_width
      ≡ 3000)
    × (leb 2600 (clamp_sidebar_width tenths half_a_pixel) ≡ true)
    × (leb (clamp_sidebar_width tenths half_a_pixel) 5200 ≡ true)
    × (260 ≤ 300)
    × (300 ≤ 520)
width_kept_example =
    width_kept tenths-IsOrdered "p1" half_a_pixel 300 storage some_layout some_layout three_hundred
      refl
