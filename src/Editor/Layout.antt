-- ===== src/Editor/Layout.antt =====
-- The side panel of frontend/src/views/EditorView.jsx: its width, which is kept in `localStorage` for
-- each project, and the panel that is shown. Widths are JavaScript's numbers, which a pointer may give a
-- fraction; what is done with them is a parameter.
use Prim.Native.Char.{code}
use Prim.Native.String
use sync_tex.Base.{
  ℕ, ◌+◌, ◌-◌, ◌*◌, String, Option, none, some, ◌==◌, Bool, true, false, not, ◌&&◌, if◌then◌else◌,
  leb, eqb, Dict, lookup, insert, trim_start,
}

abbrev pub sidebar_min : ℕ
sidebar_min = 260

abbrev pub sidebar_max : ℕ
sidebar_max = 520

abbrev pub sidebar_default : ℕ
sidebar_default = 350

-- What widths need of JavaScript's numbers.
pub record Numbers : Type 1 where
  pub Number : Type 0
  pub whole : ℕ → Number
  -- `a <= b`, `a + b`, `a - b`, `String(a)`
  pub le : Number → Number → Bool
  pub plus : Number → Number → Number
  pub minus : Number → Number → Number
  pub print : Number → String

module _ (N : Numbers) where
  abbrev pub min : N.Number → N.Number → N.Number
  min a b = if N.le a b then a else b

  abbrev pub max : N.Number → N.Number → N.Number
  max a b = if N.le a b then b else a

  unfoldable pub clamp_sidebar_width : N.Number → N.Number
  clamp_sidebar_width width = min (N.whole sidebar_max) (max (N.whole sidebar_min) width)

abbrev pub is_digit : ℕ → Bool
is_digit c = leb 48 c && leb c 57

-- The digits that a text starts with, read after those that came before.
unfoldable pub digits_from : ℕ → String → ℕ
digits_from n String.[] = n
digits_from n (String.◌∷◌ c text) =
    let rest = digits_from (n * 10 + (code c - 48)) text in if is_digit (code c) then rest else n

abbrev unsigned : String → Option ℕ
unsigned String.[] = none
unsigned (String.◌∷◌ c text) =
    if is_digit (code c) then some (digits_from 0 (String.◌∷◌ c text)) else none

abbrev zero_if_some : Option ℕ → Option ℕ
zero_if_some none = none
zero_if_some (some n) = some 0

abbrev signed : String → Option ℕ
signed String.[] = none
signed (String.◌∷◌ c text) =
    let positive = unsigned text in
    let negative = zero_if_some (unsigned text) in
    let number = unsigned (String.◌∷◌ c text) in
    if eqb (code c) 43 then positive else if eqb (code c) 45 then negative else number

-- `Number.parseInt(text, 10)`; none is NaN, and a negative number, which is clamped as 0 is, is 0.
unfoldable pub parse_int : String → Option ℕ
unfolding digits_from trim_start
parse_int text = signed (trim_start text)

pub record Layout (N : Numbers) : Type 0 where
  pub sidebar_panel : String
  pub sidebar_open : Bool
  pub main_panel : Option String
  pub sidebar_width : N.Number
  -- `resizePointerRef`, `isResizing`
  pub resize_pointer : Option ℕ
  pub is_resizing : Bool

-- `localStorage`, which a browser may deny.
pub record Storage : Type 0 where
  pub denied : Bool
  pub items : Dict String

abbrev pub width_key : String → String
width_key project_id = String.◌++◌ "editor-sidebar-width:" project_id

abbrev store : String → String → Storage → Storage
store key text storage =
    if storage.denied then storage else record storage { items = insert key text storage.items }

module _ (N : Numbers) where
  abbrev pub read_width : Option String → N.Number
  read_width none = N.whole sidebar_default
  read_width (some text) = elim (parse_int text) [
    | none ↦ N.whole sidebar_default
    | some stored ↦ clamp_sidebar_width N (N.whole stored)
  ]

abbrev is_pointer : Option ℕ → ℕ → Bool
is_pointer none pointer = false
is_pointer (some own) pointer = eqb own pointer

module _ {N : Numbers} where
  -- The effect of a project's change.
  unfoldable pub load_sidebar_width : String → Storage → Layout N → Layout N
  load_sidebar_width project_id storage s = record s {
    sidebar_width =
        if storage.denied
        then N.whole sidebar_default
        else read_width N (lookup (width_key project_id) storage.items);
  }

  unfoldable pub update_sidebar_width : String → N.Number → Storage × Layout N → Storage × Layout N
  update_sidebar_width project_id width (storage, s) = (
    store (width_key project_id) (N.print (clamp_sidebar_width N width)) storage,
    record s { sidebar_width = clamp_sidebar_width N width },
  )

  unfoldable pub resize_started : ℕ → Layout N → Layout N
  resize_started pointer s = record s { resize_pointer = some pointer; is_resizing = true }

  -- `onPointerMove`; `left` is the panel's left edge.
  unfoldable pub resize_moved :
      String → ℕ → N.Number → N.Number → Storage × Layout N → Storage × Layout N
  resize_moved project_id pointer client_x left (storage, s) =
      if is_pointer s.resize_pointer pointer
      then update_sidebar_width project_id (N.minus client_x left) (storage, s)
      else (storage, s)

  unfoldable pub resize_cancelled : Layout N → Layout N
  resize_cancelled s = record s { resize_pointer = none; is_resizing = false }

  -- `onPointerUp`
  unfoldable pub resize_ended : ℕ → Layout N → Layout N
  resize_ended pointer s = if is_pointer s.resize_pointer pointer then resize_cancelled s else s

  -- `onKeyDown` of the handle
  unfoldable pub resize_key : String → String → Storage × Layout N → Storage × Layout N
  resize_key project_id key (storage, s) =
      if key == "ArrowRight"
      then update_sidebar_width project_id (N.plus s.sidebar_width (N.whole 14)) (storage, s)
      else if key == "ArrowLeft"
      then update_sidebar_width project_id (N.minus s.sidebar_width (N.whole 14)) (storage, s)
      else (storage, s)

pub data PanelType : Type 0 where
  sidebar main : PanelType

abbrev toggled_main : Option String → String → Option String
toggled_main none panel_id = some panel_id
toggled_main (some current) panel_id = if current == panel_id then none else some panel_id

-- `handlePanelToggle`, but for the prefetch.
unfoldable pub handle_panel_toggle : {N : Numbers} → String → PanelType → Layout N → Layout N
handle_panel_toggle panel_id sidebar s = record s {
  main_panel = none;
  sidebar_open = if s.sidebar_panel == panel_id then not s.sidebar_open else true;
  sidebar_panel = panel_id;
}
handle_panel_toggle panel_id main s = record s { main_panel = toggled_main s.main_panel panel_id }
