-- ===== src/Explorer/Harmless.antt =====
-- What the explorer lets a viewer call.
use mathlib.Core.Path.{subst}
use sync_tex.Base.{
  String, Option, none, some, List, [], ◌∷◌, Bool, true, false, ◌≡◌, refl, sym, All, if◌then◌else◌,
}
use sync_tex.Markup.{
  Markup, button, offers, Only, All-offers, Only-each, Only-if, Only-disabled, blank,
}
use sync_tex.Explorer.{Node, Index, Explorer}
use sync_tex.Explorer.Tools.{
  given, begin_upload, Tools, Toast, Operation, Menu, row_menu, options_menu,
}
use sync_tex.Explorer.Listing.{
  Call, Given, open_directory, pick_image, type_name, edit_key, retry, confirm_delete, new_item,
  rename_item, ask_delete, crumb, row, is_folder_type, empty_folder,
}
use sync_tex.Explorer.Shown.{
  file_tree, operations, operation_end, menu, node_menu, toast_shown, root_call, is_at_root,
}

-- The calls that lead to no request of the view; a chosen image goes to `begin_upload`, which may
-- refuse it.
abbrev pub ChangesNothing : Call → Type 0
ChangesNothing pick_image = ⊥
ChangesNothing type_name = ⊥
ChangesNothing edit_key = ⊥
ChangesNothing retry = ⊥
ChangesNothing confirm_delete = ⊥
ChangesNothing (new_item type) = ⊥
ChangesNothing (rename_item node) = ⊥
ChangesNothing (ask_delete node) = ⊥
ChangesNothing _ = Unit

abbrev Harmless : Markup Call → Type 0
Harmless = Only ChangesNothing

opens_only :
    (b : Bool) (id : String) → All ChangesNothing (if b then open_directory id ∷ [] else [])
opens_only true id = (tt, tt)
opens_only false id = tt

Harmless-row :
    (g : Given) (ix : Index) (s : Explorer) (node : Node)
    → s.edit ≡ none
    → Harmless (row g ix s node)
Harmless-row g ix s node h = rw h (
  (tt, (tt, (tt, tt))),
  (opens_only (is_folder_type node.type) node.id, ((tt, tt), (((tt, tt), tt), tt))),
)

Harmless-operations :
    {F : Type 0} (name : F → String) (o : Option (Operation F)) → Harmless (operations true name o)
Harmless-operations name none = tt
Harmless-operations name (some o) = ((tt, tt), (tt, failure o.failure))
  where
    failure : (f : Option String) → Harmless (operation_end true f)
    failure none = tt
    failure (some message) = (tt, tt)

Harmless-node_menu : (o : Option Node) → Harmless (node_menu true o)
Harmless-node_menu none = tt
Harmless-node_menu (some node) = (
  Only-if ChangesNothing (is_folder_type node.type)
      (button "" false (open_directory node.id) " Open folder") blank ((tt, tt), tt) tt,
  (tt, (tt, (((tt, tt), tt), (tt, tt)))),
)

root_only : (roots : List String) → All ChangesNothing (root_call roots)
root_only [] = tt
root_only (root ∷ rest) = (tt, tt)

Harmless-menu :
    (ix : Index) (current : Option String) (m : Option Menu) → Harmless (menu true ix current m)
Harmless-menu ix current none = tt
Harmless-menu ix current (some options_menu) = (
  (tt, tt),
  (tt, Only-disabled ChangesNothing (is_at_root ix current) _ (λ below. (root_only ix.roots, tt))),
)
Harmless-menu ix current (some (row_menu id)) = ((tt, tt), Harmless-node_menu _)

Harmless-toast : (t : Option Toast) → Harmless (toast_shown t)
Harmless-toast none = tt
Harmless-toast (some t) = tt

-- A viewer's image is not uploaded.
refused :
    {F : Type 0} (image : Option F) (directory : Option String) (s : Tools F)
    → begin_upload true image directory s ≡ (none, s)
unfolding begin_upload
refused none directory s = refl
refused {F} (some image) directory s = go (given directory)
  where
    go :
        (o : Option String)
        → elim o as (λ _. Option String × Tools F) [ none ↦ (none, s) | some id ↦ (none, s) ]
          ≡ (none, s)
    go none = refl
    go (some id) = refl

-- Where nothing is edited and no deletion is asked for, the explorer of a viewer lets nothing be called
-- that creates, names or deletes an item or uploads one again; and the input of files, which can still be
-- given an image, then uploads nothing and changes nothing.
pub viewer_offers :
    {F : Type 0} (g : Given) (name : F → String) (ix : Index) (s : Tools F) (image : Option F)
    → g.read_only ≡ true
    → s.explorer.edit ≡ none
    → s.delete_target ≡ none
    → All ChangesNothing (offers (file_tree g name ix s))
      × (begin_upload g.read_only image s.explorer.current_directory_id s ≡ (none, s))
unfolding file_tree
viewer_offers g name ix s image only_reads idle unasked = (
  All-offers ChangesNothing (file_tree g name ix s) (
      rw (only_reads, idle, unasked)
        (
          ((tt, (((tt, tt), tt), ((tt, tt), tt))), (tt, (tt, tt))),
          (
            (tt, (tt, (tt, ((tt, tt), tt)))),
            (
              Only-each ChangesNothing g.crumbs crumb (λ node. ((tt, tt), tt)),
              (
                tt,
                (
                  (
                    (tt, tt),
                    (
                      Only-each ChangesNothing _ _ (λ node.
                          Harmless-row (record g { read_only = true }) ix
                            (record s.explorer { edit = none }) node refl),
                      (tt, Only-if ChangesNothing _ empty_folder blank (tt, tt) tt),
                    ),
                  ),
                  (
                    subst (λ b. Harmless (operations b name s.operation)) (sym only_reads)
                        (Harmless-operations name s.operation),
                    (
                      subst (λ b. Harmless (menu b ix s.explorer.current_directory_id s.menu))
                          (sym only_reads)
                          (Harmless-menu ix s.explorer.current_directory_id s.menu),
                      (tt, Harmless-toast s.toast),
                    ),
                  ),
                ),
              ),
            ),
          ),
        )),
  rw only_reads (refused image s.explorer.current_directory_id s),
)
