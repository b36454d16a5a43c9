-- ===== src/Tabs/Refinement.antt =====
-- What the tab manager promises: a list of ids in which none stands twice, in the order they were
-- opened, with one of them on top. It forgets what the tabs hold.
use sync_tex.Base.{
  String, Option, none, some, List, [], ◌∷◌, ◌==◌, ◌≡◌, refl, ◌∙◌, ap, if◌then◌else◌, add, discard,
  last?, keep, not, Bool-cases, inl, inr,
}
use sync_tex.Tabs.{Tab, Tabs, add_tab, update_tab, handle_tab_select, close_tab, active_after_close}
use sync_tex.Tabs.Ids.{
  ids_of, ids, ids-add_tab, ids-close_tab, ids_of-keep, ids-update_tab, last?-ids_of,
}
use sync_tex.Tabs.Invariant.{Action, add_a, update, select, close, act, run, Allowed, AllAllowed}

pub record Strip : Type 0 where
  pub order : List String
  pub top : Option String

-- What the strip shows of a state.
abbrev pub strip_of : Tabs → Strip
strip_of s = record { order = ids s; top = s.active_tab_id }

-- The top after one id is taken out: the last id that is left, if it was that one.
abbrev pub next_top : String → List String → Option String → Option String
next_top id order none = none
next_top id order (some top) = if top == id then last? order else some top

abbrev pub strip_act : Strip → Action → Strip
strip_act now (add_a t) = record { order = add t.id now.order; top = some t.id }
strip_act now (update id patch) = now
strip_act now (select id) = record now { top = some id }
strip_act now (close id) = record {
  order = discard id now.order;
  top = next_top id (discard id now.order) now.top;
}

abbrev pub strip_run : Strip → List Action → Strip
strip_run now [] = now
strip_run now (a ∷ actions) = strip_run (strip_act now a) actions

abbrev strip : List String → Option String → Strip
strip order top = record { order = order; top = top }

next-top :
    (id : String) (remaining : List Tab) (order : List String) (active : Option String)
    → ids_of remaining ≡ order
    → active_after_close id remaining active ≡ next_top id order active
next-top id remaining order none e = refl
next-top id remaining order (some current) e = elim (Bool-cases (current == id)) [
  | inl same ↦ rw same (last?-ids_of remaining ∙ ap last? e)
  | inr other ↦ rw other refl
]

same_strip :
    (order order' : List String) (top top' : Option String)
    → order ≡ order'
    → top ≡ top'
    → strip order top ≡ strip order' top'
same_strip order order' top top' e e' = rw (e, e') refl

strip-act : (s : Tabs) (a : Action) → Allowed s a → strip_of (act s a) ≡ strip_act (strip_of s) a
unfolding act
strip-act s (add_a t) h = unfold add_tab in ap (λ order. strip order (some t.id)) (ids-add_tab t s)
strip-act s (update id patch) h =
    unfold update_tab in ap (λ order. strip order s.active_tab_id) (ids-update_tab id patch s h)
strip-act s (select id) h = unfold handle_tab_select in refl
strip-act s (close id) h =
    unfold close_tab in
    same_strip _ _ _ _ (ids-close_tab id s) (
      next-top id (keep (λ t. not (t.id == id)) s.open_tabs) (discard id (ids s)) s.active_tab_id
        (ids_of-keep id s.open_tabs))

-- The tab manager refines the strip: after any operations from any state, where a patch leaves the id
-- of its tab alone and a selected tab is open, what it shows is what the strip comes to by them.
pub run-refines-strip_run :
    (s : Tabs) (actions : List Action)
    → AllAllowed s actions
    → strip_of (run s actions) ≡ strip_run (strip_of s) actions
run-refines-strip_run s [] h = refl
run-refines-strip_run s (a ∷ actions) (h, hs) =
    run-refines-strip_run (act s a) actions hs ∙ ap (λ now. strip_run now actions) (strip-act s a h)
