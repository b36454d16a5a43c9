-- ===== src/Tabs/Close.antt =====
-- What closing a tab does, and that it undoes opening one.
use mathlib.Core.Option
use sync_tex.Base.{
  String, Option, none, some, List, [], ◌∷◌, ◌++◌, ◌==◌, eq_iff, eq_refl, true, false, ◌≡◌, refl,
  not, ap, if◌then◌else◌, find, keep, arith, has, Bool-cases, inl, inr, ◌⊎◌, last?, ◌≢◌,
}
use sync_tex.Tabs.{Tab, Tabs, add_tab, close_tab, active_after_close}
use sync_tex.Tabs.Ids.{ids_of, ids, is_some-find}

abbrev pub tab_of : String → Tabs → Option Tab
tab_of k s = find (λ t. t.id == k) s.open_tabs

find-keep :
    (k j : String) (ts : List Tab)
    → find (λ t. t.id == j) (keep (λ t. not (t.id == k)) ts)
      ≡ (if k == j then none else find (λ t. t.id == j) ts)
find-keep k j [] = ground arith
find-keep k j (t ∷ ts) = ground (arith, eq_iff t.id k, eq_iff t.id j, eq_iff k j, find-keep k j ts)

active_after_close_cases :
    (k : String) (remaining : List Tab) (o : Option String)
    → ((o ≡ some k)
        × (active_after_close k remaining o ≡ Option.map (λ (t : Tab). t.id) (last? remaining)))
      ⊎ ((o ≢ some k) × (active_after_close k remaining o ≡ o))
active_after_close_cases k remaining none = inr (ground arith, refl)
active_after_close_cases k remaining (some x) = elim (Bool-cases (x == k)) [
  | inl same ↦ inl (ap some ((eq_iff x k).0 same), rw same refl)
  | inr other ↦ inr (ground (arith, other, eq_iff x k), rw other refl)
]

-- Closing the tab `k` drops that tab and keeps every other, under any id `j`. Either `k` was active,
-- and the rightmost tab that remains becomes active, or none if none remains; or it was not, and the
-- active tab, or its absence, stays.
pub close_tab_lem :
    (k j : String) (s : Tabs)
    → (tab_of j (close_tab k s) ≡ (if k == j then none else tab_of j s))
      × (((s.active_tab_id ≡ some k)
            × ((close_tab k s).active_tab_id
                ≡ Option.map (λ (t : Tab). t.id) (last? (close_tab k s).open_tabs)))
          ⊎ ((s.active_tab_id ≢ some k) × ((close_tab k s).active_tab_id ≡ s.active_tab_id)))
unfolding close_tab
close_tab_lem k j s = (
  find-keep k j s.open_tabs,
  active_after_close_cases k (keep (λ t. not (t.id == k)) s.open_tabs) s.active_tab_id,
)

keep_of_not-has :
    (k : String) (ts : List Tab) → has k (ids_of ts) ≡ false → keep (λ t. not (t.id == k)) ts ≡ ts
unfolding has
keep_of_not-has k [] h = refl
keep_of_not-has k (t ∷ ts) h = ground (arith, keep_of_not-has k ts)

keep-append_self :
    (t : Tab) (ts : List Tab)
    → keep (λ u. not (u.id == t.id)) (ts ++ t ∷ []) ≡ keep (λ u. not (u.id == t.id)) ts
keep-append_self t [] = rw (eq_refl t.id)
keep-append_self t (u ∷ ts) = ground (arith, keep-append_self t ts)

-- Closing a tab that was just opened, and was not open before, gives back the list of tabs, and
-- activates its rightmost tab, whichever was active before.
pub close_tab-add_tab :
    (t : Tab) (s : Tabs)
    → has t.id (ids s) ≡ false
    → close_tab t.id (add_tab t s)
      ≡ record s { active_tab_id = Option.map (λ (u : Tab). u.id) (last? s.open_tabs) }
unfolding close_tab add_tab
close_tab-add_tab t s h =
    rw (is_some-find t.id s.open_tabs, h, keep-append_self, keep_of_not-has t.id s.open_tabs h)
      (rw (eq_refl t.id))

-- Opening a file that has a tab leaves the tabs alone, old metadata included, and activates it.
pub add_tab_of_open :
    (t : Tab) (s : Tabs)
    → has t.id (ids s) ≡ true
    → add_tab t s ≡ record s { active_tab_id = some t.id }
unfolding add_tab
add_tab_of_open t s h = rw (is_some-find t.id s.open_tabs, h)
