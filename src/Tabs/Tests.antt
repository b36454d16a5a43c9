-- ===== src/Tabs/Tests.antt =====
-- Runs of the tab manager, and its theorems at concrete inputs.
use sync_tex.Base.{◌⊎◌, none, some, List, [], ◌∷◌, ◌≡◌, refl, ◌⊎◌, has, Distinct}
use sync_tex.Tabs.Refinement.{strip_of, strip_run, run-refines-strip_run}
use sync_tex.Tabs.{
  FileInfo, Chat, Tab, Tabs, no_tabs, make_file_tab, make_chat_tab, add_tab, close_tab,
  handle_tab_select, active_tab, file_tab_id, chat_tab_id,
}
use sync_tex.Tabs.Ids.{ids}
use sync_tex.Tabs.Invariant.{Action, add_a, select, close, act, run, AllAllowed, run-active_tab}
use sync_tex.Tabs.Close.{add_tab_of_open}

abbrev main_tex : FileInfo
main_tex = record { id = "f1"; filename = "main.tex"; file_type = some "tex"; download_url = none }

abbrev refs_bib : FileInfo
refs_bib = record { id = "f2"; filename = "refs.bib"; file_type = some "bib"; download_url = none }

abbrev first_chat : Chat
first_chat = record { id = "c1"; title = "" }

abbrev session : List Action
session =
    add_a (make_file_tab main_tex)
    ∷ add_a (make_file_tab refs_bib)
    ∷ add_a (make_chat_tab first_chat)
    ∷ select "file:f1"
    ∷ close "file:f1"
    ∷ []

session_ends : ids (run no_tabs session) ≡ "file:f2" ∷ "chat:c1" ∷ []
unfolding act add_tab close_tab handle_tab_select make_file_tab make_chat_tab file_tab_id
    chat_tab_id
session_ends = refl

session_active : (run no_tabs session).active_tab_id ≡ some "chat:c1"
unfolding act add_tab close_tab handle_tab_select make_file_tab make_chat_tab file_tab_id
    chat_tab_id
session_active = refl

session-AllAllowed : AllAllowed no_tabs session
unfolding act add_tab handle_tab_select make_file_tab make_chat_tab file_tab_id chat_tab_id has
session-AllAllowed = (tt, (tt, (tt, (refl, (tt, tt)))))

run-active_tab_example :
    Distinct (ids (run no_tabs session))
    × (((run no_tabs session).active_tab_id ≡ none) × ((run no_tabs session).open_tabs ≡ [])
        ⊎ ((t : Tab) × (active_tab (run no_tabs session) ≡ some t)
            × ((run no_tabs session).active_tab_id ≡ some t.id)))
run-active_tab_example = run-active_tab session session-AllAllowed

abbrev one_tab : Tabs
one_tab = add_tab (make_file_tab main_tex) no_tabs

add_tab_of_open_example :
    add_tab (make_file_tab main_tex) one_tab ≡ record one_tab { active_tab_id = some "file:f1" }
unfolding add_tab make_file_tab file_tab_id has
add_tab_of_open_example = add_tab_of_open (make_file_tab main_tex) one_tab refl

run-refines-strip_run_example :
    strip_of (run no_tabs session) ≡ strip_run (strip_of no_tabs) session
run-refines-strip_run_example = run-refines-strip_run no_tabs session session-AllAllowed
