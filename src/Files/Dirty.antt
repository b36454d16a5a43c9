-- ===== src/Files/Dirty.antt =====
-- The unsaved marks of the file manager: when they can be trusted, and how a save loses one.
use sync_tex.Base.{
  String, Option, none, some, List, [], ◌∷◌, ◌==◌, eq_refl, Bool, true, false, ◌||◌, ◌≡◌, ◌≢◌, refl,
  arith, is_some, Answer, resolved, rejected, lookup, insert, discard, has, lookup-insert,
  has-discard, Bool-cases, Option-cases, inl, inr,
}
use sync_tex.Tabs.{FileInfo}
use sync_tex.Tree.{Directories}
use sync_tex.Files.Marks.{
  MarksHold, IsMarked-same, IsMarked-clear, IsMarked-url, IsMarked-edit, IsMarked-saved,
  IsMarked-add,
}
use sync_tex.Files.{
  Files, no_files, Save, Response, ItemType, content_of, refresh_tree, set_file_url, content_loaded,
  clear_file_content, handle_editor_change, begin_save, end_save, returned_file, handle_create_file,
  handle_delete_item, handle_image_upload,
}

-- What happens to the file manager. The answers that the requests get are part of the events.
pub data Event : Type 0 where
  refreshed : Answer Directories → Event
  url : String → Option String → Event
  loaded : String → Answer String → Event
  cleared : String → Event
  edited : Option String → Option String → Event
  save_began : Option String → Event
  save_ended : Save → Answer (Unit {0}) → Event
  created : Answer Response → Answer Directories → Event
  deleted : String → ItemType → Answer (Unit {0}) → Answer Directories → Event
  uploaded : Answer Response → Answer Directories → Event

-- `session_content` gives the document of each file that has a collaborative session.
module _ (session_content : String → Option String) where
  unfoldable pub step : Files → Event → Files
  step s (refreshed tree) = (refresh_tree tree s).1
  step s (url k u) = set_file_url k u s
  step s (loaded k content) = (content_loaded k content s).1
  step s (cleared k) = clear_file_content k s
  step s (edited value k) = handle_editor_change (λ j. is_some (session_content j)) value k s
  step s (save_began k) = (begin_save session_content k s).1
  step s (save_ended job answer) = end_save job answer s
  step s (created response tree) = (handle_create_file response tree s).1
  step s (deleted k type answer tree) = (handle_delete_item k type answer tree s).1
  step s (uploaded response tree) = (handle_image_upload response tree s).1

-- A URL goes to a file with no loaded content; and when an upload of a file without a session
-- ends well, the content is still the one that was sent.
abbrev pub Undisturbed : Files → Event → Type 0
Undisturbed s (url k u) = lookup k s.original_contents ≡ none
Undisturbed s (uploaded response tree) =
    (r : Response) (d : Directories) (f : FileInfo)
    → response ≡ resolved r
    → tree ≡ resolved d
    → returned_file r d ≡ some f
    → lookup f.id s.original_contents ≡ none
Undisturbed s (save_ended job (resolved _)) =
    job.from_session ≡ false → content_of job.file_id s ≡ job.content
Undisturbed s _ = Unit

MarksHold-edited :
    (in_session : String → Bool) (value k : Option String) (s : Files)
    → MarksHold s
    → MarksHold (handle_editor_change in_session value k s)
unfolding handle_editor_change
MarksHold-edited in_session value none s h = h
MarksHold-edited in_session value (some k) s h = elim (Bool-cases (k == "" || in_session k)) [
  | inl skipped ↦ rw skipped h
  | inr kept ↦ rw kept (IsMarked-edit k s.file_contents s.original_contents s.unsaved_files h value)
]

MarksHold-begin_save :
    (session_content : String → Option String) (k : Option String) (s : Files)
    → MarksHold s
    → MarksHold (begin_save session_content k s).1
unfolding begin_save
MarksHold-begin_save sc none s h = h
MarksHold-begin_save sc (some k) s h = elim (Bool-cases (k == "" || s.is_saving)) [
  | inl skipped ↦ rw skipped h
  | inr kept ↦ rw kept h
]

MarksHold-end_save :
    (job : Save) (answer : Answer (Unit {0})) (s : Files)
    → MarksHold s
    → Undisturbed s (save_ended job answer)
    → MarksHold (end_save job answer s)
unfolding end_save content_of
MarksHold-end_save job (rejected message) s h u = h
MarksHold-end_save job (resolved _) s h u = elim (Bool-cases job.from_session) [
  | inl session ↦ rw session h
  | inr alone ↦ rw alone (
      IsMarked-saved job.file_id s.file_contents s.original_contents s.unsaved_files h job.content
        (ground (arith, u alone)))
]

MarksHold-created :
    (response : Answer Response) (tree : Answer Directories) (s : Files)
    → MarksHold s
    → MarksHold (handle_create_file response tree s).1
unfolding handle_create_file
MarksHold-created (rejected message) tree s h = h
MarksHold-created (resolved r) (rejected message) s h = h
MarksHold-created (resolved r) (resolved d) s h = elim (Option-cases (returned_file r d)) [
  | inl missing ↦ rw missing h
  | inr (f, found) ↦ rw found (
      IsMarked-add f.id _ _ _
        (IsMarked-same f.id s.file_contents s.original_contents s.unsaved_files h "") f.id)
]

MarksHold-uploaded :
    (response : Answer Response) (tree : Answer Directories) (s : Files)
    → MarksHold s
    → Undisturbed s (uploaded response tree)
    → MarksHold (handle_image_upload response tree s).1
unfolding handle_image_upload
MarksHold-uploaded (rejected message) tree s h u = h
MarksHold-uploaded (resolved r) (rejected message) s h u = h
MarksHold-uploaded (resolved r) (resolved d) s h u = elim (Option-cases (returned_file r d)) [
  | inl missing ↦ rw missing h
  | inr (f, found) ↦ rw found (
      IsMarked-url f.id s.file_contents s.original_contents s.unsaved_files h f.download_url
        (u r d f refl refl found))
]

MarksHold-step :
    (session_content : String → Option String) (s : Files) (e : Event)
    → MarksHold s
    → Undisturbed s e
    → MarksHold (step session_content s e)
unfolding step refresh_tree set_file_url content_loaded clear_file_content handle_delete_item
MarksHold-step sc s (refreshed (resolved tree)) h u = h
MarksHold-step sc s (refreshed (rejected message)) h u = h
MarksHold-step sc s (url k v) h u =
    IsMarked-url k s.file_contents s.original_contents s.unsaved_files h v u
MarksHold-step sc s (loaded k (resolved t)) h u =
    IsMarked-same k s.file_contents s.original_contents s.unsaved_files h t
MarksHold-step sc s (loaded k (rejected message)) h u = h
MarksHold-step sc s (cleared k) h u =
    IsMarked-clear k s.file_contents s.original_contents s.unsaved_files h
MarksHold-step sc s (edited value k) h u = MarksHold-edited (λ j. is_some (sc j)) value k s h
MarksHold-step sc s (save_began k) h u = MarksHold-begin_save sc k s h
MarksHold-step sc s (save_ended job answer) h u = MarksHold-end_save job answer s h u
MarksHold-step sc s (created response tree) h u = MarksHold-created response tree s h
MarksHold-step sc s (deleted k type (rejected message) tree) h u = h
MarksHold-step sc s (deleted k type (resolved _) (rejected message)) h u = h
MarksHold-step sc s (deleted k ItemType.file (resolved _) (resolved d)) h u =
    IsMarked-clear k s.file_contents s.original_contents s.unsaved_files h
MarksHold-step sc s (deleted k ItemType.folder (resolved _) (resolved d)) h u = h
MarksHold-step sc s (uploaded response tree) h u = MarksHold-uploaded response tree s h u

abbrev pub run : (String → Option String) → Files → List Event → Files
run session_content s [] = s
run session_content s (e ∷ events) = run session_content (step session_content s e) events

abbrev pub AllUndisturbed : (String → Option String) → Files → List Event → Type 0
AllUndisturbed session_content s [] = Unit
AllUndisturbed session_content s (e ∷ events) =
    Undisturbed s e × AllUndisturbed session_content (step session_content s e) events

MarksHold-run :
    (session_content : String → Option String) (s : Files) (events : List Event)
    → MarksHold s
    → AllUndisturbed session_content s events
    → MarksHold (run session_content s events)
MarksHold-run sc s [] h u = h
MarksHold-run sc s (e ∷ events) h (u, us) =
    MarksHold-run sc (step sc s e) events (MarksHold-step sc s e h u) us

-- From an empty file manager, after any events in which a URL goes only to a file with no loaded
-- content and the content of a file without a session does not change between the start and the
-- success of its save: each file whose content differs from what was last loaded or saved is
-- marked as unsaved.
pub run-MarksHold :
    (session_content : String → Option String) (events : List Event)
    → AllUndisturbed session_content no_files events
    → MarksHold (run session_content no_files events)
unfolding lookup
run-MarksHold sc events u = MarksHold-run sc no_files events (λ k c o p q n. cc) u

-- A file without a session whose content is edited between the start and the success of its save: the
-- content stays the edited one, what was sent is recorded as saved, the two differ, and the file is not
-- marked as unsaved.
pub end_save_loses_mark :
    (job : Save) (sent now : String) (s : Files)
    → job.from_session ≡ false
    → job.content ≡ some sent
    → content_of job.file_id s ≡ some now
    → now ≢ sent
    → (content_of job.file_id (end_save job (resolved tt) s) ≡ some now)
      × (lookup job.file_id (end_save job (resolved tt) s).original_contents ≡ some sent)
      × (has job.file_id (end_save job (resolved tt) s).unsaved_files ≡ false)
      × (¬ MarksHold (end_save job (resolved tt) s))
unfolding end_save content_of
end_save_loses_mark job sent now s alone e c n =
    let k = job.file_id in
    let f : has k (discard k s.unsaved_files) ≡ false =
      ground (arith, has-discard k k s.unsaved_files, eq_refl k) in
    let p : lookup k s.file_contents ≡ some (some now) = ground arith in
    let q : lookup k (insert k sent s.original_contents) ≡ some sent =
      ground (arith, lookup-insert k k sent s.original_contents, eq_refl k) in
    (
      rw alone c,
      rw (alone, e) q,
      rw alone f,
      λ holds.
          let t : has k (discard k s.unsaved_files) ≡ true =
            (rw (alone, e) at holds) k now sent p q n in
          cc,
    )
