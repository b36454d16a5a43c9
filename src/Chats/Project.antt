-- ===== src/Chats/Project.antt =====
-- Changing the project: an answer to the project before is ignored, in whichever order answers come.
use sync_tex.Base.{◌+◌, List, ◌≡◌, arith, Answer, resolved, rejected}
use sync_tex.Tabs.{Chat}
use sync_tex.Chats.{Chats, project_changed, chats_listed}

module _ {Message : Type 0} where
  -- When the project changes while its chats are being listed, the answers to the old and to the new
  -- request lead to the same state in either order: that of the new answer alone.
  pub last_project_wins :
      (old new : Answer (List Chat)) (s : Chats Message)
      → (chats_listed s.effect_run old (chats_listed (s.effect_run + 1) new (project_changed s))
          ≡ chats_listed (s.effect_run + 1) new (project_changed s))
        × (chats_listed (s.effect_run + 1) new (chats_listed s.effect_run old (project_changed s))
            ≡ chats_listed (s.effect_run + 1) new (project_changed s))
  unfolding project_changed chats_listed
  last_project_wins (resolved a) (resolved b) s = ground arith
  last_project_wins (resolved a) (rejected b) s = ground arith
  last_project_wins (rejected a) (resolved b) s = ground arith
  last_project_wins (rejected a) (rejected b) s = ground arith
