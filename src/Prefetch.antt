-- ===== src/Prefetch.antt =====
-- frontend/src/prefetch: the imports that are started ahead of their use, in warmups.js, and when they
-- are started, in scheduleIdleWarmup.js. Promises are numbers; `made` counts them.
use sync_tex.Base.{ℕ, ◌+◌, String, Option, none, some, List, [], ◌∷◌, ◌++◌, Bool, if◌then◌else◌}

pub record Warmups : Type 0 where
  pub editor_warmup_promise : Option ℕ
  pub ai_warmup_promise : Option ℕ
  pub made : ℕ
  -- the calls of `import`
  pub imports : List String

abbrev pub cold : Warmups
cold = record { editor_warmup_promise = none; ai_warmup_promise = none; made = 0; imports = [] }

-- `warmEditorRoute`
unfoldable pub warm_editor_route : Warmups → ℕ × Warmups
warm_editor_route s = elim s.editor_warmup_promise [
  | some promise ↦ (promise, s)
  | none ↦ (
    s.made,
    record s {
      editor_warmup_promise = some s.made;
      made = s.made + 1;
      imports = s.imports ++ "../views/EditorView" ∷ [];
    },
  )
]

-- `warmAIPanel`
unfoldable pub warm_ai_panel : Warmups → ℕ × Warmups
warm_ai_panel s = elim s.ai_warmup_promise [
  | some promise ↦ (promise, s)
  | none ↦ (
    s.made,
    record s {
      ai_warmup_promise = some s.made;
      made = s.made + 1;
      imports =
          s.imports
          ++ "../components/Editor/AIPanel/ChatSidebar" ∷ "../components/Editor/AIPanel/ChatWindow"
            ∷ "../components/Editor/AIPanel/MessageList" ∷ [];
    },
  )
]

-- What `scheduleIdleWarmup` starts, with its delay in milliseconds, and what its result cancels.
pub data Scheduled : Type 0 where
  idle_callback timer : ℕ → Scheduled

abbrev or_default : Option ℕ → ℕ → ℕ
or_default none n = n
or_default (some m) n = m

unfoldable pub schedule_idle_warmup : Bool → Option ℕ → Option ℕ → Scheduled
schedule_idle_warmup has_idle_callback timeout fallback_delay =
    if has_idle_callback
    then idle_callback (or_default timeout 3000)
    else timer (or_default fallback_delay 1200)

pub data Call : Type 0 where
  editor panel : Call

unfoldable pub step : Call → Warmups → ℕ × Warmups
step editor s = warm_editor_route s
step panel s = warm_ai_panel s

-- The promises in their order, and the state at the end.
unfoldable pub run : List Call → Warmups → List (Call × ℕ) × Warmups
unfolding step
run [] s = ([], s)
run (c ∷ cs) s =
    let (promise, s') = step c s in
    let (promises, s'') = run cs s' in ((c, promise) ∷ promises, s'')
