-- ===== src/Workbench/Launch/Admission.antt =====
-- When the actions of frontend/src/pages/Workbench.tsx ask the daemon to start a run.
use Prim.Native.String.{String}
use mini_agent_oscoder.Prelude.{
  ◌≡◌, refl, inl, inr, Bool, true, false, Option, none, some, Option-cases, Bool-cases, List, [],
  ◌∷◌, Text, any, keep, non_empty,
}
use mini_agent_oscoder.Json.{Value, TraceEvent}
use mini_agent_oscoder.I18n.{Locale, Tables}
use mini_agent_oscoder.Commands.{TaskCommand, parse_task_command}
use mini_agent_oscoder.Session.{RunResources}
use mini_agent_oscoder.Session.Loading.{LoadedRunHeader}
use mini_agent_oscoder.WorkItems.Describe.{Translator}
use mini_agent_oscoder.Workbench.{
  Workbench, done, ModelStatus, Call, Ask, strict, create_run, start_run, load_run_resources,
  get_trace, get_admission, get_model_route, get_formal_program, get_model_status, Daemon, Outcome,
  failed, replied, sent, gather, gather-replied, gather-some, optional, Outcome-cases,
  project_id_of,
}
use mini_agent_oscoder.Workbench.Launch.{
  is_configured, is_blocked, can_start, start_prepared, start_loaded, prepare_run, launch_checked,
  launch_answered, launch_run, prepare_loaded, prepare_created,
}

-- A request to start a run.
unfoldable pub is_start : Call → Bool
is_start (start_run _) = true
is_start _ = false

-- The last of the requests that come before a start.
abbrev last_asks : Text → List Ask
last_asks run = strict (get_model_route run) ∷ strict (get_formal_program run) ∷ []

module _ (daemon : Daemon) (tables : Tables) (locale : Locale) (t : Translator) where
  launch_checked-starts :
      (rendered : Option Text) (run : Text) (trace : List TraceEvent)
      (admission route program : Value)
      → any is_start
          (sent daemon (launch_checked tables locale t rendered run trace admission route program))
        ≡ true
      → can_start admission ≡ true
  unfolding launch_checked sent is_start
  launch_checked-starts rendered run trace admission route program h =
      elim (Bool-cases (can_start admission)) [
        | inl e ↦ e
        | inr e ↦ cc (rw (launch_checked, e) at h)
      ]

  start_loaded-once :
      (rendered project : Option Text) (run : Text) (trace : List TraceEvent) (key : String)
      → keep is_start
          (sent daemon (start_loaded tables locale t rendered project run trace key done))
        ≡ start_run run ∷ []
  unfolding start_loaded sent gather is_start
  start_loaded-once rendered project run trace key = elim (Outcome-cases (daemon (start_run run))) [
    | inl (e, q) ↦ rw (start_loaded, q) refl
    | inr (status, q) ↦ rw (start_loaded, q) refl
  ]

  -- What is started once the admission allows it.
  launch_checked-once :
      (rendered : Option Text) (run : Text) (trace : List TraceEvent)
      (admission route program : Value)
      → can_start admission ≡ true
      → keep is_start
          (sent daemon (launch_checked tables locale t rendered run trace admission route program))
        ≡ start_run run ∷ []
  unfolding launch_checked sent is_start
  launch_checked-once rendered run trace admission route program h =
      rw (launch_checked, h) (start_loaded-once rendered rendered run trace "error.startRun")

  launch_answered-starts :
      (rendered : Option Text) (run : Text)
      (out : Outcome (List TraceEvent × (Value × (Value × (Value × Unit)))))
      → any is_start (sent daemon (launch_answered tables locale t rendered run out)) ≡ true
      → (trace : List TraceEvent) × (admission : Value) × (rest : Value × (Value × Unit)) × (out
          ≡ replied (trace, (admission, rest)))
        × (can_start admission ≡ true)
        × (keep is_start (sent daemon (launch_answered tables locale t rendered run out))
            ≡ start_run run ∷ [])
  unfolding launch_answered sent
  launch_answered-starts rendered run (failed e) h = cc h
  launch_answered-starts rendered run (replied (trace, (admission, (route, (program, u))))) h = (
    trace,
    admission,
    (route, (program, u)),
    refl,
    launch_checked-starts rendered run trace admission route program h,
    launch_checked-once rendered run trace admission route program
        (launch_checked-starts rendered run trace admission route program h),
  )

  -- When a click on launch asks for a start, there is an open run, it asks for exactly one start, that
  -- of the open run; the model is configured, and the admission that was asked for just before was
  -- answered and allows it.
  pub launch_run-starts :
      (w : Workbench)
      → any is_start (sent daemon (launch_run tables locale t w)) ≡ true
      → (is_configured w.model_status ≡ true)
        × (run : Text) × (w.session.run_id ≡ some run)
        × (admission : Value) × (daemon (get_admission run) ≡ replied admission)
        × (can_start admission ≡ true)
        × (keep is_start (sent daemon (launch_run tables locale t w)) ≡ start_run run ∷ [])
  unfolding launch_run sent is_start
  launch_run-starts w h = elim (Option-cases w.session.run_id) [
    | inl n ↦ cc (rw (launch_run, n) at h)
    | inr (run, e) ↦ elim (Bool-cases (is_configured w.model_status)) [
      | inr c ↦ cc (rw (launch_run, e, c) at h)
      | inl c ↦
          let (trace, admission, rest, asked, allowed, once) =
            launch_answered-starts (project_id_of w.project) run
              (gather daemon (strict (get_trace run) ∷ strict (get_admission run) ∷ last_asks run))
              (rw (launch_run, e, c) at h) in
          let later =
            (gather-replied daemon (get_trace run) (strict (get_admission run) ∷ last_asks run)
              trace (admission, rest) asked).1 in
          (
            c,
            run,
            e,
            admission,
            (gather-replied daemon (get_admission run) (last_asks run) admission rest later).0,
            allowed,
            rw (launch_run, e, c) once,
          )
    ]
  ]

  start_prepared-starts :
      (rendered : Option Text) (start_now : Bool) (status : Option ModelStatus)
      (run : LoadedRunHeader) (resources : RunResources)
      → any is_start
          (sent daemon (start_prepared tables locale t rendered start_now status run resources))
        ≡ true
      → (start_now ≡ true)
        × (is_configured status ≡ true)
        × (is_blocked run ≡ false)
        × (keep is_start
              (sent daemon (start_prepared tables locale t rendered start_now status run resources))
            ≡ start_run run.run_id ∷ [])
  unfolding start_prepared sent is_start
  start_prepared-starts rendered start_now status run resources h = elim (Bool-cases start_now) [
    | inr n ↦ cc (rw (start_prepared, n) at h)
    | inl n ↦ elim (Bool-cases (is_configured status)) [
      | inr c ↦ cc (rw (start_prepared, n, c) at h)
      | inl c ↦ elim (Bool-cases (is_blocked run)) [
        | inl b ↦ cc (rw (start_prepared, n, c, b) at h)
        | inr b ↦ (
          n,
          c,
          b,
          rw (start_prepared, n, c, b)
              (start_loaded-once rendered rendered run.run_id resources.trace "error.prepareRun"),
        )
      ]
    ]
  ]

  prepare_loaded-starts :
      (rendered : Option Text) (start_now : Bool) (parsed : TaskCommand)
      (status : Option ModelStatus) (run : LoadedRunHeader) (out : Outcome (RunResources × Unit))
      → any is_start
          (sent daemon (prepare_loaded tables locale t rendered start_now parsed status run out))
        ≡ true
      → (start_now ≡ true)
        × (is_configured status ≡ true)
        × (is_blocked run ≡ false)
        × (keep is_start (
              sent daemon (prepare_loaded tables locale t rendered start_now parsed status run out))
            ≡ start_run run.run_id ∷ [])
  unfolding prepare_loaded sent
  prepare_loaded-starts rendered start_now parsed status run (failed e) h = cc h
  prepare_loaded-starts rendered start_now parsed status run (replied (resources, u)) h =
      start_prepared-starts rendered start_now status run resources h

  prepare_created-starts :
      (rendered : Option Text) (start_now : Bool) (parsed : TaskCommand)
      (out : Outcome (LoadedRunHeader × (Option ModelStatus × Unit)))
      → any is_start (sent daemon (prepare_created tables locale t rendered start_now parsed out))
        ≡ true
      → (start_now ≡ true)
        × (run : LoadedRunHeader) × (status : ModelStatus) × (out
            ≡ replied (run, (some status, tt)))
        × (status.configured ≡ true)
        × (is_blocked run ≡ false)
        × (keep is_start
              (sent daemon (prepare_created tables locale t rendered start_now parsed out))
            ≡ start_run run.run_id ∷ [])
  unfolding prepare_created sent is_start
  prepare_created-starts rendered start_now parsed (failed e) h = cc h
  prepare_created-starts rendered start_now parsed (replied (run, (none, u))) h =
      cc
        (prepare_loaded-starts rendered start_now parsed none run
          (gather daemon (strict (load_run_resources run.run_id) ∷ [])) h).1
  prepare_created-starts rendered start_now parsed (replied (run, (some status, u))) h =
      let (n, c, b, once) =
        prepare_loaded-starts rendered start_now parsed (some status) run
          (gather daemon (strict (load_run_resources run.run_id) ∷ [])) h in
      (n, run, status, refl, c, b, once)

  -- When an action that prepares a run also asks for a start, it asks for exactly one, that of the run
  -- that the daemon has created for it; the start was wanted, the daemon reports the model as
  -- configured, and the admission of the new run does not forbid it.
  pub prepare_run-starts :
      (w : Workbench) (start_now : Bool) (requested : Text) (parent : Option Text)
      → any is_start (sent daemon (prepare_run tables locale t w start_now requested parent)) ≡ true
      → (start_now ≡ true)
        × (task mode project : Text) × (run : LoadedRunHeader) × (daemon
              (create_run project task mode parent)
            ≡ replied run)
        × (is_blocked run ≡ false)
        × (status : ModelStatus) × (daemon (get_model_status project) ≡ replied status)
        × (status.configured ≡ true)
        × (keep is_start (sent daemon (prepare_run tables locale t w start_now requested parent))
            ≡ start_run run.run_id ∷ [])
  unfolding prepare_run sent is_start
  prepare_run-starts w start_now requested parent h = elim (Option-cases w.project) [
    | inl n ↦ cc (rw (prepare_run, n) at h)
    | inr (project, e) ↦
        let parsed = parse_task_command requested w.session.mode in
        elim (Bool-cases (non_empty parsed.task)) [
          | inr f ↦ cc (rw (prepare_run, e, f) at h)
          | inl f ↦
              let first = create_run project.project_id parsed.task parsed.mode parent in
              let second = get_model_status project.project_id in
              let (n, run, status, asked, configured, open_run, once) =
                prepare_created-starts (some project.project_id) start_now parsed
                  (gather daemon (strict first ∷ optional second ∷ []))
                  (rw (prepare_run, e, f) at h) in
              let both =
                gather-replied daemon first (optional second ∷ []) run (some status, tt) asked in
              (
                n,
                parsed.task,
                parsed.mode,
                project.project_id,
                run,
                both.0,
                open_run,
                status,
                gather-some daemon second [] status tt both.1,
                configured,
                rw (prepare_run, e, f) once,
              )
        ]
  ]
