-- ===== src/Workbench/Launch/Idle.antt =====
-- The workbench of frontend/src/pages/Workbench.tsx is busy no longer than the actions that prepare
-- and start its runs last.
use Prim.Native.String.{String}
use mini_agent_oscoder.Prelude.{
  ◌≡◌, refl, inl, inr, Bool, true, false, Option, some, Option-cases, Bool-cases, List, Text, trim,
  non_empty,
}
use mini_agent_oscoder.Json.{Value, TraceEvent}
use mini_agent_oscoder.I18n.{Locale, Tables}
use mini_agent_oscoder.Commands.{TaskCommand, parse_task_command}
use mini_agent_oscoder.Session.{RunResources}
use mini_agent_oscoder.Session.Loading.{LoadedRunHeader}
use mini_agent_oscoder.WorkItems.Describe.{Translator}
use mini_agent_oscoder.Workbench.{
  Workbench, ModelStatus, Outcome, failed, replied, done, Ends, each, project_id_of,
}
use mini_agent_oscoder.Workbench.Launch.{
  is_configured, is_blocked, can_start, start_loaded, start_prepared, prepare_loaded,
  prepare_created, prepare_run, launch_checked, launch_answered, launch_run, start_follow_up,
}
use mini_agent_oscoder.Workbench.Panels.Busy.{with_run-Ends}

abbrev pub IsIdle : Workbench → Type 0
IsIdle v = v.busy ≡ false

module _ (tables : Tables) (locale : Locale) (t : Translator) where
  start_loaded-IsIdle :
      (rendered project : Option Text) (run : Text) (trace : List TraceEvent) (key : String)
      (v : Workbench)
      → Ends IsIdle (start_loaded tables locale t rendered project run trace key done) v
  unfolding start_loaded
  start_loaded-IsIdle rendered project run trace key v = each _ (λ e v. refl) (λ _ v. refl)

  start_prepared-IsIdle :
      (rendered : Option Text) (start_now : Bool) (status : Option ModelStatus)
      (run : LoadedRunHeader) (resources : RunResources) (v : Workbench)
      → Ends IsIdle (start_prepared tables locale t rendered start_now status run resources) v
  unfolding start_prepared
  start_prepared-IsIdle rendered start_now status run resources v = elim (Bool-cases start_now) [
    | inr n ↦ rw (start_prepared, n) refl
    | inl n ↦ elim (Bool-cases (is_configured status)) [
      | inr c ↦ rw (start_prepared, n, c) refl
      | inl c ↦ elim (Bool-cases (is_blocked run)) [
        | inl b ↦ rw (start_prepared, n, c, b) refl
        | inr b ↦
            rw (start_prepared, n, c, b)
              (start_loaded-IsIdle rendered rendered run.run_id resources.trace "error.prepareRun"
                v)
      ]
    ]
  ]

  prepare_loaded-IsIdle :
      (rendered : Option Text) (start_now : Bool) (parsed : TaskCommand)
      (status : Option ModelStatus) (run : LoadedRunHeader) (out : Outcome (RunResources × Unit))
      (v : Workbench)
      → Ends IsIdle (prepare_loaded tables locale t rendered start_now parsed status run out) v
  unfolding prepare_loaded
  prepare_loaded-IsIdle rendered start_now parsed status run (failed e) v = refl
  prepare_loaded-IsIdle rendered start_now parsed status run (replied (resources, _)) v =
      start_prepared-IsIdle rendered start_now status run resources _

  prepare_created-IsIdle :
      (rendered : Option Text) (start_now : Bool) (parsed : TaskCommand)
      (out : Outcome (LoadedRunHeader × (Option ModelStatus × Unit))) (v : Workbench)
      → Ends IsIdle (prepare_created tables locale t rendered start_now parsed out) v
  unfolding prepare_created
  prepare_created-IsIdle rendered start_now parsed (failed e) v = refl
  prepare_created-IsIdle rendered start_now parsed (replied (run, (status, _))) v =
      prepare_loaded-IsIdle rendered start_now parsed status run

  prepare_run-IsIdle :
      (w v : Workbench) (start_now : Bool) (requested : Text) (parent : Option Text)
      → IsIdle v
      → Ends IsIdle (prepare_run tables locale t w start_now requested parent) v
  unfolding prepare_run
  prepare_run-IsIdle w v start_now requested parent h = elim (Option-cases w.project) [
    | inl n ↦ rw (prepare_run, n) h
    | inr (project, e) ↦
        let parsed = parse_task_command requested w.session.mode in
        elim (Bool-cases (non_empty parsed.task)) [
          | inr f ↦ rw (prepare_run, e, f) h
          | inl f ↦
              rw (prepare_run, e, f)
                (prepare_created-IsIdle (some project.project_id) start_now parsed)
        ]
  ]

  start_follow_up-IsIdle :
      (w : Workbench) → IsIdle w → Ends IsIdle (start_follow_up tables locale t w) w
  unfolding start_follow_up
  start_follow_up-IsIdle w h = with_run-Ends _ w.session.run_id _ w h (λ run.
      elim (Bool-cases (non_empty (trim w.session.follow_up_task))) [
        | inr f ↦ rw f h
        | inl f ↦ rw f (prepare_run-IsIdle w _ true (trim w.session.follow_up_task) (some run) h)
      ])

  launch_answered-IsIdle :
      (rendered : Option Text) (run : Text)
      (out : Outcome (List TraceEvent × (Value × (Value × (Value × Unit))))) (v : Workbench)
      → Ends IsIdle (launch_answered tables locale t rendered run out) v
  unfolding launch_answered launch_checked
  launch_answered-IsIdle rendered run (failed e) v = refl
  launch_answered-IsIdle rendered run (replied (trace, (admission, (route, (program, _))))) v =
      elim (Bool-cases (can_start admission)) [
        | inr b ↦ rw (launch_checked, b) refl
        | inl b ↦
            rw (launch_checked, b)
              (start_loaded-IsIdle rendered rendered run trace "error.startRun" v)
      ]

  launch_run-IsIdle : (w : Workbench) → IsIdle w → Ends IsIdle (launch_run tables locale t w) w
  unfolding launch_run
  launch_run-IsIdle w h = with_run-Ends _ w.session.run_id _ w h (λ run.
      elim (Bool-cases (is_configured w.model_status)) [
        | inr c ↦ rw c h
        | inl c ↦ rw c (launch_answered-IsIdle (project_id_of w.project) run)
      ])

  -- An action that prepares, launches or follows up a run and begins while the workbench is not busy
  -- leaves it so, on every branch, whichever requests fail and whatever else changes meanwhile.
  pub launches-IsIdle :
      (w : Workbench) (start_now : Bool) (requested : Text) (parent : Option Text)
      → IsIdle w
      → Ends IsIdle (prepare_run tables locale t w start_now requested parent) w
        × Ends IsIdle (launch_run tables locale t w) w
        × Ends IsIdle (start_follow_up tables locale t w) w
  launches-IsIdle w start_now requested parent h = (
    prepare_run-IsIdle w w start_now requested parent h,
    launch_run-IsIdle w h,
    start_follow_up-IsIdle w h,
  )
