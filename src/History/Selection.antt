-- ===== src/History/Selection.antt =====
-- The runs that are selected for a comparison in frontend/src/components/RunCenter.tsx.
use mini_agent_oscoder.Prelude.{
  ◌≡◌, refl, arith, inl, inr, ◌≤◌, Bool, true, false, Bool-cases, Option, none, some, List, [], ◌∷◌,
  ◌++◌, Text, text_eq, text_eq_comm, any, any-append, keep, length, ltb, All, non_empty,
  length-append,
}
use mini_agent_oscoder.I18n.{Locale, Tables}
use mini_agent_oscoder.WorkItems.Describe.{Translator}
use mini_agent_oscoder.Scripts.{Outcome, failed, replied, each, Keeps}
use mini_agent_oscoder.History.{
  RunCenter, HistoryRunDetail, HistoryPage, Script, toggle_among, toggle_selected, forget_run,
  show_page, HistoryProject,
}
use mini_agent_oscoder.History.Actions.{
  Action, opened, ticked, filtered, reloaded, inspected, toggled, cleared, compared, archived,
  deleted, resumed, evaluated, left_comparison, left_detail, archive_answered, delete_answered,
  refresh, all_answered, runs_answered, inspect_run, compare_pair, compare_runs, toggle_archive,
  toggle_archive_of, delete_run, delete_run_of, resume_run, resume_run_of, show_evaluation,
  open_center, scripts_of, with_detail,
}

-- No text twice.
abbrev pub HasNoRepeat : List Text → Type 0
HasNoRepeat [] = Unit
HasNoRepeat (x ∷ xs) = (any (λ y. text_eq y x) xs ≡ false) × HasNoRepeat xs

abbrev pub IsSelection : List Text → Type 0
IsSelection xs = (length xs ≤ 2) × HasNoRepeat xs

length-keep : (p : Text → Bool) (xs : List Text) → length (keep p xs) ≤ length xs
length-keep p [] = omega arith
length-keep p (x ∷ xs) = ground (arith, length-keep p xs)

any-keep : (p q : Text → Bool) (xs : List Text) → any q xs ≡ false → any q (keep p xs) ≡ false
any-keep p q [] h = refl
any-keep p q (x ∷ xs) h = ground (arith, any-keep p q xs)

HasNoRepeat-keep : (p : Text → Bool) (xs : List Text) → HasNoRepeat xs → HasNoRepeat (keep p xs)
HasNoRepeat-keep p [] h = tt
HasNoRepeat-keep p (x ∷ xs) (n, h) = elim (Bool-cases (p x)) [
  | inl e ↦ rw e (any-keep p _ xs n, HasNoRepeat-keep p xs h)
  | inr e ↦ rw e (HasNoRepeat-keep p xs h)
]

IsSelection-keep : (p : Text → Bool) (xs : List Text) → IsSelection xs → IsSelection (keep p xs)
IsSelection-keep p xs (l, h) = (omega (arith, length-keep p xs), HasNoRepeat-keep p xs h)

HasNoRepeat-append :
    (run : Text) (xs : List Text)
    → any (λ y. text_eq y run) xs ≡ false
    → HasNoRepeat xs
    → HasNoRepeat (xs ++ (run ∷ []))
HasNoRepeat-append run [] n h = (refl, tt)
HasNoRepeat-append run (x ∷ xs) n (m, h) = (
  any-append _ xs (run ∷ []) m ground (arith, text_eq_comm run x),
  HasNoRepeat-append run xs ground arith h,
)

pub toggle_among-IsSelection :
    (run : Text) (xs : List Text) → IsSelection xs → IsSelection (toggle_among run xs)
unfolding toggle_among
toggle_among-IsSelection run xs (l, h) = elim (Bool-cases (any (λ item. text_eq item run) xs)) [
  | inl e ↦ rw (toggle_among, e) (IsSelection-keep _ xs (l, h))
  | inr e ↦ elim (Bool-cases (ltb (length xs) 2)) [
    | inl s ↦
        rw (toggle_among, e, s)
          (ground (arith, length-append xs (run ∷ [])), HasNoRepeat-append run xs e h)
    | inr s ↦ rw (toggle_among, e, s) (l, h)
  ]
]

-- What an action keeps, at each of its updates.
abbrev KeepsSelection : Script → Type 0
KeepsSelection = Keeps (λ w. IsSelection w.selected)

module _ (tables : Tables) (locale : Locale) (t : Translator) where
  all_answered-KeepsSelection :
      (w : RunCenter) (k : Script)
      → KeepsSelection k
      → (out : Outcome (List HistoryProject × (HistoryPage × Unit)))
      → KeepsSelection (all_answered tables locale t w k out)
  unfolding all_answered show_page
  all_answered-KeepsSelection w k h (failed e) = ((λ v s. s), ((λ v s. s), h))
  all_answered-KeepsSelection w k h (replied (projects, (page, _))) =
      ((λ v s. s), ((λ v s. s), ((λ v s. s), h)))

  runs_answered-KeepsSelection :
      (w : RunCenter) (k : Script)
      → KeepsSelection k
      → (out : Outcome (HistoryPage × Unit))
      → KeepsSelection (runs_answered tables locale t w k out)
  unfolding runs_answered show_page
  runs_answered-KeepsSelection w k h (failed e) = ((λ v s. s), ((λ v s. s), h))
  runs_answered-KeepsSelection w k h (replied (page, _)) = ((λ v s. s), ((λ v s. s), h))

  refresh-KeepsSelection :
      (w : RunCenter) (load_projects : Bool) (override : Option Text) (k : Script)
      → KeepsSelection k
      → KeepsSelection (refresh tables locale t w load_projects override k)
  unfolding refresh
  refresh-KeepsSelection w true override k h = ((λ v s. s), all_answered-KeepsSelection w k h)
  refresh-KeepsSelection w false override k h = ((λ v s. s), runs_answered-KeepsSelection w k h)

  inspect_run-KeepsSelection : (run : Text) → KeepsSelection (inspect_run tables locale t run)
  unfolding inspect_run
  inspect_run-KeepsSelection run = (
    (λ v s. s),
    each _ (λ e. ((λ v s. s), ((λ v s. s), tt))) (λ _. ((λ v s. s), ((λ v s. s), tt))),
  )

  compare_runs-KeepsSelection :
      (selected : List Text) → KeepsSelection (compare_runs tables locale t selected)
  unfolding compare_runs compare_pair
  compare_runs-KeepsSelection [] = tt
  compare_runs-KeepsSelection (a ∷ []) = tt
  compare_runs-KeepsSelection (a ∷ b ∷ []) = (
    (λ v s. s),
    each _ (λ e. ((λ v s. s), ((λ v s. s), tt))) (λ _. ((λ v s. s), ((λ v s. s), tt))),
  )
  compare_runs-KeepsSelection (a ∷ b ∷ c ∷ xs) = tt

  with_detail-KeepsSelection :
      (detail : Option HistoryRunDetail) (k : HistoryRunDetail → Script)
      → ((d : HistoryRunDetail) → KeepsSelection (k d))
      → KeepsSelection (with_detail tables locale t detail k)
  with_detail-KeepsSelection none k h = tt
  with_detail-KeepsSelection (some detail) k h = h detail

  toggle_archive-KeepsSelection :
      (w : RunCenter) → KeepsSelection (toggle_archive tables locale t w)
  unfolding toggle_archive toggle_archive_of archive_answered
  toggle_archive-KeepsSelection w = with_detail-KeepsSelection w.detail _ (λ detail. (
    (λ v s. s),
    each _ (λ e. ((λ v s. s), ((λ v s. s), tt)))
        (λ _. ((λ v s. s), refresh-KeepsSelection w true none _ ((λ v s. s), tt))),
  ))

  delete_run-KeepsSelection : (w : RunCenter) → KeepsSelection (delete_run tables locale t w)
  unfolding delete_run delete_run_of delete_answered forget_run
  delete_run-KeepsSelection w = with_detail-KeepsSelection w.detail _ (λ detail. (
    (λ v s. s),
    each _ (λ e. ((λ v s. s), ((λ v s. s), tt)))
        (λ _. (
          (λ v s. IsSelection-keep _ v.selected s),
          refresh-KeepsSelection w true none _ ((λ v s. s), tt),
        )),
  ))

  resume_run-KeepsSelection : (w : RunCenter) → KeepsSelection (resume_run tables locale t w)
  unfolding resume_run resume_run_of
  resume_run-KeepsSelection w =
      with_detail-KeepsSelection w.detail _ (λ detail.
        ((λ v s. s), each _ (λ e. ((λ v s. s), ((λ v s. s), tt))) (λ _. ((λ v s. s), tt))))

  show_evaluation-KeepsSelection :
      (w : RunCenter) → KeepsSelection (show_evaluation tables locale t w)
  unfolding show_evaluation
  show_evaluation-KeepsSelection w = (
    (λ v s. s),
    each _ (λ e. ((λ v s. s), ((λ v s. s), ((λ v s. s), tt))))
        (λ _. ((λ v s. s), ((λ v s. s), tt))),
  )

  open_center-KeepsSelection :
      (w : RunCenter) (run project : Option Text)
      → All KeepsSelection (open_center tables locale t w run project)
  unfolding open_center
  open_center-KeepsSelection w none project =
      (((λ v s. s), refresh-KeepsSelection w true project _ tt), tt)
  open_center-KeepsSelection w (some run) project = elim (Bool-cases (non_empty run)) [
    | inl e ↦ rw e (
      ((λ v s. s), refresh-KeepsSelection w true project _ tt),
      (inspect_run-KeepsSelection run, tt),
    )
    | inr e ↦ rw e (((λ v s. s), refresh-KeepsSelection w true project _ tt), tt)
  ]

  -- Every update of every action in the history, in whatever order the updates of several actions come
  -- and whatever the daemon answers, keeps at most two runs selected, and none of them twice.
  pub scripts_of-KeepsSelection :
      (w : RunCenter) (action : Action) → All KeepsSelection (scripts_of tables locale t w action)
  unfolding scripts_of toggle_selected
  scripts_of-KeepsSelection w (opened run project) = open_center-KeepsSelection w run project
  scripts_of-KeepsSelection w ticked = (refresh-KeepsSelection w false none _ tt, tt)
  scripts_of-KeepsSelection w filtered = (refresh-KeepsSelection w false none _ tt, tt)
  scripts_of-KeepsSelection w reloaded = (refresh-KeepsSelection w true none _ tt, tt)
  scripts_of-KeepsSelection w (inspected run) = (inspect_run-KeepsSelection run, tt)
  scripts_of-KeepsSelection w (toggled run) =
      (((λ v s. toggle_among-IsSelection run v.selected s), tt), tt)
  scripts_of-KeepsSelection w cleared = (((λ v s. (omega arith, tt)), tt), tt)
  scripts_of-KeepsSelection w compared = (compare_runs-KeepsSelection w.selected, tt)
  scripts_of-KeepsSelection w archived = (toggle_archive-KeepsSelection w, tt)
  scripts_of-KeepsSelection w deleted = (delete_run-KeepsSelection w, tt)
  scripts_of-KeepsSelection w resumed = (resume_run-KeepsSelection w, tt)
  scripts_of-KeepsSelection w evaluated = (show_evaluation-KeepsSelection w, tt)
  scripts_of-KeepsSelection w left_comparison = (((λ v s. s), tt), tt)
  scripts_of-KeepsSelection w left_detail = (((λ v s. s), tt), tt)
