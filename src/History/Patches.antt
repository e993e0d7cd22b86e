-- ===== src/History/Patches.antt =====
-- frontend/src/components/RunCenter.tsx: the changed files of a run, and the summary of its patch.
use mini_agent_oscoder.Prelude.{
  ◌≡◌, refl, sym, ap, ◌∙◌, arith, inl, inr, ℕ, ◌+◌, ◌-◌, ◌≤◌, zero, suc, Bool, true, false, not,
  ◌&&◌, Bool-cases, Option, none, some, List, [], ◌∷◌, map, Text, text_eq_refl, one_of, non_empty,
  any, keep, last, take, length, ltb, ◌==◌, or_default, if◌then◌else◌,
}
use mini_agent_oscoder.Diff.{
  DiffFile, bare_file, has_path, add_changed, map_by_path, parse_unified_diff, build_diff_files,
}
use mini_agent_oscoder.Run.Helpers.{split_path}
use mini_agent_oscoder.History.{HistoryRun, HistoryRunDetail}

-- `basename`: the last piece of a path that is not empty.
unfoldable pub last_segment : Text → Text
last_segment path = or_default (last (keep non_empty (split_path path))) path

-- The runs that `RunDetail` offers to continue, and to resume.
unfoldable pub continue_eligible : HistoryRun → Bool
continue_eligible run =
    one_of ("completed" ∷ "failed" ∷ "cancelled" ∷ "interrupted" ∷ []) run.status

unfoldable pub resume_eligible : HistoryRun → Bool
resume_eligible run = one_of ("interrupted" ∷ "failed" ∷ "cancelled" ∷ []) run.status

abbrev is_nil {ℓ} : {A : Type ℓ} → List A → Bool
is_nil [] = true
is_nil (x ∷ xs) = false

unfoldable pub changed_files_for_detail : HistoryRunDetail → List Text
changed_files_for_detail detail =
    if is_nil detail.run.changed_files
    then map (λ f. f.path) (build_diff_files detail.patch.content [])
    else detail.run.changed_files

-- `files.reduce((total, file) => total + count(file), 0)`
unfoldable pub total_of : (DiffFile → ℕ) → ℕ → List DiffFile → ℕ
total_of count total [] = total
total_of count total (f ∷ files) = total_of count (total + count f) files

pub record PatchSummary : Type 0 where
  pub insertions : ℕ
  pub deletions : ℕ
  pub count : ℕ  -- the files of the title
  pub rows : List DiffFile
  pub more : ℕ  -- the files that the last line counts; it is not shown for none

abbrev or_length : List Text → List DiffFile → ℕ
or_length files parsed = if length files == 0 then length parsed else length files

abbrev summarize : List Text → List DiffFile → PatchSummary
summarize files parsed = record {
  insertions = total_of (λ f. f.additions) 0 parsed;
  deletions = total_of (λ f. f.deletions) 0 parsed;
  count = or_length files parsed;
  rows = take 8 (if is_nil parsed then map bare_file files else parsed);
  more = if ltb 8 (or_length files parsed) then or_length files parsed - 8 else 0;
}

abbrev preview_of : List Text → List DiffFile → Option PatchSummary
preview_of files parsed =
    if is_nil files && is_nil parsed then none else some (summarize files parsed)

-- `HistoryPatchPreview`, which shows a note in place of a summary when there are no files.
unfoldable pub history_patch_preview : HistoryRunDetail → Option PatchSummary
unfolding changed_files_for_detail total_of
history_patch_preview detail =
    let files = changed_files_for_detail detail in
    preview_of files (build_diff_files detail.patch.content files)

-- Files that are listed are not added again.
add_changed-listed :
    (files : List DiffFile) (paths : List Text)
    → any (λ p. not (has_path p files)) paths ≡ false
    → add_changed files paths ≡ files
unfolding add_changed
add_changed-listed files [] h = refl
add_changed-listed files (p ∷ paths) h = elim (Bool-cases (has_path p files)) [
  | inl e ↦ elim (Bool-cases (non_empty p)) [
    | inl n ↦ rw (n, e) (add_changed-listed files paths ground arith)
    | inr n ↦ rw n (add_changed-listed files paths ground arith)
  ]
  | inr e ↦ ground arith
]

has_path-weaken :
    (p : Text) (f : DiffFile) (files : List DiffFile)
    → has_path p files ≡ true
    → has_path p (f ∷ files) ≡ true
unfolding has_path
has_path-weaken p f files h = ground arith

paths-listed :
    (all files : List DiffFile)
    → ((p : Text) → has_path p files ≡ true → has_path p all ≡ true)
    → any (λ p. not (has_path p all)) (map (λ f. f.path) files) ≡ false
unfolding has_path
paths-listed all [] sub = refl
paths-listed all (f ∷ files) sub = ground (
  arith,
  sub f.path (ground (arith, text_eq_refl f.path)),
  paths-listed all files (λ p h. sub p (has_path-weaken p f files h)),
)

-- Named again by their own paths, the files of a patch are the same list.
build_diff_files_idem :
    (patch : Text)
    → build_diff_files patch (map (λ f. f.path) (build_diff_files patch []))
      ≡ build_diff_files patch []
unfolding build_diff_files add_changed
build_diff_files_idem patch =
    let files = map_by_path [] (parse_unified_diff patch) in
    add_changed-listed files (map (λ f. f.path) files) (paths-listed files files (λ p h. h))

length-map {ℓ κ} :
    {A : Type ℓ} {B : Type κ} (f : A → B) (xs : List A) → length (map f xs) ≡ length xs
length-map f [] = refl
length-map f (x ∷ xs) = omega (arith, length-map f xs)

length-take {ℓ} :
    {A : Type ℓ} (xs : List A) (n : ℕ)
    → (length (take n xs) ≤ n) × (length xs - n + length (take n xs) ≡ length xs)
length-take xs zero = ground arith
length-take [] (suc n) = ground arith
length-take (x ∷ xs) (suc n) = ground (arith, length-take xs n)

-- The summary of a list of files that stands for itself.
abbrev pub IsWhole : List DiffFile → PatchSummary → Type 0
IsWhole parsed s =
    (s.count ≡ length parsed)
    × (length s.rows + s.more ≡ s.count)
    × (length s.rows ≤ 8)
    × (s.insertions ≡ total_of (λ f. f.additions) 0 parsed)
    × (s.deletions ≡ total_of (λ f. f.deletions) 0 parsed)

summarize-IsWhole :
    (parsed : List DiffFile) → IsWhole parsed (summarize (map (λ f. f.path) parsed) parsed)
summarize-IsWhole [] = (refl, refl, omega arith, refl, refl)
summarize-IsWhole (f ∷ files) = (
  ground (arith, length-map (λ f. f.path) files),
  ground (arith, length-map (λ f. f.path) files, length-take (f ∷ files) 8),
  (length-take (f ∷ files) 8).0,
  refl,
  refl,
)

history_patch_preview-bare :
    (detail : HistoryRunDetail)
    → detail.run.changed_files ≡ []
    → history_patch_preview detail ≡ (
        let files = build_diff_files detail.patch.content [] in
        preview_of (map (λ f. f.path) files) files)
unfolding history_patch_preview changed_files_for_detail
history_patch_preview-bare detail h =
    let files = build_diff_files detail.patch.content [] in
    simp h (ap (preview_of (map (λ f. f.path) files)) (build_diff_files_idem detail.patch.content))

preview_of-IsWhole :
    (parsed : List DiffFile) (s : PatchSummary)
    → preview_of (map (λ f. f.path) parsed) parsed ≡ some s
    → IsWhole parsed s
preview_of-IsWhole [] s e = cc
preview_of-IsWhole (f ∷ files) s e =
    let q : summarize (map (λ g. g.path) (f ∷ files)) (f ∷ files) ≡ s = cc in
    rw (← q) (summarize-IsWhole (f ∷ files))

-- Where the run names no changed file of its own, the summary counts each file of its patch: those
-- that it lists, at most eight, and those that its last line only counts are all of them.
pub history_patch_preview-IsWhole :
    (detail : HistoryRunDetail) (s : PatchSummary)
    → detail.run.changed_files ≡ []
    → history_patch_preview detail ≡ some s
    → IsWhole (build_diff_files detail.patch.content []) s
unfolding history_patch_preview changed_files_for_detail
history_patch_preview-IsWhole detail s h e =
    preview_of-IsWhole (build_diff_files detail.patch.content []) s
      (sym (history_patch_preview-bare detail h) ∙ e)
