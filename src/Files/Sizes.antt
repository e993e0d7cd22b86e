-- ===== src/Files/Sizes.antt =====
-- frontend/src/components/WorkspaceFilesDialog.tsx: the sizes, the reasons, and the bar of the review.
use mini_agent_oscoder.Prelude.{
  ◌≡◌, refl, arith, inl, inr, ◌↔◌, ◌⊎◌, ℕ, ◌+◌, ◌*◌, ◌/◌, ◌%◌, ◌≤◌, ◌<◌, Bool, true, false, not,
  ◌&&◌, ◌||◌, Bool-cases, Option, none, some, [], ◌++◌, Text, text_eq, lit, ltb, or_default,
  if◌then◌else◌,
}
use mini_agent_oscoder.Decimal.{print}
use mini_agent_oscoder.WorkItems.Describe.{Translator}
use mini_agent_oscoder.Files.{WorkspaceChangeSet, ChangeKind, has_changes}

-- `a / b` in tenths, rounded to the nearest, up from the middle: `(value / 1024).toFixed(1)`, where the
-- double is the quotient itself.
abbrev tenths_of : ℕ → ℕ → ℕ
tenths_of a b = (20 * a + b) / (2 * b)

abbrev pub print_tenths : ℕ → Text
print_tenths n = print (n / 10) ++ (lit "." ++ print (n % 10))

unfoldable pub format_bytes : ℕ → Text
format_bytes value =
    if ltb value 1024
    then print value ++ lit " B"
    else if ltb value 10240
    then print_tenths (tenths_of value 1024) ++ lit " KB"
    else if ltb value 1048576
    then print ((2 * value + 1024) / 2048) ++ lit " KB"
    else print_tenths (tenths_of value 1048576) ++ lit " MB"

abbrev pub IsWithin : ℕ → ℕ → ℕ → Type 0
IsWithin d a b = (a ≤ b + d) × (b ≤ a + d)

-- What is shown of a size: below a kilobyte its bytes, then its kilobytes, in tenths below ten of them,
-- then its megabytes in tenths, each the nearest to the size. A size below a megabyte may be shown as
-- 1024 KB: it is when less than half a kilobyte is missing.
pub format_bytes-IsNear :
    (value : ℕ)
    → (value < 1024) × (format_bytes value ≡ print value ++ lit " B")
      ⊎ ((n : ℕ) × (IsWithin 512 (1024 * n) (10 * value))
          × (n ≤ 100)
          × (format_bytes value ≡ print_tenths n ++ lit " KB"))
      ⊎ ((n : ℕ) × (IsWithin 512 (1024 * n) value)
          × (n ≤ 1024)
          × ((n ≡ 1024) ↔ (1048064 ≤ value))
          × (format_bytes value ≡ print n ++ lit " KB"))
      ⊎ (n : ℕ) × (IsWithin 524288 (1048576 * n) (10 * value))
        × (10 ≤ n)
        × (format_bytes value ≡ print_tenths n ++ lit " MB")
unfolding format_bytes
format_bytes-IsNear value = elim (Bool-cases (ltb value 1024)) [
  | inl e ↦ inl (ground arith, rw (format_bytes, e) refl)
  | inr e ↦ elim (Bool-cases (ltb value 10240)) [
    | inl f ↦ inr (
        inl (
          tenths_of value 1024,
          (omega arith, omega arith),
          ground arith,
          rw (format_bytes, e, f) refl,
        ))
    | inr f ↦ elim (Bool-cases (ltb value 1048576)) [
      | inl g ↦ inr (
          inr (
            inl (
              (2 * value + 1024) / 2048,
              (omega arith, omega arith),
              ground arith,
              ((λ h. omega arith), (λ h. ground arith)),
              rw (format_bytes, e, f, g) refl,
            )))
      | inr g ↦ inr (
          inr (
            inr (
              tenths_of value 1048576,
              (omega arith, omega arith),
              ground arith,
              rw (format_bytes, e, f, g) refl,
            )))
    ]
  ]
]

-- `localizedUnavailableReason`
unfoldable pub unavailable_reason : Option Text → Translator → Text
unavailable_reason none t = t "workspaceFiles.noContent" []
unavailable_reason (some reason) t =
    if text_eq reason (lit "File is too large to preview")
    then t "workspaceFiles.tooLarge" []
    else if text_eq reason (lit "Binary files cannot be previewed")
    then t "workspaceFiles.binary" []
    else t "workspaceFiles.noContent" []

pub data ReviewStatus : Type 0 where
  pending accepted reverted : ReviewStatus

unfoldable pub normalize_review_status : Option Text → ReviewStatus
normalize_review_status none = pending
normalize_review_status (some status) =
    if text_eq status (lit "accepted")
    then accepted
    else if text_eq status (lit "reverted")
    then reverted
    else pending

-- A callback is there or not; `can_accept` and `can_reject` may be missing, and then allow.
pub record ReviewActions : Type 0 where
  pub status : Option Text
  pub busy : Bool
  pub can_accept : Option Bool
  pub can_reject : Option Bool
  pub on_accept : Bool
  pub on_reject : Bool

-- The buttons of the bar: shown or not, and enabled or not.
pub data Button : Type 0 where
  hidden disabled enabled : Button

abbrev pub is_pending : ReviewStatus → Bool
is_pending status = elim status [ pending ↦ true | accepted ↦ false | reverted ↦ false ]

abbrev pub button : Bool → Bool → Option Bool → ReviewActions → Button
button shown present allowed actions =
    if not shown || not present
    then hidden
    else if actions.busy
        || not (is_pending (normalize_review_status actions.status))
        || not (or_default allowed true)
    then disabled
    else enabled

-- `canReview`
unfoldable pub can_review : Option WorkspaceChangeSet → ReviewActions → Bool
can_review set actions = has_changes set && (actions.on_accept || actions.on_reject)

unfoldable pub accept_button : Option WorkspaceChangeSet → ReviewActions → Button
unfolding can_review normalize_review_status
accept_button set actions =
    button (can_review set actions) actions.on_accept actions.can_accept actions

unfoldable pub reject_button : Option WorkspaceChangeSet → ReviewActions → Button
unfolding can_review normalize_review_status
reject_button set actions =
    button (can_review set actions) actions.on_reject actions.can_reject actions

abbrev is_applying : Option WorkspaceChangeSet → Bool
is_applying none = false
is_applying (some set) = elim set.kind [
  | none ↦ false
  | some k ↦ elim k [ ChangeKind.pending ↦ true | ChangeKind.applied ↦ false ]
]

module _ (t : Translator) (set : Option WorkspaceChangeSet) where
  unfoldable pub accept_label : Text
  accept_label =
      t (if is_applying set then "workspaceFiles.applyPatch" else "workspaceFiles.keepChanges") []

  unfoldable pub reject_label : Text
  reject_label =
      t (if is_applying set then "workspaceFiles.rejectPatch" else "workspaceFiles.revertChanges")
        []

  unfoldable pub review_title : ReviewStatus → Text
  review_title accepted = t "workspaceFiles.reviewAccepted" []
  review_title reverted = t "workspaceFiles.reviewReverted" []
  review_title pending =
      t
        (if is_applying set
          then "workspaceFiles.reviewPatchReady"
          else "workspaceFiles.reviewReady")
        []
