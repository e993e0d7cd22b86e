-- ===== src/Run/Helpers.antt =====
-- frontend/src/run/helpers.ts
pub mod Names
pub mod Checkpoints
mod Tests
use mini_agent_oscoder.Prelude.{
  ℕ, List, [], ◌∷◌, none, not, non_empty, split_where, or_text, or_default, last, first, keep, ltb,
  leb, if◌then◌else◌, ◌==◌, Bool, true, false, ◌&&◌, ◌||◌, Option, some, Text, lit, starts_with,
  includes_i,
}
use mini_agent_oscoder.Json.{Value, str, arr, obj, property}

-- `typeof v === "string"`
abbrev pub is_string : Option Value → Bool
is_string (some (str s)) = true
is_string _ = false

-- `typeof v === "object" && v !== null`, which holds of an array too
abbrev pub is_object : Option Value → Bool
is_object (some (obj fields)) = true
is_object (some (arr items)) = true
is_object _ = false

-- An array passes the first test, and lacks the named properties.
unfoldable pub is_approval_request : Option Value → Bool
is_approval_request (some (obj candidate)) =
    is_string (property (lit "approval_id") candidate)
    && is_string (property (lit "run_id") candidate)
    && is_string (property (lit "reason") candidate)
    && is_object (property (lit "target") candidate)
is_approval_request _ = false

unfoldable pub is_evidence_event : Text → Bool
is_evidence_event name =
    starts_with name (lit "context.")
    || starts_with name (lit "model.")
    || starts_with name (lit "tool.")
    || starts_with name (lit "policy.")
    || starts_with name (lit "approval.")
    || starts_with name (lit "skill.")
    || starts_with name (lit "mcp.")
    || starts_with name (lit "hook.")
    || starts_with name (lit "completion.")
    || starts_with name (lit "repair.")

unfoldable pub is_runtime_connection_error : Text → Bool
is_runtime_connection_error message =
    includes_i message (lit "failed to fetch")
    || includes_i message (lit "load failed")
    || includes_i message (lit "networkerror")
    || includes_i message (lit "network request failed")

abbrev pub is_separator : ℕ → Bool
is_separator c = c == b'\\' || c == b'/'

-- `path.replace(/[\\/]+$/, "")`
strip_end : Text → Text
strip_end [] = []
strip_end (c ∷ s) =
    let rest = strip_end s in if is_separator c && not (non_empty rest) then [] else c ∷ rest

-- `path.split(/[\\/]/)`
abbrev pub split_path : Text → List Text
split_path = split_where (λ c _. is_separator c)

unfoldable pub basename : Text → Text
unfolding strip_end
basename path = or_text (or_default (last (split_path (strip_end path))) []) path

-- What the helpers read of `RunArtifacts`; a missing `diff_preview` has no preview.
pub record DiffArtifacts : Type 0 where
  pub files : Option ℕ  -- `diff_summary?.files`
  pub preview_available : Bool

unfoldable pub has_visible_diff : Option DiffArtifacts → Bool
has_visible_diff none = false
has_visible_diff (some a) = elim a.files [ none ↦ false | some n ↦ ltb 0 n || a.preview_available ]

pub record Checkpoint : Type 0 where
  pub checkpoint_id : Text
  pub trace_offset : ℕ
  pub can_rollback : Bool
  pub snapshot_available : Bool

abbrev pub is_restorable : Checkpoint → Bool
is_restorable p = p.can_rollback && p.snapshot_available

-- `sort((left, right) => right.trace_offset - left.trace_offset)`, which is stable.
insert_point : Checkpoint → List Checkpoint → List Checkpoint
insert_point p [] = p ∷ []
insert_point p (q ∷ qs) =
    if leb q.trace_offset p.trace_offset then p ∷ q ∷ qs else q ∷ insert_point p qs

sort_points : List Checkpoint → List Checkpoint
unfolding insert_point
sort_points [] = []
sort_points (p ∷ ps) = insert_point p (sort_points ps)

unfoldable pub latest_restorable_checkpoint : Option (List Checkpoint) → Option Text
unfolding sort_points
latest_restorable_checkpoint none = none
latest_restorable_checkpoint (some points) =
    elim (first (sort_points (keep is_restorable points))) [
      | none ↦ none
      | some p ↦ some p.checkpoint_id
    ]
