-- ===== src/Run/Helpers/Tests.antt =====
-- Runs of the helpers, and their theorems at concrete inputs.
use mini_agent_oscoder.Prelude.{
  ℕ, ◌≡◌, refl, true, false, some, List, [], ◌∷◌, Text, lit, split_where,
}
use mini_agent_oscoder.Run.Helpers.{basename, Checkpoint, latest_restorable_checkpoint}

basename_tests : (basename (lit "/home/me/app/") ≡ lit "app") × (basename (lit "app") ≡ lit "app")
unfolding basename split_where lit
basename_tests = (refl, refl)

abbrev point : Text → ℕ → Checkpoint
point id offset = record {
  checkpoint_id = id;
  trace_offset = offset;
  can_rollback = true;
  snapshot_available = true;
}

abbrev points : List Checkpoint
points =
    point (lit "a") 4
    ∷ point (lit "b") 9
    ∷ record (point (lit "c") 12) { can_rollback = false }
    ∷ []

latest-points : latest_restorable_checkpoint (some points) ≡ some (lit "b")
unfolding latest_restorable_checkpoint
latest-points = refl

abbrev unsaved : List Checkpoint
unsaved = record (point (lit "c") 12) { can_rollback = false } ∷ []
