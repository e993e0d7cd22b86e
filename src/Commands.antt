-- ===== src/Commands.antt =====
-- frontend/src/taskCommands.ts: a task that begins with a command. A mode of a run is its text.
mod Tests
use mini_agent_oscoder.Prelude.{
  ◌≡◌, refl, inl, inr, Bool, true, false, not, Option, none, some, List, [], ◌∷◌, ◌++◌, Text, lit,
  text_eq, starts_with, to_lower, trim, ◌==◌, if◌then◌else◌, or_default, Bool-cases,
}
use mini_agent_oscoder.I18n.{Table, lookup}

pub record TaskCommand : Type 0 where
  pub task : Text
  pub mode : Text

abbrev task_commands : Table
task_commands =
    (lit "/fix", lit "Bugfix")
    ∷ (lit "/test", lit "Bugfix")
    ∷ (lit "/review", lit "Review")
    ∷ (lit "/explain", lit "Chat")
    ∷ (lit "/spec", lit "Spec")
    ∷ []

-- What stands before the first blank, and what behind it, if there is one.
unfoldable pub split_blank : Text → Text × Option Text
split_blank [] = ([], none)
split_blank (c ∷ s) =
    let rest = split_blank s in if c == 32 then ([], some s) else (c ∷ rest.0, rest.1)

unfoldable pub parse_task_command : Text → Text → TaskCommand
unfolding split_blank
parse_task_command value default_mode =
    let content = trim value in
    if not (starts_with content (lit "/"))
    then record { task = content; mode = default_mode }
    else elim (lookup (to_lower (split_blank content).0) task_commands) [
      | none ↦ record { task = content; mode = default_mode }
      | some mode ↦ record { task = trim (or_default (split_blank content).1 []); mode = mode }
    ]
