-- ===== src/Commands/Tests.antt =====
-- Tasks with a command, an unknown command and none.
use mini_agent_oscoder.Prelude.{
  ◌≡◌, refl, [], lit, text_eq, starts_with, to_lower, lower_unit, trim, trim_start, trim_end,
  is_space,
}
use mini_agent_oscoder.I18n.{lookup}
use mini_agent_oscoder.Commands.{split_blank, parse_task_command}

task-review :
    parse_task_command (lit " /Review  the diff ") (lit "Feature")
    ≡ record { task = lit "the diff"; mode = lit "Review" }
unfolding parse_task_command split_blank lookup starts_with text_eq to_lower lower_unit trim
    trim_start trim_end is_space lit
task-review = refl

-- A command without a task leaves the task empty, which the workbench refuses.
task-bare : (parse_task_command (lit "/spec") (lit "Feature")).task ≡ []
unfolding parse_task_command split_blank lookup starts_with text_eq to_lower lower_unit trim
    trim_start trim_end is_space lit
task-bare = refl

task-unknown :
    parse_task_command (lit "/usr/bin x") (lit "Chat")
    ≡ record { task = lit "/usr/bin x"; mode = lit "Chat" }
unfolding parse_task_command split_blank lookup starts_with text_eq to_lower lower_unit trim
    trim_start trim_end is_space lit
task-unknown = refl
