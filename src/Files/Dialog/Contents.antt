-- ===== src/Files/Dialog/Contents.antt =====
-- The content that frontend/src/components/WorkspaceFilesDialog.tsx shows of the selected file.
use mini_agent_oscoder.Prelude.{◌≡◌, refl, ℕ, false, Option, none, some, ◌==◌}
use mini_agent_oscoder.I18n.{Locale, Tables}
use mini_agent_oscoder.WorkItems.Describe.{Translator}
use mini_agent_oscoder.Scripts.{Outcome, failed, replied, run_script}
use mini_agent_oscoder.Files.{WorkspaceChangeSet}
use mini_agent_oscoder.Files.Dialog.{
  WorkspaceFileContent, FilesDialog, FileCall, FileReply, if_last, content_answered,
}

-- What is shown of an answer.
abbrev pub content_of : Outcome (WorkspaceFileContent × Unit) → Option WorkspaceFileContent
content_of (failed e) = none
content_of (replied (content, _)) = some content

if_last-other :
    (run : ℕ) (f : FilesDialog → FilesDialog) (v : FilesDialog)
    → (v.content_runs == run) ≡ false
    → if_last run f v ≡ v
if_last-other run f v h = rw h refl

module _ (daemon : (c : FileCall) → Outcome (FileReply c)) (tables : Tables) (locale : Locale)
    (t : Translator) (set : Option WorkspaceChangeSet) where
  -- The state when the answer to a run of the effect has come.
  abbrev pub answered : ℕ → Outcome (WorkspaceFileContent × Unit) → FilesDialog → FilesDialog
  answered run out v = run_script daemon (content_answered tables locale t set run out) v
