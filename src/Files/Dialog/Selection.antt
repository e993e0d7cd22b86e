-- ===== src/Files/Dialog/Selection.antt =====
-- The file that frontend/src/components/WorkspaceFilesDialog.tsx selects when a list comes.
use mini_agent_oscoder.Prelude.{◌≡◌, ◌⊎◌, true, ◌||◌, List, [], Text}
use mini_agent_oscoder.Diff.{DiffFile, has_path}
use mini_agent_oscoder.Keyed.{has}
use mini_agent_oscoder.Files.{WorkspaceFileItem, path_of}

-- A path that the list can show, or none.
abbrev pub IsOffered : List WorkspaceFileItem → List DiffFile → Text → Type 0
IsOffered files changed path =
    (path ≡ []) ⊎ ((has path_of path files || has_path path changed) ≡ true)
