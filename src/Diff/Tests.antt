-- ===== src/Diff/Tests.antt =====
-- A patch of two files, read as the review reads it, and the theorems at that patch.
use mini_agent_oscoder.Prelude.{
  ◌≡◌, refl, true, some, List, [], ◌∷◌, Text, lit, text_eq, starts_with, trim, split_lines, keep,
  length,
}
use mini_agent_oscoder.Diff.{
  match_git, match_marker, whole_rest, strip_prefix, line_path, DiffFile, count_lines, split_chunks,
  parse_chunk, parse_unified_diff, bare_file, build_diff_files,
}
use mini_agent_oscoder.Diff.Lines.{is_add, is_delete, count_lines-classify}
use mini_agent_oscoder.Diff.Files.{last_of, build_diff_files-last}
use mini_agent_oscoder.Diff.Focus.{
  patch_chunk_path, focused_patch_hunk, first_patch_path, first_match,
}

abbrev patch : Text
patch =
    lit
      "diff --git a/x.py b/x.py\n--- a/x.py\n+++ b/x.py\n@@ -1 +1 @@\n-old\n+new\ndiff --git a/y b/y\n--- /dev/null\n+++ b/y\n@@ -0,0 +1 @@\n+one"

abbrev first_lines : List Text
first_lines =
    lit "diff --git a/x.py b/x.py"
    ∷ lit "--- a/x.py"
    ∷ lit "+++ b/x.py"
    ∷ lit "@@ -1 +1 @@"
    ∷ lit "-old"
    ∷ lit "+new"
    ∷ []

abbrev second_lines : List Text
second_lines =
    lit "diff --git a/y b/y"
    ∷ lit "--- /dev/null"
    ∷ lit "+++ b/y"
    ∷ lit "@@ -0,0 +1 @@"
    ∷ lit "+one"
    ∷ []

abbrev first_file : DiffFile
first_file = record {
  path = lit "x.py";
  additions = 1;
  deletions = 1;
  lines = first_lines;
  has_patch = true;
}

abbrev second_file : DiffFile
second_file = record {
  path = lit "y";
  additions = 1;
  deletions = 0;
  lines = second_lines;
  has_patch = true;
}

parse-patch : parse_unified_diff patch ≡ first_file ∷ second_file ∷ []
unfolding parse_unified_diff parse_chunk split_chunks split_lines line_path match_git match_marker
    strip_prefix text_eq starts_with trim lit
parse-patch = refl

build-patch :
    build_diff_files patch (lit "y" ∷ lit "z" ∷ [])
    ≡ first_file ∷ second_file ∷ bare_file (lit "z") ∷ []
unfolding build_diff_files parse_unified_diff parse_chunk split_chunks split_lines line_path
    match_git match_marker strip_prefix text_eq starts_with trim lit
build-patch = refl

focus-patch :
    (focused_patch_hunk patch (some (lit "y")) ≡ some (lit "@@ -0,0 +1 @@"))
    × (first_patch_path patch ≡ some (lit "x.py"))
unfolding focused_patch_hunk first_patch_path first_match patch_chunk_path split_chunks split_lines
    match_git whole_rest strip_prefix text_eq starts_with trim lit
focus-patch = (refl, refl)

abbrev plain : Text
plain = lit "no hunk"

count_lines-classify_example :
    ((count_lines 0 0 first_lines).0 ≡ length (keep is_add first_lines))
    × ((count_lines 0 0 first_lines).1 ≡ length (keep is_delete first_lines))
count_lines-classify_example = count_lines-classify first_lines

abbrev twice : Text
twice = lit "diff --git a/x b/x\n+one\ndiff --git a/x b/x\n-two"

abbrev last_file : DiffFile
last_file = record {
  path = lit "x";
  additions = 0;
  deletions = 1;
  lines = lit "diff --git a/x b/x" ∷ lit "-two" ∷ [];
  has_patch = true;
}

build_diff_files-last_example :
    keep (λ g. text_eq g.path (lit "x")) (build_diff_files twice []) ≡ last_file ∷ []
unfolding last_of parse_unified_diff parse_chunk split_chunks split_lines line_path match_git
    match_marker strip_prefix text_eq starts_with trim lit
build_diff_files-last_example = build_diff_files-last twice [] (lit "x") refl
