-- ===== src/Diff/Files.antt =====
-- The files of a review: distinct paths, every named file once, and what a repeated path loses.
use mini_agent_oscoder.Prelude.{
  ◌≡◌, refl, ◌∙◌, ap, inl, inr, true, false, not, ◌&&◌, ◌||◌, Option, none, some, List, [], ◌∷◌,
  Text, text_eq, text_eq_refl, eq_of_text_eq, text_eq_comm, non_empty, arith, Bool-cases, any, find,
  keep, ◌or_else◌, if◌then◌else◌,
}
use mini_agent_oscoder.Diff.{
  DiffFile, has_path, set_file, map_by_path, bare_file, add_changed, parse_unified_diff,
  build_diff_files,
}

-- No two files have the same path.
abbrev pub HasDistinctPaths : List DiffFile → Type 0
HasDistinctPaths [] = Unit
HasDistinctPaths (f ∷ files) = (has_path f.path files ≡ false) × HasDistinctPaths files

has_path-set_file :
    (path : Text) (files : List DiffFile) (file : DiffFile)
    → has_path path (set_file files file) ≡ (has_path path files || text_eq file.path path)
unfolding has_path set_file
has_path-set_file path [] file = ground arith
has_path-set_file path (f ∷ files) file =
    ground
      (arith, has_path-set_file path files file, eq_of_text_eq f.path file.path, text_eq_refl path)

set_file-distinct :
    (files : List DiffFile) (file : DiffFile)
    → HasDistinctPaths files
    → HasDistinctPaths (set_file files file)
unfolding set_file
set_file-distinct [] file h = (unfold has_path in refl, tt)
set_file-distinct (f ∷ files) file h = elim (Bool-cases (text_eq f.path file.path)) [
  | inl e ↦ rw e ((cc (eq_of_text_eq f.path file.path e)), h.1)
  | inr e ↦ rw e (
    ground (arith, has_path-set_file f.path files file, text_eq_comm file.path f.path),
    set_file-distinct files file h.1,
  )
]

map_by_path-distinct :
    (files rest : List DiffFile)
    → HasDistinctPaths files
    → HasDistinctPaths (map_by_path files rest)
unfolding map_by_path
map_by_path-distinct files [] h = h
map_by_path-distinct files (f ∷ rest) h =
    map_by_path-distinct (set_file files f) rest (set_file-distinct files f h)

add_changed-distinct :
    (files : List DiffFile) (paths : List Text)
    → HasDistinctPaths files
    → HasDistinctPaths (add_changed files paths)
unfolding add_changed
add_changed-distinct files [] h = h
add_changed-distinct files (path ∷ paths) h =
    elim (Bool-cases (not (non_empty path) || has_path path files)) [
      | inl e ↦ rw e (add_changed-distinct files paths h)
      | inr e ↦ rw e (
          add_changed-distinct (set_file files (bare_file path)) paths
            (set_file-distinct files (bare_file path) h))
    ]

-- Every path is listed once, whatever the patch and the list of changed files repeat.
pub build_diff_files-distinct :
    (patch : Text) (changed : List Text) → HasDistinctPaths (build_diff_files patch changed)
unfolding build_diff_files
build_diff_files-distinct patch changed =
    add_changed-distinct (map_by_path [] (parse_unified_diff patch)) changed
      (map_by_path-distinct [] (parse_unified_diff patch) tt)

has_path-map_by_path :
    (path : Text) (files rest : List DiffFile)
    → has_path path (map_by_path files rest) ≡ (has_path path files || has_path path rest)
unfolding map_by_path
has_path-map_by_path path files [] = unfold has_path in ground arith
has_path-map_by_path path files (f ∷ rest) =
    has_path-map_by_path path (set_file files f) rest
    ∙ rw (has_path-set_file path files f) (unfold has_path in ground arith)

has_path-of_text_eq :
    (p path : Text) (files : List DiffFile)
    → text_eq p path ≡ true
    → has_path p files ≡ has_path path files
has_path-of_text_eq p path files h = ap (λ q. has_path q files) (eq_of_text_eq p path h)

has_path-add_changed :
    (path : Text) (files : List DiffFile) (paths : List Text)
    → has_path path (add_changed files paths)
      ≡ (has_path path files || any (λ p. non_empty p && text_eq p path) paths)
unfolding add_changed
has_path-add_changed path files [] = ground arith
has_path-add_changed path files (p ∷ paths) =
    elim (Bool-cases (not (non_empty p) || has_path p files)) [
      | inl e ↦ rw e (
          has_path-add_changed path files paths
          ∙ ground (arith, e, eq_of_text_eq p path, has_path-of_text_eq p path files))
      | inr e ↦ rw e (
          has_path-add_changed path (set_file files (bare_file p)) paths
          ∙ ground (arith, e, has_path-set_file path files (bare_file p)))
    ]

-- A path is listed exactly when the patch has a file of that path, or it is one of the changed files
-- and not empty.
pub build_diff_files-has_path :
    (patch : Text) (changed : List Text) (path : Text)
    → has_path path (build_diff_files patch changed) ≡ (
        has_path path (parse_unified_diff patch)
        || any (λ p. non_empty p && text_eq p path) changed)
unfolding build_diff_files
build_diff_files-has_path patch changed path =
    has_path-add_changed path (map_by_path [] (parse_unified_diff patch)) changed
    ∙ rw (has_path-map_by_path path [] (parse_unified_diff patch)) (unfold has_path in refl)

-- The file of a path.
pub file_of : Text → List DiffFile → Option DiffFile
file_of path files = find (λ f. text_eq f.path path) files

-- The last file of a path.
unfoldable pub last_of : Text → List DiffFile → Option DiffFile
last_of path [] = none
last_of path (f ∷ files) =
    let later = last_of path files in later or_else (if text_eq f.path path then some f else none)

file_of-set_file :
    (path : Text) (files : List DiffFile) (file : DiffFile)
    → file_of path (set_file files file)
      ≡ (if text_eq file.path path then some file else file_of path files)
unfolding file_of set_file
file_of-set_file path [] file = refl
file_of-set_file path (f ∷ files) file = ground (
  arith,
  file_of-set_file path files file,
  eq_of_text_eq f.path file.path,
  eq_of_text_eq f.path path,
  eq_of_text_eq file.path path,
  text_eq_refl path,
)

file_of-map_by_path :
    (path : Text) (files rest : List DiffFile)
    → file_of path (map_by_path files rest) ≡ (last_of path rest or_else file_of path files)
unfolding map_by_path last_of
file_of-map_by_path path files [] = refl
file_of-map_by_path path files (f ∷ rest) =
    file_of-map_by_path path (set_file files f) rest
    ∙ rw (file_of-set_file path files f) (ground arith)

has_path_of_file :
    (path : Text) (files : List DiffFile) {f : DiffFile}
    → file_of path files ≡ some f
    → has_path path files ≡ true
unfolding file_of has_path
has_path_of_file path [] h = cc
has_path_of_file path (g ∷ files) {f} h = ground (arith, has_path_of_file path files {f = f})

file_of-add_changed :
    (path : Text) (files : List DiffFile) (paths : List Text) {f : DiffFile}
    → file_of path files ≡ some f
    → file_of path (add_changed files paths) ≡ some f
unfolding add_changed
file_of-add_changed path files [] h = h
file_of-add_changed path files (p ∷ paths) {f} h =
    elim (Bool-cases (not (non_empty p) || has_path p files)) [
      | inl e ↦ rw e (file_of-add_changed path files paths h)
      | inr e ↦ rw e (
          file_of-add_changed path (set_file files (bare_file p)) paths (
            file_of-set_file path files (bare_file p)
            ∙ ground
                (arith, h, e, has_path_of_file path files h, has_path-of_text_eq p path files)))
    ]

keep-absent :
    (path : Text) (files : List DiffFile)
    → has_path path files ≡ false
    → keep (λ g. text_eq g.path path) files ≡ []
unfolding has_path
keep-absent path [] h = refl
keep-absent path (f ∷ files) h = ground (arith, h, keep-absent path files)

keep-file_of :
    (path : Text) (files : List DiffFile) {f : DiffFile}
    → HasDistinctPaths files
    → file_of path files ≡ some f
    → keep (λ g. text_eq g.path path) files ≡ f ∷ []
unfolding file_of
keep-file_of path [] h e = cc
keep-file_of path (g ∷ files) {f} (first, rest) e = elim (Bool-cases (text_eq g.path path)) [
  | inl b ↦
      let absent : has_path path files ≡ false = rw (← eq_of_text_eq g.path path b) first in
      let q : g ≡ f = cc (rw b at e) in rw (b, keep-absent path files absent, q) refl
  | inr b ↦ rw b (keep-file_of path files rest (rw b at e))
]

-- Where a patch has several chunks for one path, the review has exactly one file of that path, that of
-- the last chunk: the lines and counts of the chunks before it are in no file of the path.
pub build_diff_files-last :
    (patch : Text) (changed : List Text) (path : Text) {f : DiffFile}
    → last_of path (parse_unified_diff patch) ≡ some f
    → keep (λ g. text_eq g.path path) (build_diff_files patch changed) ≡ f ∷ []
build_diff_files-last patch changed path h =
    keep-file_of path (build_diff_files patch changed) (build_diff_files-distinct patch changed) (
      unfold build_diff_files in
      file_of-add_changed path (map_by_path [] (parse_unified_diff patch)) changed
        (file_of-map_by_path path [] (parse_unified_diff patch) ∙ rw h))
