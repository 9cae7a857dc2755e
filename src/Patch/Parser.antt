-- ===== src/Patch/Parser.antt =====
-- `_parse_unified_diff` of src/packages/shared/patch_validator.py, one line at a time. The mode is the
-- place in its two loops: after a line `---` it looks at the next line, and in a hunk it takes lines
-- until the next `---` or `@@`, which the outer loop then reads.
use akesis.Common.{
  ℕ, suc, String, Bool, true, ◌||◌, Option, none, some, List, [], ◌∷◌, ◌++◌, nat_eq, string_eq,
  if◌then◌else◌, is_empty, concat, join, is_blank, decimal, split_lines, strip, drop, starts_with,
}
use akesis.Domain.{FilePatch, PatchHunk}
use akesis.Config.{Python}
use akesis.Paths.{normalize_repo_relative_path}
use akesis.Patch.Header.{HunkRange, match_hunk_header}

pub data Mode : Type 0 where
  outside after_old : Mode
  -- the hunk that is read: its header, its ranges and its lines so far
  in_hunk : String → HunkRange → List String → Mode

pub record Parser : Type 0 where
  pub mode : Mode
  pub file_patches : List FilePatch
  pub errors : List String
  pub old_path : Option String
  pub new_path : Option String
  pub target_file : Option String
  pub hunks : List PatchHunk
  pub diff_lines : List String

abbrev pub initial : Parser
initial = record {
  mode = Mode.outside;
  file_patches = [];
  errors = [];
  old_path = none;
  new_path = none;
  target_file = none;
  hunks = [];
  diff_lines = [];
}

abbrev pub add_error : String → Parser → Parser
add_error message p = record p { errors = p.errors ++ message ∷ [] }

abbrev pub hunk_of : String → HunkRange → List String → PatchHunk
hunk_of header r lines = record {
  old_start = r.old_start;
  old_lines = r.old_lines;
  new_start = r.new_start;
  new_lines = r.new_lines;
  header = header;
  lines = lines;
}

abbrev pub close_hunk : String → HunkRange → List String → Parser → Parser
close_hunk header r lines p = record p {
  mode = Mode.outside;
  hunks = p.hunks ++ hunk_of header r lines ∷ [];
}

-- the file patch of the block that ends, if it has a target and hunks
abbrev pub finished : Parser → List FilePatch
finished p = elim p.target_file [
  | none ↦ []
  | some target ↦
      if is_blank target || is_empty p.hunks
      then []
      else record {
        path = target;
        old_path = p.old_path;
        new_path = p.new_path;
        hunks = p.hunks;
        raw_diff = join "\n" p.diff_lines;
      }
        ∷ []
]

abbrev pub flush : Parser → Parser
flush p =
    if is_empty (finished p)
    then p
    else record p { file_patches = p.file_patches ++ finished p; hunks = []; diff_lines = [] }

-- `not current_target_file`
abbrev pub has_no_target : Parser → Bool
has_no_target p = elim p.target_file [ none ↦ true | some target ↦ is_blank target ]

abbrev pub is_hunk_line : String → Bool
is_hunk_line l =
    starts_with l "+" || (starts_with l "-" || (starts_with l " " || starts_with l "\\"))

-- the file that a pair of lines `---` and `+++` names
abbrev pub raw_target : Option String → String → String
raw_target old new =
    if starts_with new "b/"
    then drop 2 new
    else elim old [ none ↦ new | some o ↦ if starts_with o "a/" then drop 2 o else new ]

module _ (python : Python) where
  -- the body of the outer loop; `i` counts the lines from 0
  unfoldable pub read_line : ℕ → String → Parser → Parser
  read_line i line p =
      if starts_with line "--- "
      then record (flush p) {
        mode = Mode.after_old;
        old_path = some (strip (drop 4 line));
        diff_lines = line ∷ [];
      }
      else if starts_with line "@@"
      then if has_no_target p
        then add_error
            (concat ("Hunk header found before file header at line " ∷ decimal (suc i) ∷ "." ∷ []))
            p
        else elim (match_hunk_header line) [
          | none ↦
              add_error
                (concat
                  ("Malformed hunk header syntax at line " ∷ decimal (suc i) ∷ ": " ∷ line ∷ []))
                p
          | some r ↦ record p {
            mode = Mode.in_hunk line r [];
            diff_lines = p.diff_lines ++ line ∷ [];
          }
        ]
      else if has_no_target p
      then p
      else record p { diff_lines = p.diff_lines ++ line ∷ [] }

  -- a line `---` that no line `+++` follows
  abbrev pub malformed : ℕ → Parser → Parser
  malformed i p =
      add_error (concat ("Malformed diff: '---' without '+++' at line " ∷ decimal i ∷ "." ∷ []))
        (record p { mode = Mode.outside })

  abbrev pub take_new : String → Parser → Parser
  take_new line p = record p {
    mode = Mode.outside;
    new_path = some (strip (drop 4 line));
    diff_lines = p.diff_lines ++ line ∷ [];
    target_file =
        some (normalize_repo_relative_path (raw_target p.old_path (strip (drop 4 line))) "");
  }

  -- the body of the inner loop
  abbrev pub hunk_line : ℕ → String → String → HunkRange → List String → Parser → Parser
  hunk_line i line header r lines p =
      if is_hunk_line line
      then record p {
        mode = Mode.in_hunk header r (lines ++ line ∷ []);
        diff_lines = p.diff_lines ++ line ∷ [];
      }
      else if is_blank line
      then record p {
        mode = Mode.in_hunk header r (lines ++ " " ∷ []);
        diff_lines = p.diff_lines ++ " " ∷ [];
      }
      else add_error
          (concat (
            "Invalid line prefix in hunk at line "
            ∷ decimal (suc i)
            ∷ ": "
            ∷ python.repr line
            ∷ []))
          p

  unfoldable pub step : ℕ → String → Parser → Parser
  unfolding read_line
  step i line p = elim p.mode [
    | Mode.outside ↦ read_line i line p
    | Mode.after_old ↦
        if starts_with line "+++ " then take_new line p else read_line i line (malformed i p)
    | Mode.in_hunk header r lines ↦
        if starts_with line "--- " || starts_with line "@@"
        then read_line i line (close_hunk header r lines p)
        else hunk_line i line header r lines p
  ]

  -- what the end of the text, after `i` lines, does to the open block
  unfoldable pub finish : ℕ → Parser → List FilePatch × List String
  finish i p = elim p.mode [
    | Mode.outside ↦ (p.file_patches ++ finished p, p.errors)
    | Mode.after_old ↦ (p.file_patches ++ finished (malformed i p), (malformed i p).errors)
    | Mode.in_hunk header r lines ↦
        (p.file_patches ++ finished (close_hunk header r lines p), p.errors)
  ]

  unfoldable pub parse_from : ℕ → List String → Parser → List FilePatch × List String
  unfolding step finish
  parse_from i [] p = finish i p
  parse_from i (line ∷ lines) p = parse_from (suc i) lines (step i line p)

  unfoldable pub parse_unified_diff : String → List FilePatch × List String
  unfolding parse_from
  parse_unified_diff raw_diff = parse_from 0 (split_lines raw_diff) initial
