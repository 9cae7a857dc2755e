-- ===== src/Logs.antt =====
-- `filter_and_extract_signal` of src/packages/shared/log_parser.py. What the searches for its patterns
-- find in a log is a parameter: the place and the groups of the first match, or of each match of
-- FRAME_PATTERN. A text is a group that matched, also where it is empty. Only a to z have an upper case.
pub mod Clean
pub mod Excerpt
use akesis.Common.{
  ℕ, zero, suc, ◌+◌, ◌-◌, ◌*◌, ◌/◌, ◌%◌, ◌≤◌, ◌<◌, min, max, String, ◌≡◌, refl, sym, ap, ◌∙◌, ◌≢◌,
  ◌↔◌, ◌⊎◌, inl, inr, Bool, true, false, not, ◌&&◌, ◌||◌, Option, none, some, List, [], ◌∷◌, ◌++◌,
  map, arith, eq_iff, eq_refl, Eq, ◌==◌, nat_eq, string_eq, if◌then◌else◌, ltb, leb, Bool-cases,
  Option-cases, and-false, codes, keep, lower, starts, has_part, last_is, same_codes, is_some,
  or_else, length, is_empty, any, all, select, update, length-append, All, contains, dedupe, concat,
  join, prefix, is_blank, text_or, decimal, within, is_space, is_break, is_digit, onto, lines_from,
  split_lines, strip_left, strip_right, strip, drop, starts_with, ends, after_first, until,
  replace_char, read_digits, skip_space, ◌>>=◌, list_append_nil, list_append_assoc, map-snoc,
  length-map, take, skip, take-all, take-more, skip-more, map-append, All-append, codes-append,
  read_digits-decimal, starts_digitless, StartsDigit, decimal-StartsDigit, IsLine, split_lines-join,
  drop-append,
}
use akesis.Domain.{FailureCategory, FailureSignal, TracebackFrame}
use akesis.Logs.Clean.{strip_ansi_codes, extract_surrounding_lines, slice, unify_lines}

pub record TracebackMatch : Type 0 where
  pub start : ℕ
  pub exception : String
  pub msg : String

pub record FrameMatch : Type 0 where
  pub file : String
  pub line : ℕ
  pub func : Option String
  pub code : Option String

pub record PytestMatch : Type 0 where
  pub start : ℕ
  pub file : String
  pub test : String
  pub exc : Option String
  pub err : Option String

pub record LineRef : Type 0 where
  pub file : String
  pub line : ℕ
  pub exc : String

-- a match of RUFF_LINT_PATTERN or MYPY_PATTERN; the second has no code
pub record LintMatch : Type 0 where
  pub start : ℕ
  pub file : String
  pub line : ℕ
  pub code : String
  pub msg : String

pub record Patterns : Type 0 where
  -- the place, and the module or the package
  pub module_not_found : String → Option (ℕ × String)
  pub pip_resolution : String → Option (ℕ × String)
  pub traceback_block : String → Option TracebackMatch
  pub frames : String → List FrameMatch
  pub pytest_failed : String → Option PytestMatch
  pub pytest_line_ref : String → Option LineRef
  pub ruff_lint : String → Option LintMatch
  pub mypy : String → Option LintMatch

-- `text.strip() if text else None`
abbrev pub stripped : Option String → Option String
stripped none = none
stripped (some s) = if is_blank s then none else some (strip s)

abbrev pub frame_of : FrameMatch → TracebackFrame
frame_of m = record {
  file_path = m.file;
  line_number = m.line;
  function_name = stripped m.func;
  code_line = stripped m.code;
}

-- the target is that of the last frame
abbrev pub last_target : List FrameMatch → Option String × Option ℕ
last_target [] = (none, none)
last_target (m ∷ []) = (some m.file, some m.line)
last_target (m ∷ n ∷ ms) = last_target (n ∷ ms)

-- `[-15:]`
abbrev pub last_lines : ℕ → List String → List String
last_lines n lines = skip (length lines - n) lines

abbrev pub upper : ℕ → ℕ
upper c = if within b'a' b'z' c then c - 32 else c

abbrev pub error_markers : List String
error_markers = "ERROR" ∷ "FAILED" ∷ "FATAL" ∷ "EXIT CODE 1" ∷ "EXCEPTION" ∷ []

unfoldable pub is_error_line : String → Bool
is_error_line line = any (λ m. has_part (map upper (codes line)) (codes m)) error_markers

-- the first line with a marker, and its index
abbrev pub first_error : ℕ → List String → Option (ℕ × String)
first_error idx [] = none
first_error idx (line ∷ lines) =
    let rest = first_error (suc idx) lines in if is_error_line line then some (idx, line) else rest

abbrev pub plain_signal : FailureCategory → String → String → String → FailureSignal
plain_signal category error_type message snippet = record {
  category = category;
  error_type = error_type;
  message = message;
  target_file = none;
  target_line = none;
  extracted_snippet = snippet;
  traceback_frames = [];
}

-- the first search that finds something decides
abbrev pub first_match :
    {A : Type 0} → Option A → (A → FailureSignal) → FailureSignal → FailureSignal
first_match none f other = other
first_match (some a) f other = f a

module _ (patterns : Patterns) (cleaned : String) where
  abbrev pub with_frames : FailureSignal → FailureSignal
  with_frames s =
      let target = last_target (patterns.frames cleaned) in
      record s {
        target_file = target.0;
        target_line = target.1;
        traceback_frames = map frame_of (patterns.frames cleaned);
      }

  -- steps 1 to 6
  abbrev pub of_module : ℕ × String → FailureSignal
  of_module (start, name) = with_frames (
      plain_signal FailureCategory.dependency "ModuleNotFoundError"
        (concat ("No module named '" ∷ name ∷ "'" ∷ []))
        (extract_surrounding_lines cleaned start 6))

  abbrev pub of_traceback : TracebackMatch → FailureSignal
  of_traceback m = with_frames (
      plain_signal
        (if has_part (map lower (codes m.exception)) (codes "assert")
          then FailureCategory.test
          else FailureCategory.build)
        m.exception (strip m.msg) (extract_surrounding_lines cleaned m.start 8))

  -- the line that the reference names, if it is of this file, and its exception
  abbrev pub line_ref : PytestMatch → Option LineRef
  line_ref m = elim (patterns.pytest_line_ref cleaned) [
    | none ↦ none
    | some r ↦ if r.file == m.file then some r else none
  ]

  abbrev pub pytest_error : PytestMatch → Option LineRef → String
  pytest_error m none = text_or m.exc "PytestAssertionError"
  pytest_error m (some r) = text_or m.exc r.exc

  abbrev pub pytest_frames : PytestMatch → Option LineRef → List TracebackFrame
  pytest_frames m none = []
  pytest_frames m (some r) =
      if is_blank m.file || r.line == 0
      then []
      else record {
        file_path = m.file;
        line_number = r.line;
        function_name = some m.test;
        code_line = none;
      }
        ∷ []

  abbrev pub of_pytest : PytestMatch → FailureSignal
  of_pytest m =
      let ref = line_ref m in
      record {
        category = FailureCategory.test;
        error_type = pytest_error m ref;
        message = strip (text_or m.err (concat ("Test failed: " ∷ m.test ∷ [])));
        target_file = some m.file;
        target_line = elim ref [ none ↦ none | some r ↦ some r.line ];
        extracted_snippet = extract_surrounding_lines cleaned m.start 6;
        traceback_frames = pytest_frames m ref;
      }

  abbrev pub of_lint : String → LintMatch → FailureSignal
  of_lint error_type m = record {
    category = FailureCategory.lint;
    error_type = error_type;
    message = strip m.msg;
    target_file = some m.file;
    target_line = some m.line;
    extracted_snippet = extract_surrounding_lines cleaned m.start 5;
    traceback_frames = [];
  }

  abbrev pub of_ruff : LintMatch → FailureSignal
  of_ruff m = of_lint (concat ("LintViolation(" ∷ m.code ∷ ")" ∷ [])) m

  abbrev pub of_pip : ℕ × String → FailureSignal
  of_pip (start, name) =
      plain_signal FailureCategory.dependency "DependencyResolutionError"
        (concat ("Resolution failed for package: " ∷ name ∷ []))
        (extract_surrounding_lines cleaned start 6)

  -- step 7
  abbrev pub of_line : ℕ × String → FailureSignal
  of_line (idx, line) =
      let lines = split_lines cleaned in
      plain_signal FailureCategory.unknown "GenericCIError" (strip line)
        (join "\n" (slice (idx - 3) (min (length lines) (idx + 8)) lines))

  abbrev pub unclassified : FailureSignal
  unclassified =
      let lines = split_lines cleaned in
      plain_signal FailureCategory.unknown "UnclassifiedFailure"
        "Non-zero exit code detected; no standard error patterns identified"
        (if ltb 15 (length lines) then join "\n" (last_lines 15 lines) else cleaned)

  unfoldable pub signal_of : FailureSignal
  signal_of = first_match (patterns.module_not_found cleaned) of_module (
      first_match (patterns.traceback_block cleaned) of_traceback (
        first_match (patterns.pytest_failed cleaned) of_pytest (
          first_match (patterns.ruff_lint cleaned) of_ruff (
            first_match (patterns.mypy cleaned) (of_lint "TypeError") (
              first_match (patterns.pip_resolution cleaned) of_pip
                (first_match (first_error 0 (split_lines cleaned)) of_line unclassified))))))

unfoldable pub filter_and_extract_signal : Patterns → String → FailureSignal
unfolding signal_of strip_ansi_codes
filter_and_extract_signal patterns raw_log =
    signal_of patterns (unify_lines (strip_ansi_codes raw_log))
