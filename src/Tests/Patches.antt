-- ===== src/Tests/Patches.antt =====
-- The theorems of the patch validator, of the context resolver and of the configuration, at the
-- incident of Samples.
use akesis.Common.{
  ℕ, zero, suc, String, ◌≡◌, refl, ◌↔◌, ◌⊎◌, inl, inr, Bool, true, false, not, ◌&&◌, none, some,
  List, [], ◌∷◌, arith, ◌==◌, nat_eq, string_eq, Bool-cases, codes, all, All, concat, join,
  is_blank, decimal, is_break, IsLine, decimal_from, decimal_digit,
}
use akesis.Config.{Settings, default_settings}
use akesis.Config.Production.{validate_production_configuration}
use akesis.Config.Production.Secure.{
  IsElsewhere, IsSecure, validate_production_configuration-IsSecure,
}
use akesis.Context.Bounds.{IsBounded, resolve_in-IsBounded}
use akesis.Context.Search.{Limits}
use akesis.Context.Snippet.{line_range}
use akesis.Fix.{FixModel}
use akesis.Patch.Header.{match_hunk_header}
use akesis.Patch.Parser.{parse_unified_diff, parse_from, step, read_line, finish}
use akesis.Patch.Printed.{Block, IsPrinted, PrintedHunk, diff_lines, file_patch}
use akesis.Patch.WellFormed.{IsFilePatch, parse_unified_diff-IsFilePatch}
use akesis.Paths.{Checkout, normalize_repo_relative_path, is_path_safe_and_within_root}
use akesis.Paths.Shape.{IsContained, is_path_safe-IsContained}
use akesis.Runtime.Post.{Post}
use akesis.Context.{limits_of, resolve_in}
use akesis.Samples.{python, context}
use akesis.Runtime.{ok}
use akesis.Patch.RoundTrip.{parse_unified_diff-print}
use akesis.Domain.{RiskLevel}
use akesis.Fix.{FixModel}
use akesis.Patch.{validate_patch}
use akesis.Patch.Patterns.{protected_patterns, is_env}
use akesis.Patch.Patterns.{is_env, is_binary, is_test_file, is_test_lower}
use akesis.Logs.{Patterns, filter_and_extract_signal}
use akesis.Logs.Clean.{strip_ansi_codes, unify_lines}
use akesis.Logs.Excerpt.{IsSignal, filter_and_extract_signal-IsSignal}

-- `line` is what each file has in each of its 60 lines
abbrev lines_of : ℕ → List String
lines_of zero = []
lines_of (suc n) = "x = 1\n" ∷ lines_of n

-- a checkout with one file, src/a.py of 60 lines
abbrev root : Checkout
root = record {
  resolve = λ path. ok (concat ("/repo/" ∷ path ∷ []), true);
  is_file = λ path. path == "/repo/src/a.py";
  size = λ path. ok 360;
  read_lines = λ path. ok (lines_of 60);
  suffix = λ path. ".py";
}

abbrev limits : Limits
limits = limits_of default_settings none none none none

abbrev raw_path : String
raw_path = "/home/runner/work/demo/demo/src/a.py"

is_path_safe-IsContained_example : IsContained root "src/a.py" "/repo/src/a.py"
unfolding is_path_safe_and_within_root
is_path_safe-IsContained_example = is_path_safe-IsContained root "src/a.py" "/repo/src/a.py" refl

-- So a diff of a workflow in such a folder is checked as one of a file at the root.
lost_workflow : normalize_repo_relative_path ".github/workflows/app/ci.yml" "" ≡ "ci.yml"
unfolding normalize_repo_relative_path
lost_workflow = refl

-- A folder of the repository that is named like a runner's is lost.
lost_folder : normalize_repo_relative_path "src/app/main.py" "" ≡ "main.py"
unfolding normalize_repo_relative_path
lost_folder = refl

resolve_in-IsBounded_example : IsBounded limits root (resolve_in limits 0 context root [])
resolve_in-IsBounded_example = resolve_in-IsBounded limits 0 context root [] (omega arith)

-- With a window of 40 lines, 41 lines are shown.
window_of_40 : line_range 40 (some 30) 60 ≡ (10, 50)
window_of_40 = refl

abbrev hunk : PrintedHunk
hunk = record {
  range = record { old_start = 7; old_lines = 2; new_start = 7; new_lines = 2 };
  section = " def f():";
  lines = " x = 1" ∷ "-assert 1 == 2" ∷ "+assert 1 == 1" ∷ [];
}

abbrev block : Block
block = record { old = "a/src/a.py"; new = "b/src/a.py"; first_hunk = hunk; more_hunks = [] }

abbrev diff : String
diff = join "\n" (diff_lines (block ∷ []))

parse_unified_diff-IsFilePatch_example : All IsFilePatch (parse_unified_diff python diff).0
parse_unified_diff-IsFilePatch_example = parse_unified_diff-IsFilePatch python diff

block-IsPrinted : IsPrinted block
unfolding normalize_repo_relative_path
block-IsPrinted = record {
  named = refl;
  first_lines = (
    record { prefixed = refl; is_inside = refl },
    (
      record { prefixed = refl; is_inside = refl },
      (record { prefixed = refl; is_inside = refl }, tt),
    ),
  );
  more_lines = tt;
}

abbrev is_line : String → Bool
is_line l = not (is_blank l) && all (λ c. not (is_break c)) (codes l)

unbroken : (cs : List ℕ) → all (λ c. not (is_break c)) cs ≡ true → All (λ c. is_break c ≡ false) cs
unbroken [] h = tt
unbroken (c ∷ cs) h = elim (Bool-cases (is_break c)) [
  | inl yes_break ↦ ground arith
  | inr no_break ↦ (no_break, unbroken cs (rw no_break at h))
]

is_line-IsLine : (l : String) → is_line l ≡ true → IsLine l
is_line-IsLine String.[] h = ground arith
is_line-IsLine (String.◌∷◌ c l) h = record {
  unbroken = unbroken (codes (String.◌∷◌ c l)) h;
  not_blank = refl;
}

all-IsLine : (ls : List String) → all is_line ls ≡ true → All IsLine ls
all-IsLine [] h = tt
all-IsLine (l ∷ ls) h = elim (Bool-cases (is_line l)) [
  | inl yes_line ↦ (is_line-IsLine l yes_line, all-IsLine ls (rw yes_line at h))
  | inr no_line ↦ absurd_line (is_line l) (all is_line ls) h no_line
]
  where
    absurd_line : (a b : Bool) → (a && b) ≡ true → a ≡ false → All IsLine (l ∷ ls)
    absurd_line true b h e = ground arith
    absurd_line false b h e = ground arith

parse_unified_diff-print_example : parse_unified_diff python diff ≡ (file_patch block ∷ [], [])
unfolding decimal decimal_from decimal_digit
parse_unified_diff-print_example =
    parse_unified_diff-print python (block ∷ []) (block-IsPrinted, tt)
      (all-IsLine (diff_lines (block ∷ [])) refl)

-- The diff is accepted.
diff_is_valid :
    (validate_patch default_settings python none none (some root) diff []).is_valid ≡ true
unfolding validate_patch parse_unified_diff parse_from step read_line finish match_hunk_header
    normalize_repo_relative_path is_path_safe_and_within_root protected_patterns is_env is_binary
    is_test_file is_test_lower decimal
diff_is_valid = refl

abbrev fix_model : FixModel
fix_model = record {
  propose = λ c d e n. ok (record {
    explanation = "the test is off by one";
    target_files = "src/a.py" ∷ [];
    unified_diff = diff;
    assumptions = [];
    risk_assessment = "low";
    estimated_risk_level = RiskLevel.low;
    confidence_score = 900_000;
  });
}

abbrev deployed : Settings
deployed = record default_settings { environment = "Production" }

validate_production_configuration-IsSecure_example :
    (validate_production_configuration deployed ≡ ok deployed)
    ↔ (IsElsewhere deployed ⊎ IsSecure deployed)
validate_production_configuration-IsSecure_example =
    validate_production_configuration-IsSecure deployed

-- a log with one traceback of one frame
abbrev log_patterns : Patterns
log_patterns = record {
  module_not_found = λ s. none;
  pip_resolution = λ s. none;
  traceback_block = λ s. some (record { start = 0; exception = "ValueError"; msg = "bad" });
  frames = λ s. record { file = "src/a.py"; line = 7; func = some "f"; code = none } ∷ [];
  pytest_failed = λ s. none;
  pytest_line_ref = λ s. none;
  ruff_lint = λ s. none;
  mypy = λ s. none;
}

abbrev raw_log : String
raw_log = "Traceback (most recent call last):\r\n\u{1b}[31mValueError: bad\u{1b}[0m"

filter_and_extract_signal-IsSignal_example :
    IsSignal
      (unify_lines (strip_ansi_codes raw_log))
      (filter_and_extract_signal log_patterns raw_log)
filter_and_extract_signal-IsSignal_example = filter_and_extract_signal-IsSignal log_patterns raw_log

colours :
    unify_lines (strip_ansi_codes raw_log) ≡ "Traceback (most recent call last):\nValueError: bad"
unfolding strip_ansi_codes
colours = refl
