-- ===== src/Context/Imports.antt =====
-- The local modules that a Python file imports, as `resolve_context` of
-- src/packages/shared/context_resolver.py finds them, and the files it is told to look at. The two
-- patterns have one way to match, since no white space stands in a module's name.
use akesis.Common.{
  ℕ, String, Bool, false, not, ◌&&◌, ◌||◌, Option, none, some, List, [], ◌∷◌, ◌++◌, ◌==◌, nat_eq,
  string_eq, if◌then◌else◌, codes, length, any, concat, is_blank, within, is_space, is_digit,
  strip_left, strip, drop, starts_with, until, replace_char, ◌>>=◌,
}
use Prim.Native.Char.{code}
use akesis.Domain.{FailureSignal, TracebackFrame}
use akesis.Paths.{Checkout, is_path_safe_and_within_root}

-- `(raw_path, target_line)`
pub record Candidate : Type 0 where
  pub raw_path : String
  pub target_line : Option ℕ

-- `[a-zA-Z0-9_\.]`
abbrev pub is_module_char : ℕ → Bool
is_module_char c =
    within b'a' b'z' c || (within b'A' b'Z' c || (is_digit c || (c == b'_' || c == b'.')))

-- what follows `\s+`
abbrev pub after_spaces : String → Option String
after_spaces String.[] = none
after_spaces (String.◌∷◌ c s) = if is_space (code c) then some (strip_left is_space s) else none

-- `([a-zA-Z0-9_\.]+)` at the front, and what follows it
abbrev pub module_name : String → Option (String × String)
module_name s =
    let name = until (λ c. not (is_module_char c)) s in
    if is_blank name then none else some (name, drop (length (codes name)) s)

-- `\s+([a-zA-Z0-9_\.]+)\s+import`
abbrev from_name : String → Option String
from_name s = do
  spaced ← after_spaces s
  named ← module_name spaced
  imports ← after_spaces named.1
  if starts_with imports "import" then some named.0 else none

-- `^from\s+([a-zA-Z0-9_\.]+)\s+import`
abbrev pub match_from : String → Option String
match_from s = if starts_with s "from" then from_name (drop 4 s) else none

-- `\s+([a-zA-Z0-9_\.]+)`
abbrev import_name : String → Option String
import_name s = do spaced ← after_spaces s; named ← module_name spaced; some named.0

-- `^import\s+([a-zA-Z0-9_\.]+)`
abbrev pub match_import : String → Option String
match_import s = if starts_with s "import" then import_name (drop 6 s) else none

-- `mod.replace(".", "/") + ".py"`
abbrev pub module_path : String → String
module_path name = concat (replace_char b'.' "/" name ∷ ".py" ∷ [])

abbrev pub knows : String → List Candidate → Bool
knows path candidates = any (λ c. c.raw_path == path) candidates

abbrev pub is_local : Checkout → String → Bool
is_local checkout path = elim (is_path_safe_and_within_root checkout path) [
  | none ↦ false
  | some safe ↦ checkout.is_file safe
]

-- the module's file, where it is in the repository and no candidate yet
abbrev pub new_module : Checkout → List Candidate → Option String → List Candidate
new_module checkout known none = []
new_module checkout known (some name) =
    if not (knows (module_path name) known) && is_local checkout (module_path name)
    then record { raw_path = module_path name; target_line = none } ∷ []
    else []

-- the candidates that one line adds
abbrev pub line_modules : Checkout → List Candidate → String → List Candidate
line_modules checkout known line =
    let from_module = new_module checkout known (match_from line) in
    let import_module = new_module checkout (known ++ from_module) (match_import line) in
    if starts_with line "from " || starts_with line "import "
    then from_module ++ import_module
    else []

-- the candidates that the lines of a file add to the known ones
abbrev pub imported : Checkout → List Candidate → List String → List Candidate
imported checkout known [] = []
imported checkout known (raw_line ∷ lines) =
    let new = line_modules checkout known (strip raw_line) in
    new ++ imported checkout (known ++ new) lines

-- `(file_path, line_number) in candidate_targets`
abbrev pub is_candidate : TracebackFrame → List Candidate → Bool
is_candidate f candidates =
    any
      (λ c.
        c.raw_path == f.file_path
        && (elim c.target_line [ none ↦ false | some n ↦ n == f.line_number ]))
      candidates

abbrev pub frame_candidates : List Candidate → List TracebackFrame → List Candidate
frame_candidates known [] = known
frame_candidates known (f ∷ fs) =
    if is_blank f.file_path || is_candidate f known
    then frame_candidates known fs
    else frame_candidates
        (known ++ record { raw_path = f.file_path; target_line = some f.line_number } ∷ []) fs

-- step 2
abbrev pub candidate_targets : FailureSignal → List Candidate
candidate_targets signal =
    frame_candidates
      (elim signal.target_file [
        | none ↦ []
        | some file ↦
            if is_blank file
            then []
            else record { raw_path = file; target_line = signal.target_line } ∷ []
      ])
      signal.traceback_frames
