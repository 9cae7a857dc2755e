-- ===== src/Context/Snippet.antt =====
-- The numbered lines that `resolve_context` of src/packages/shared/context_resolver.py cuts out of a
-- file.
use akesis.Common.{
  ℕ, zero, suc, ◌+◌, ◌-◌, ◌/◌, min, max, String, ◌&&◌, ◌||◌, Option, none, some, List, [], ◌∷◌,
  ◌==◌, nat_eq, string_eq, if◌then◌else◌, leb, codes, length, concat, join, decimal, within,
  strip_right,
}

-- the first and the last line
abbrev pub line_range : ℕ → Option ℕ → ℕ → ℕ × ℕ
line_range window none total = (1, min total window)
line_range window (some target) total =
    let half = window / 2 in
    if leb 1 target && leb target total
    then (max 1 (target - half), min total (target + half))
    else (1, min total window)

-- `f"{n:4d}"`
abbrev pub pad : ℕ → String → String
pad zero s = s
pad (suc n) s = concat (" " ∷ pad n s ∷ [])

abbrev pub four_wide : ℕ → String
four_wide n = pad (4 - length (codes (decimal n))) (decimal n)

abbrev pub marker : Option ℕ → ℕ → String
marker none idx = "  "
marker (some target) idx = if target == idx then " >" else "  "

-- `rstrip("\r\n")`
abbrev pub strip_newline : String → String
strip_newline s = strip_right (λ c. c == 13 || c == 10) s

abbrev pub numbered : Option ℕ → ℕ → String → String
numbered target idx line =
    concat (four_wide idx ∷ marker target idx ∷ " | " ∷ strip_newline line ∷ [])

-- the lines from the first to the last, where those that are left start with number `idx`
abbrev pub snippet_lines : Option ℕ → ℕ → ℕ → ℕ → List String → List String
snippet_lines target first last idx [] = []
snippet_lines target first last idx (line ∷ lines) =
    let rest = snippet_lines target first last (suc idx) lines in
    if within first last idx then numbered target idx line ∷ rest else rest

unfoldable pub snippet : Option ℕ → ℕ → ℕ → List String → String
snippet target first last lines = join "\n" (snippet_lines target first last 1 lines)

-- LANGUAGE_EXTENSION_MAP, or "text"
unfoldable pub language : String → String
language ext =
    if ext == ".py"
    then "python"
    else if ext == ".json"
    then "json"
    else if ext == ".toml"
    then "toml"
    else if ext == ".yaml" || ext == ".yml"
    then "yaml"
    else if ext == ".md"
    then "markdown"
    else if ext == ".sh"
    then "bash"
    else if ext == ".js" || ext == ".jsx"
    then "javascript"
    else if ext == ".ts" || ext == ".tsx"
    then "typescript"
    else if ext == ".rs"
    then "rust"
    else if ext == ".go"
    then "go"
    else "text"
