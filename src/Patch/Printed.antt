-- ===== src/Patch/Printed.antt =====
-- A unified diff as `diff -u` writes it, line by line, from which `_parse_unified_diff` of
-- src/packages/shared/patch_validator.py is to read its file patches.
use akesis.Common.{
  String, ◌≡◌, refl, ◌∙◌, true, false, ◌||◌, some, List, [], ◌∷◌, ◌++◌, map, arith, nat_eq,
  string_eq, All, concat, join, is_blank, strip, drop, starts_with, codes-append, drop-append,
}
use text.Mathlib.TextLemmas.{append-nil}
use akesis.Domain.{FilePatch, PatchHunk}
use akesis.Patch.Header.{HunkRange}
use akesis.Patch.HeaderRoundTrip.{print_header}
use akesis.Patch.Parser.{is_hunk_line, hunk_of, raw_target}
use akesis.Paths.{normalize_repo_relative_path}

pub record PrintedHunk : Type 0 where
  pub range : HunkRange
  pub section : String
  pub lines : List String

-- The blocks of a diff: what follows `--- ` and `+++ `, and the hunks.
pub record Block : Type 0 where
  pub old : String
  pub new : String
  pub first_hunk : PrintedHunk
  pub more_hunks : List PrintedHunk

abbrev pub header : PrintedHunk → String
header h = print_header h.range h.section

abbrev pub hunk_lines : List PrintedHunk → List String
hunk_lines [] = []
hunk_lines (h ∷ hs) = header h ∷ (h.lines ++ hunk_lines hs)

abbrev pub old_line : Block → String
old_line b = concat ("--- " ∷ b.old ∷ [])

abbrev pub new_line : Block → String
new_line b = concat ("+++ " ∷ b.new ∷ [])

abbrev pub block_lines : Block → List String
block_lines b = old_line b ∷ new_line b ∷ hunk_lines (b.first_hunk ∷ b.more_hunks)

abbrev pub diff_lines : List Block → List String
diff_lines [] = []
diff_lines (b ∷ bs) = block_lines b ++ diff_lines bs

abbrev pub patch_hunk : PrintedHunk → PatchHunk
patch_hunk h = hunk_of (header h) h.range h.lines

abbrev pub target : Block → String
target b = normalize_repo_relative_path (raw_target (some (strip b.old)) (strip b.new)) ""

-- what the parser is to read from a block
abbrev pub file_patch : Block → FilePatch
file_patch b = record {
  path = target b;
  old_path = some (strip b.old);
  new_path = some (strip b.new);
  hunks = map patch_hunk (b.first_hunk ∷ b.more_hunks);
  raw_diff = join "\n" (block_lines b);
}

-- A line of a hunk that is not read as the start of another block.
pub record IsPrintedLine (l : String) : Type 0 where
  pub prefixed : is_hunk_line l ≡ true
  pub is_inside : starts_with l "--- " ≡ false

-- A block that names a file, and whose hunks have such lines.
pub record IsPrinted (b : Block) : Type 0 where
  pub named : is_blank (target b) ≡ false
  pub first_lines : All IsPrintedLine b.first_hunk.lines
  pub more_lines : All (λ h. All IsPrintedLine h.lines) b.more_hunks

pub drop-old_line : (b : Block) → drop 4 (old_line b) ≡ b.old
drop-old_line b = drop-append "--- " (concat (b.old ∷ [])) ∙ append-nil b.old

pub drop-new_line : (b : Block) → drop 4 (new_line b) ≡ b.new
drop-new_line b = drop-append "+++ " (concat (b.new ∷ [])) ∙ append-nil b.new

pub old_line-starts : (b : Block) → starts_with (old_line b) "--- " ≡ true
old_line-starts b = rw codes-append refl

pub new_line-starts : (b : Block) → starts_with (new_line b) "+++ " ≡ true
new_line-starts b = rw codes-append refl

pub header-inside : (h : PrintedHunk) → starts_with (header h) "--- " ≡ false
header-inside h = rw codes-append refl

pub header-starts : (h : PrintedHunk) → starts_with (header h) "@@" ≡ true
header-starts h = rw codes-append refl

pub IsPrintedLine-inside :
    (l : String) → IsPrintedLine l → (starts_with l "--- " || starts_with l "@@") ≡ false
IsPrintedLine-inside String.[] h = refl
IsPrintedLine-inside (String.◌∷◌ c l) h = ground (arith, h.prefixed, h.is_inside)
