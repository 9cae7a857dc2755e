-- ===== src/Patch/RoundTrip.antt =====
-- `_parse_unified_diff` of src/packages/shared/patch_validator.py reads back a diff that is printed.
use akesis.Common.{
  ℕ, suc, ◌≡◌, refl, sym, ap, ◌∙◌, false, some, List, [], ◌∷◌, ◌++◌, map, nat_eq, string_eq,
  is_empty, All, join, strip, list_append_nil, list_append_assoc, map-snoc, IsLine,
  split_lines-join,
}
use akesis.Config.{Python}
use akesis.Domain.{FilePatch}
use akesis.Patch.Parser.{
  step, Parser, read_line, Mode, finish, finished, initial, close_hunk, flush, parse_unified_diff,
}
use akesis.Patch.Printed.{
  Block, IsPrinted, PrintedHunk, new_line, old_line, file_patch, header, new_line-starts, target,
  drop-new_line, old_line-starts, block_lines, drop-old_line, header-inside, header-starts,
  patch_hunk, hunk_lines, diff_lines,
}
use akesis.Patch.Run.{inside, run, run-hunks, after, parse_from-run, run-append, run-lines}
use akesis.Patch.HeaderRoundTrip.{match_hunk_header-print}

is_empty-snoc : {A : Type 0} (xs : List A) (x : A) → is_empty (xs ++ x ∷ []) ≡ false
is_empty-snoc [] x = refl
is_empty-snoc (y ∷ xs) x = refl

flush-finished :
    (p : Parser) (f : FilePatch)
    → finished p ≡ f ∷ []
    → flush p ≡ record p { file_patches = p.file_patches ++ f ∷ []; hunks = []; diff_lines = [] }
flush-finished p f e = rw e refl

-- the state after the first line of a block
abbrev begun : List FilePatch → Block → Parser → Parser
begun fs b p = record {
  mode = Mode.after_old;
  file_patches = fs;
  errors = [];
  old_path = some (strip b.old);
  new_path = p.new_path;
  target_file = p.target_file;
  hunks = [];
  diff_lines = old_line b ∷ [];
}

abbrev begin_block : Block → Parser → Parser
begin_block b p = record p {
  mode = Mode.after_old;
  old_path = some (strip b.old);
  diff_lines = old_line b ∷ [];
}

-- the state after its second line
abbrev opened : List FilePatch → Block → Parser
opened fs b = record {
  mode = Mode.outside;
  file_patches = fs;
  errors = [];
  old_path = some (strip b.old);
  new_path = some (strip b.new);
  target_file = some (target b);
  hunks = [];
  diff_lines = old_line b ∷ new_line b ∷ [];
}

module _ (python : Python) where
  -- The state has read the file patches `fs`, the open one included.
  record HasRead (fs : List FilePatch) (p : Parser) : Type 0 where
    starts : (i : ℕ) (b : Block) → step python i (old_line b) p ≡ begun fs b p
    ends : (i : ℕ) → finish python i p ≡ (fs, [])

  initial-HasRead : HasRead [] initial
  unfolding step read_line finish
  initial-HasRead = record {
    starts = λ i b. rw (old_line-starts b, drop-old_line b) refl;
    ends = λ i. refl;
  }

  module _ (fs : List FilePatch) (b : Block) (printed : IsPrinted b) where
    step-new_line : (i : ℕ) (p : Parser) → step python i (new_line b) (begun fs b p) ≡ opened fs b
    unfolding step
    step-new_line i p = rw (new_line-starts b, drop-new_line b) refl

    step-first_header :
        (i : ℕ) (h : PrintedHunk)
        → step python i (header h) (opened fs b)
          ≡ inside fs b [] (record h { lines = [] }) (old_line b ∷ new_line b ∷ header h ∷ [])
    unfolding step read_line
    step-first_header i h =
        rw
          (
            header-inside h,
            header-starts h,
            printed.named,
            match_hunk_header-print h.range h.section,
          )
          refl

    finished-block :
        (hs : List PrintedHunk) (h : PrintedHunk)
        → hs ++ h ∷ [] ≡ b.first_hunk ∷ b.more_hunks
        → finished (close_hunk (header h) h.range h.lines (inside fs b hs h (block_lines b)))
          ≡ file_patch b ∷ []
    finished-block hs h same =
        rw (printed.named, is_empty-snoc (map patch_hunk hs) (patch_hunk h))
          (ap (λ hks. record (file_patch b) { hunks = hks } ∷ [])
            (sym (map-snoc patch_hunk hs h) ∙ ap (map patch_hunk) same))

    block-HasRead :
        (hs : List PrintedHunk) (h : PrintedHunk)
        → hs ++ h ∷ [] ≡ b.first_hunk ∷ b.more_hunks
        → HasRead (fs ++ file_patch b ∷ []) (inside fs b hs h (block_lines b))
    unfolding step read_line finish
    block-HasRead hs h same =
        let closed = close_hunk (header h) h.range h.lines (inside fs b hs h (block_lines b)) in
        let block = finished-block hs h same in
        record {
          starts = λ i c.
              rw (old_line-starts c, drop-old_line c)
                (ap (begin_block c) (flush-finished closed (file_patch b) block));
          ends = λ i. ap (λ read. (fs ++ read, [])) block;
        }

    -- Reading a block adds its file patch.
    run-block :
        (i : ℕ) (p : Parser)
        → HasRead fs p
        → HasRead (fs ++ file_patch b ∷ []) (run python i (block_lines b) p)
    run-block i p read =
        let h = b.first_hunk in
        let start = old_line b ∷ new_line b ∷ header h ∷ [] in
        let j = suc (suc (suc i)) in
        let rest =
          run-hunks python fs b printed.named (after python j h.lines) b.more_hunks [] h
            (start ++ h.lines) printed.more_lines in
        let steps : run python i (block_lines b) p
            ≡ inside fs b rest.before rest.last (block_lines b) =
          ap (run python (suc i) (new_line b ∷ hunk_lines (h ∷ b.more_hunks))) (read.starts i b)
          ∙ (ap (run python (suc (suc i)) (hunk_lines (h ∷ b.more_hunks))) (step-new_line (suc i) p)
              ∙ (ap (run python j (h.lines ++ hunk_lines b.more_hunks))
                    (step-first_header (suc (suc i)) h)
                  ∙ (run-append python j h.lines (hunk_lines b.more_hunks) _
                      ∙ (ap (run python (after python j h.lines) (hunk_lines b.more_hunks)) (
                            run-lines python fs b printed.named j h.lines []
                              (record h { lines = [] }) start printed.first_lines)
                          ∙ rest.runs)))) in
        rw steps (block-HasRead rest.before rest.last rest.same)

  run-blocks :
      (i : ℕ) (bs : List Block) (fs : List FilePatch) (p : Parser)
      → All IsPrinted bs
      → HasRead fs p
      → HasRead (fs ++ map file_patch bs) (run python i (diff_lines bs) p)
  run-blocks i [] fs p printed read = rw (list_append_nil fs) read
  run-blocks i (b ∷ bs) fs p printed read =
      rw
        (
          run-append python i (block_lines b) (diff_lines bs) p,
          sym (list_append_assoc fs (file_patch b ∷ []) (map file_patch bs)),
        )
        (run-blocks (after python i (block_lines b)) bs (fs ++ file_patch b ∷ [])
          (run python i (block_lines b) p) printed.1 (run-block fs b printed.0 i p read))

  -- A diff of blocks whose lines have no line break inside, whose targets have a name and whose hunk
  -- lines have a prefix and do not start with `--- `, is read back without an error as the file patches
  -- of its blocks, in order: with the four numbers that each header was printed from, the header and
  -- the lines of each hunk, and the text of the block.
  pub parse_unified_diff-print :
      (bs : List Block)
      → All IsPrinted bs
      → All IsLine (diff_lines bs)
      → parse_unified_diff python (join "\n" (diff_lines bs)) ≡ (map file_patch bs, [])
  unfolding parse_unified_diff
  parse_unified_diff-print bs printed lines =
      rw (split_lines-join (diff_lines bs) lines, parse_from-run python 0 (diff_lines bs) initial)
        ((run-blocks 0 bs [] initial printed initial-HasRead).ends (after python 0 (diff_lines bs)))
