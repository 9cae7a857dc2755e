-- ===== src/Patch/Run.antt =====
-- The lines of a printed diff, read one by one by `_parse_unified_diff` of
-- src/packages/shared/patch_validator.py.
use akesis.Common.{
  ℕ, suc, String, ◌≡◌, refl, ap, ◌∙◌, false, some, List, [], ◌∷◌, ◌++◌, map, nat_eq, string_eq, All,
  is_blank, strip, list_append_nil, list_append_assoc, map-snoc,
}
use akesis.Config.{Python}
use akesis.Domain.{FilePatch}
use akesis.Patch.Printed.{
  PrintedHunk, Block, target, IsPrintedLine, header, IsPrintedLine-inside, header-inside,
  header-starts, patch_hunk, hunk_lines,
}
use akesis.Patch.Parser.{parse_from, Parser, Mode, finish, step, read_line}
use akesis.Patch.HeaderRoundTrip.{match_hunk_header-print}

-- the state in a hunk of a block, after the hunks `hs` and the lines `ls` of the block
abbrev pub inside : List FilePatch → Block → List PrintedHunk → PrintedHunk → List String → Parser
inside fs b hs h ls = record {
  mode = Mode.in_hunk (header h) h.range h.lines;
  file_patches = fs;
  errors = [];
  old_path = some (strip b.old);
  new_path = some (strip b.new);
  target_file = some (target b);
  hunks = map patch_hunk hs;
  diff_lines = ls;
}

abbrev with_lines : List String → PrintedHunk → PrintedHunk
with_lines ls h = record h { lines = ls }

module _ (python : Python) where
  abbrev pub run : ℕ → List String → Parser → Parser
  run i [] p = p
  run i (l ∷ ls) p = run (suc i) ls (step python i l p)

  abbrev pub after : ℕ → List String → ℕ
  after i [] = i
  after i (l ∷ ls) = after (suc i) ls

  pub run-append :
      (i : ℕ) (ls ms : List String) (p : Parser)
      → run i (ls ++ ms) p ≡ run (after i ls) ms (run i ls p)
  run-append i [] ms p = refl
  run-append i (l ∷ ls) ms p = run-append (suc i) ls ms (step python i l p)

  pub parse_from-run :
      (i : ℕ) (ls : List String) (p : Parser)
      → parse_from python i ls p ≡ finish python (after i ls) (run i ls p)
  unfolding parse_from
  parse_from-run i [] p = refl
  parse_from-run i (l ∷ ls) p = parse_from-run (suc i) ls (step python i l p)

  module _ (fs : List FilePatch) (b : Block) (named : is_blank (target b) ≡ false) where
    -- The lines of a hunk are added to it.
    pub run-lines :
        (i : ℕ) (ls : List String) (hs : List PrintedHunk) (h : PrintedHunk) (ds : List String)
        → All IsPrintedLine ls
        → run i ls (inside fs b hs h ds)
          ≡ inside fs b hs (record h { lines = h.lines ++ ls }) (ds ++ ls)
    unfolding step
    run-lines i [] hs h ds ok = rw (list_append_nil h.lines, list_append_nil ds) refl
    run-lines i (l ∷ ls) hs h ds ok =
        rw (IsPrintedLine-inside l ok.0, ok.0.prefixed)
          (run-lines (suc i) ls hs (record h { lines = h.lines ++ l ∷ [] }) (ds ++ l ∷ []) ok.1
            ∙ rw (list_append_assoc h.lines (l ∷ []) ls, list_append_assoc ds (l ∷ []) ls) refl)

    -- A header closes the hunk before it.
    step-header :
        (i : ℕ) (k : PrintedHunk) (hs : List PrintedHunk) (h : PrintedHunk) (ds : List String)
        → step python i (header k) (inside fs b hs h ds)
          ≡ inside fs b (hs ++ h ∷ []) (record k { lines = [] }) (ds ++ header k ∷ [])
    unfolding step read_line
    step-header i k hs h ds =
        rw (header-inside k, header-starts k, named, match_hunk_header-print k.range k.section)
          (rw (map-snoc patch_hunk hs h) refl)

    -- The hunks that follow are read one after the other; the last one is still open.
    pub record IsRead (i : ℕ) (ks hs : List PrintedHunk) (h : PrintedHunk) (ds : List String)
        : Type 0 where
      pub before : List PrintedHunk
      pub last : PrintedHunk
      pub runs :
          run i (hunk_lines ks) (inside fs b hs h ds)
          ≡ inside fs b before last (ds ++ hunk_lines ks)
      pub same : before ++ last ∷ [] ≡ hs ++ h ∷ ks

    pub run-hunks :
        (i : ℕ) (ks hs : List PrintedHunk) (h : PrintedHunk) (ds : List String)
        → All (λ k. All IsPrintedLine k.lines) ks
        → IsRead i ks hs h ds
    run-hunks i [] hs h ds ok = record {
      before = hs;
      last = h;
      runs = rw (list_append_nil ds) refl;
      same = refl;
    }
    run-hunks i (k ∷ ks) hs h ds ok =
        let j = after (suc i) k.lines in
        let lines = (ds ++ header k ∷ []) ++ k.lines in
        let rest = run-hunks j ks (hs ++ h ∷ []) k lines ok.1 in
        record {
          before = rest.before;
          last = rest.last;
          runs =
              ap (run (suc i) (k.lines ++ hunk_lines ks)) (step-header i k hs h ds)
              ∙ (run-append (suc i) k.lines (hunk_lines ks) _
                  ∙ (ap (run j (hunk_lines ks)) (
                        run-lines (suc i) k.lines (hs ++ h ∷ []) (record k { lines = [] })
                          (ds ++ header k ∷ []) ok.0)
                      ∙ (rest.runs
                          ∙ ap (inside fs b rest.before rest.last) (
                              list_append_assoc (ds ++ header k ∷ []) k.lines (hunk_lines ks)
                              ∙ list_append_assoc ds (header k ∷ []) (k.lines ++ hunk_lines ks)))));
          same = rest.same ∙ list_append_assoc hs (h ∷ []) (k ∷ ks);
        }
