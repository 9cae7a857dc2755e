-- ===== src/Patch/WellFormed.antt =====
-- What `_parse_unified_diff` of src/packages/shared/patch_validator.py builds.
use akesis.Common.{
  ℕ, suc, String, ◌≡◌, refl, inl, inr, true, false, ◌||◌, Option, none, some, List, [], ◌∷◌, arith,
  nat_eq, string_eq, Bool-cases, Option-cases, is_empty, All, is_blank, split_lines, starts_with,
  All-append,
}
use akesis.Config.{Python}
use akesis.Domain.{FilePatch, PatchHunk}
use akesis.Patch.Header.{HunkRange, match_hunk_header}
use akesis.Patch.Parser.{
  Mode, Parser, finished, flush, hunk_of, close_hunk, is_hunk_line, hunk_line, read_line, step,
  has_no_target, finish, malformed, parse_from, parse_unified_diff, initial,
}

-- A hunk whose header is the one that its ranges were read from, and whose lines have a prefix.
pub record IsHunk (h : PatchHunk) : Type 0 where
  pub reads :
      match_hunk_header h.header
      ≡ some (record {
        old_start = h.old_start;
        old_lines = h.old_lines;
        new_start = h.new_start;
        new_lines = h.new_lines;
      })
  pub prefixed : All (λ l. is_hunk_line l ≡ true) h.lines

-- A file patch that names a file and has hunks.
pub record IsFilePatch (f : FilePatch) : Type 0 where
  pub named : is_blank f.path ≡ false
  pub has_hunk : is_empty f.hunks ≡ false
  pub hunks : All IsHunk f.hunks

abbrev IsMode : Mode → Type 0
IsMode Mode.outside = Unit
IsMode Mode.after_old = Unit
IsMode (Mode.in_hunk header r lines) = IsHunk (hunk_of header r lines)

record IsParser (p : Parser) : Type 0 where
  reading : IsMode p.mode
  patches : All IsFilePatch p.file_patches
  hunks : All IsHunk p.hunks

finished-IsFilePatch : (p : Parser) → IsParser p → All IsFilePatch (finished p)
finished-IsFilePatch p h = go p.target_file
  where
    go : (t : Option String) → All IsFilePatch (finished (record p { target_file = t }))
    go none = tt
    go (some t) = elim (Bool-cases (is_blank t || is_empty p.hunks)) [
      | inl e ↦ rw e tt
      | inr e ↦ rw e (record { named = ground arith; has_hunk = ground arith; hunks = h.hunks }, tt)
    ]

flush-IsParser : (p : Parser) → IsParser p → IsParser (flush p)
flush-IsParser p h = elim (Bool-cases (is_empty (finished p))) [
  | inl e ↦ rw e h
  | inr e ↦ rw e (record {
    reading = h.reading;
    patches =
        All-append IsFilePatch p.file_patches (finished p) h.patches (finished-IsFilePatch p h);
    hunks = tt;
  })
]

close-IsParser :
    (header : String) (r : HunkRange) (lines : List String) (p : Parser)
    → IsParser p
    → IsHunk (hunk_of header r lines)
    → IsParser (close_hunk header r lines p)
close-IsParser header r lines p h k = record {
  reading = tt;
  patches = h.patches;
  hunks = All-append IsHunk p.hunks (hunk_of header r lines ∷ []) h.hunks (k, tt);
}

module _ (python : Python) where
  read_line-IsParser :
      (i : ℕ) (line : String) (p : Parser) → IsParser p → IsParser (read_line python i line p)
  unfolding read_line
  read_line-IsParser i line p h = elim (Bool-cases (starts_with line "--- ")) [
    | inl e ↦
        let f = flush-IsParser p h in
        rw e (record { reading = tt; patches = f.patches; hunks = f.hunks })
    | inr e ↦ rw e (elim (Bool-cases (starts_with line "@@")) [
      | inl at ↦ rw at (elim (Bool-cases (has_no_target p)) [
        | inl bare ↦ rw bare (record { reading = h.reading; patches = h.patches; hunks = h.hunks })
        | inr named ↦ rw named (elim (Option-cases (match_hunk_header line)) [
          | inl none_read ↦
              rw none_read (record { reading = h.reading; patches = h.patches; hunks = h.hunks })
          | inr (r, read) ↦ rw read (record {
            reading = record { reads = read; prefixed = tt };
            patches = h.patches;
            hunks = h.hunks;
          })
        ])
      ])
      | inr e ↦ rw e (elim (Bool-cases (has_no_target p)) [
        | inl bare ↦ rw bare h
        | inr named ↦
            rw named (record { reading = h.reading; patches = h.patches; hunks = h.hunks })
      ])
    ])
  ]

  hunk_line-IsParser :
      (i : ℕ) (line header : String) (r : HunkRange) (lines : List String) (p : Parser)
      → IsParser p
      → IsHunk (hunk_of header r lines)
      → IsParser (hunk_line python i line header r lines p)
  hunk_line-IsParser i line header r lines p h k = elim (Bool-cases (is_hunk_line line)) [
    | inl e ↦ rw e (record {
      reading = record {
        reads = k.reads;
        prefixed = All-append (λ l. is_hunk_line l ≡ true) lines (line ∷ []) k.prefixed (e, tt);
      };
      patches = h.patches;
      hunks = h.hunks;
    })
    | inr e ↦ rw e (elim (Bool-cases (is_blank line)) [
      | inl b ↦ rw b (record {
        reading = record {
          reads = k.reads;
          prefixed = All-append (λ l. is_hunk_line l ≡ true) lines (" " ∷ []) k.prefixed (refl, tt);
        };
        patches = h.patches;
        hunks = h.hunks;
      })
      | inr b ↦ rw b (record { reading = h.reading; patches = h.patches; hunks = h.hunks })
    ])
  ]

  step-IsParser :
      (i : ℕ) (line : String) (p : Parser) → IsParser p → IsParser (step python i line p)
  unfolding step
  step-IsParser i line p h = go p.mode h
    where
      go :
          (m : Mode)
          → IsParser (record p { mode = m })
          → IsParser (step python i line (record p { mode = m }))
      go Mode.outside h = read_line-IsParser i line (record p { mode = Mode.outside }) h
      go Mode.after_old h = elim (Bool-cases (starts_with line "+++ ")) [
        | inl e ↦ rw e (record { reading = tt; patches = h.patches; hunks = h.hunks })
        | inr e ↦ rw e (
            read_line-IsParser i line (malformed python i (record p { mode = Mode.after_old }))
              (record { reading = tt; patches = h.patches; hunks = h.hunks }))
      ]
      go (Mode.in_hunk header r lines) h =
          elim (Bool-cases (starts_with line "--- " || starts_with line "@@")) [
            | inl e ↦ rw e (
                read_line-IsParser i line
                  (close_hunk header r lines (record p { mode = Mode.in_hunk header r lines }))
                  (close-IsParser header r lines (record p { mode = Mode.in_hunk header r lines }) h
                    h.reading))
            | inr e ↦ rw e (
                hunk_line-IsParser i line header r lines
                  (record p { mode = Mode.in_hunk header r lines }) h h.reading)
          ]

  finish-IsFilePatch : (i : ℕ) (p : Parser) → IsParser p → All IsFilePatch (finish python i p).0
  unfolding finish
  finish-IsFilePatch i p h = go p.mode h
    where
      go :
          (m : Mode)
          → IsParser (record p { mode = m })
          → All IsFilePatch (finish python i (record p { mode = m })).0
      go Mode.outside h =
          let q = record p { mode = Mode.outside } in
          All-append IsFilePatch p.file_patches (finished q) h.patches (finished-IsFilePatch q h)
      go Mode.after_old h =
          let q = malformed python i (record p { mode = Mode.after_old }) in
          All-append IsFilePatch p.file_patches (finished q) h.patches
            (finished-IsFilePatch q (record { reading = tt; patches = h.patches; hunks = h.hunks }))
      go (Mode.in_hunk header r lines) h =
          let q = record p { mode = Mode.in_hunk header r lines } in
          let closed = close_hunk header r lines q in
          All-append IsFilePatch p.file_patches (finished closed) h.patches
            (finished-IsFilePatch closed (close-IsParser header r lines q h h.reading))

  parse_from-IsFilePatch :
      (i : ℕ) (lines : List String) (p : Parser)
      → IsParser p
      → All IsFilePatch (parse_from python i lines p).0
  unfolding parse_from
  parse_from-IsFilePatch i [] p h = finish-IsFilePatch i p h
  parse_from-IsFilePatch i (l ∷ ls) p h =
      parse_from-IsFilePatch (suc i) ls (step python i l p) (step-IsParser i l p h)

  -- Whatever the text, each file patch that the parser returns names a file, has at least one hunk, the
  -- four numbers of each hunk are those that its header reads as, and each line of a hunk starts with a
  -- plus, a minus, a space or a backslash.
  pub parse_unified_diff-IsFilePatch :
      (raw_diff : String) → All IsFilePatch (parse_unified_diff python raw_diff).0
  unfolding parse_unified_diff
  parse_unified_diff-IsFilePatch raw_diff =
      parse_from-IsFilePatch 0 (split_lines raw_diff) initial
        (record { reading = tt; patches = tt; hunks = tt })
