-- ===== src/Logs/Excerpt.antt =====
-- What the signal of src/packages/shared/log_parser.py shows of the log, and where it points.
use akesis.Common.{
  ℕ, zero, suc, ◌-◌, ◌≤◌, String, ◌≡◌, refl, sym, ap, ◌∙◌, inl, inr, ◌||◌, Option, none, some, List,
  [], ◌∷◌, ◌++◌, map, arith, ◌==◌, nat_eq, string_eq, ltb, Bool-cases, Option-cases, length, join,
  is_blank, split_lines, take, skip, take-all,
}
use akesis.Domain.{FailureSignal, TracebackFrame, FailureCategory}
use akesis.Logs.{
  of_module, of_traceback, Patterns, FrameMatch, PytestMatch, signal_of, unclassified, with_frames,
  frame_of, of_pytest, last_target, LineRef, first_error, last_lines, line_ref, pytest_frames,
  plain_signal, filter_and_extract_signal, first_match, unify_lines, strip_ansi_codes,
}
use akesis.Logs.Clean.{extract_surrounding_lines, surrounding_lines}

-- At most `n` lines of the log in a row, or all of a short log.
pub data IsExcerpt (cleaned : String) : String → Type 0 where
  lines :
      (start n : ℕ)
      → n ≤ 17
      → IsExcerpt cleaned (join "\n" (take n (skip start (split_lines cleaned))))
  whole : length (split_lines cleaned) ≤ 15 → IsExcerpt cleaned cleaned

-- The signal has no frames, or its target is that of its last frame.
pub data IsLocated (s : FailureSignal) : Type 0 where
  unframed : s.traceback_frames ≡ [] → IsLocated s
  framed :
      (before : List TracebackFrame) (f : TracebackFrame)
      → s.traceback_frames ≡ before ++ f ∷ []
      → s.target_file ≡ some f.file_path
      → s.target_line ≡ some f.line_number
      → IsLocated s

-- Both, of the log whose escapes and line ends were replaced.
pub record IsSignal (cleaned : String) (s : FailureSignal) : Type 0 where
  pub excerpt : IsExcerpt cleaned s.extracted_snippet
  pub located : IsLocated s

length-skip {ℓ} : {A : Type ℓ} (n : ℕ) (xs : List A) → length (skip n xs) ≡ length xs - n
length-skip zero xs = omega arith
length-skip (suc n) [] = omega arith
length-skip (suc n) (x ∷ xs) = omega (arith, length-skip n xs)

surrounding-IsExcerpt :
    (cleaned : String) (char_pos window : ℕ)
    → window ≤ 8
    → IsExcerpt cleaned (extract_surrounding_lines cleaned char_pos window)
unfolding extract_surrounding_lines surrounding_lines
surrounding-IsExcerpt cleaned char_pos window h = IsExcerpt.lines _ _ (omega (arith, h))

first_match-holds :
    {A : Type 0} (P : FailureSignal → Type 0) (o : Option A) (f : A → FailureSignal)
    (other : FailureSignal)
    → ((a : A) → P (f a))
    → P other
    → P (first_match o f other)
first_match-holds P none f other h k = k
first_match-holds P (some a) f other h k = h a

record LastFrame (ms : List FrameMatch) : Type 0 where
  before : List TracebackFrame
  last : TracebackFrame
  frames : map frame_of ms ≡ before ++ last ∷ []
  target : last_target ms ≡ (some last.file_path, some last.line_number)

last_frame : (m : FrameMatch) (ms : List FrameMatch) → LastFrame (m ∷ ms)
last_frame m [] = record { before = []; last = frame_of m; frames = refl; target = refl }
last_frame m (n ∷ ms) =
    let rest = last_frame n ms in
    record {
      before = frame_of m ∷ rest.before;
      last = rest.last;
      frames = ap (λ t. frame_of m ∷ t) rest.frames;
      target = rest.target;
    }

located :
    (ms : List FrameMatch) (s : FailureSignal)
    → s.traceback_frames ≡ map frame_of ms
    → (s.target_file, s.target_line) ≡ last_target ms
    → IsLocated s
located [] s frames target = IsLocated.unframed frames
located (m ∷ ms) s frames target =
    let l = last_frame m ms in
    let both = target ∙ l.target in
    IsLocated.framed l.before l.last (frames ∙ l.frames) (ap (λ t. t.0) both) (ap (λ t. t.1) both)

module _ (patterns : Patterns) (cleaned : String) where
  with_frames-IsLocated : (s : FailureSignal) → IsLocated (with_frames patterns cleaned s)
  with_frames-IsLocated s =
      located (patterns.frames cleaned) (with_frames patterns cleaned s) refl refl

  of_pytest-IsLocated : (m : PytestMatch) → IsLocated (of_pytest patterns cleaned m)
  of_pytest-IsLocated m = elim (Option-cases (line_ref patterns cleaned m)) [
    | inl none_there ↦ IsLocated.unframed (ap (pytest_frames patterns cleaned m) none_there)
    | inr (r, there) ↦ elim (Bool-cases (is_blank m.file || r.line == 0)) [
      | inl e ↦ IsLocated.unframed (ap (pytest_frames patterns cleaned m) there ∙ rw e refl)
      | inr e ↦
          let f : TracebackFrame = record {
            file_path = m.file;
            line_number = r.line;
            function_name = some m.test;
            code_line = none;
          } in
          IsLocated.framed [] f (ap (pytest_frames patterns cleaned m) there ∙ rw e refl) refl
            (ap (λ (o : Option LineRef). elim o [ none ↦ none | some r ↦ some r.line ]) there)
    ]
  ]

  unclassified-IsExcerpt : IsExcerpt cleaned (unclassified patterns cleaned).extracted_snippet
  unclassified-IsExcerpt =
      let ls = split_lines cleaned in
      let tail = last_lines 15 ls in
      elim (Bool-cases (ltb 15 (length ls))) [
        | inl long ↦ rw long (
            rw (sym (take-all tail)) (
              IsExcerpt.lines (length ls - 15) (length tail)
                (omega (arith, length-skip (length ls - 15) ls))))
        | inr short ↦ rw short (IsExcerpt.whole (ground arith))
      ]

  plain :
      (c : FailureCategory) (t m e : String)
      → IsExcerpt cleaned e
      → IsSignal cleaned (plain_signal c t m e)
  plain c t m e h = record { excerpt = h; located = IsLocated.unframed refl }

  signal_of-IsSignal : IsSignal cleaned (signal_of patterns cleaned)
  unfolding signal_of
  signal_of-IsSignal =
      let P = IsSignal cleaned in
      let around = surrounding-IsExcerpt cleaned in
      first_match-holds P (patterns.module_not_found cleaned) _ _
        (λ (start, name). record {
          excerpt = around start 6 (omega arith);
          located = with_frames-IsLocated (of_module patterns cleaned (start, name));
        })
        (first_match-holds P (patterns.traceback_block cleaned) _ _
          (λ m. record {
            excerpt = around m.start 8 (omega arith);
            located = with_frames-IsLocated (of_traceback patterns cleaned m);
          })
          (first_match-holds P (patterns.pytest_failed cleaned) _ _
            (λ m. record {
              excerpt = around m.start 6 (omega arith);
              located = of_pytest-IsLocated m;
            })
            (first_match-holds P (patterns.ruff_lint cleaned) _ _
              (λ m. record {
                excerpt = around m.start 5 (omega arith);
                located = IsLocated.unframed refl;
              })
              (first_match-holds P (patterns.mypy cleaned) _ _
                (λ m. record {
                  excerpt = around m.start 5 (omega arith);
                  located = IsLocated.unframed refl;
                })
                (first_match-holds P (patterns.pip_resolution cleaned) _ _
                  (λ (start, name). plain _ _ _ _ (around start 6 (omega arith)))
                  (first_match-holds P (first_error 0 (split_lines cleaned)) _ _
                    (λ (idx, line). plain _ _ _ _ (IsExcerpt.lines _ _ (omega arith)))
                    (plain _ _ _ _ unclassified-IsExcerpt)))))))

-- Whatever the log, and whatever the patterns find in it: the snippet of the signal is at most 17 lines
-- in a row of the log without its escapes, or all of a log of at most 15 lines; and a signal that has
-- frames points to the file and the line of the last one.
pub filter_and_extract_signal-IsSignal :
    (patterns : Patterns) (raw_log : String)
    → IsSignal (unify_lines (strip_ansi_codes raw_log)) (filter_and_extract_signal patterns raw_log)
unfolding filter_and_extract_signal
filter_and_extract_signal-IsSignal patterns raw_log =
    signal_of-IsSignal patterns (unify_lines (strip_ansi_codes raw_log))
