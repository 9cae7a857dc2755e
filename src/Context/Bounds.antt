-- ===== src/Context/Bounds.antt =====
-- What `resolve_context` of src/packages/shared/context_resolver.py keeps to.
use akesis.Common.{
  ℕ, suc, ◌+◌, ◌≤◌, min, String, ◌≡◌, refl, inl, inr, true, ◌&&◌, Option, none, some, List, [], ◌∷◌,
  ◌++◌, arith, nat_eq, string_eq, leb, Bool-cases, codes, length, is_empty, length-append, All,
  All-append,
}
use akesis.Context.Search.{Limits, Scan, add_evidence}
use akesis.Context.Examine.{IsExtraction, examine-IsExtraction, clean}
use akesis.Context.Snippet.{line_range}
use akesis.Domain.{CodeEvidence, EvidencePackage}
use akesis.Paths.{Checkout}
use akesis.Paths.Shape.{IsContained}
use akesis.Context.Imports.{Candidate}
use akesis.Context.{resolve_in, FailureContext, candidate_targets}
use akesis.Context.Loop.{Invariant, scan-Invariant}

-- A snippet of a file of the repository: its path is safe, its lines are lines of the file, and they
-- are at most one more than the window.
pub record IsSound (limits : Limits) (root : Checkout) (e : CodeEvidence) : Type 0 where
  pub safe_path : String
  pub is_contained : IsContained root e.path safe_path
  pub exists : root.is_file safe_path ≡ true
  pub from_one : 1 ≤ e.start_line
  pub ordered : e.start_line ≤ e.end_line
  pub in_file : e.end_line ≤ e.total_file_lines
  pub in_window : e.end_line ≤ e.start_line + limits.max_window_lines

-- the characters of all snippets
abbrev pub chars_of : List CodeEvidence → ℕ
chars_of [] = 0
chars_of (e ∷ es) = length (codes e.content) + chars_of es

chars_of-append : (xs ys : List CodeEvidence) → chars_of (xs ++ ys) ≡ chars_of xs + chars_of ys
chars_of-append [] ys = omega arith
chars_of-append (x ∷ xs) ys = omega (arith, chars_of-append xs ys)

-- The lines cut out of a file that is not empty.
record IsRange (window total : ℕ) (range : ℕ × ℕ) : Type 0 where
  from_one : 1 ≤ range.0
  ordered : range.0 ≤ range.1
  in_file : range.1 ≤ total
  in_window : range.1 ≤ range.0 + window

head-IsRange :
    (window total : ℕ) → 1 ≤ window → 1 ≤ total → IsRange window total (1, min total window)
head-IsRange window total w t = record {
  from_one = omega arith;
  ordered = omega arith;
  in_file = omega arith;
  in_window = omega arith;
}

line_range-IsRange :
    (window : ℕ) (target : Option ℕ) (total : ℕ)
    → 1 ≤ window
    → 1 ≤ total
    → IsRange window total (line_range window target total)
line_range-IsRange window none total w t = head-IsRange window total w t
line_range-IsRange window (some n) total w t = elim (Bool-cases (leb 1 n && leb n total)) [
  | inl e ↦ rw e (
      let low : 1 ≤ n = ground arith in
      let high : n ≤ total = ground arith in
      record {
        from_one = omega arith;
        ordered = omega arith;
        in_file = omega arith;
        in_window = omega arith;
      })
  | inr e ↦ rw e (head-IsRange window total w t)
]

module _ (limits : Limits) (root : Checkout) (repo_name commit_sha : String)
    (window : 1 ≤ limits.max_window_lines) where
  IsExtraction-IsSound :
      (total : ℕ) (path : String) (target : Option ℕ) (e : CodeEvidence) (lines : List String)
      → IsExtraction limits root repo_name commit_sha total path target e lines
      → IsSound limits root e
  IsExtraction-IsSound total path target e lines x =
      let range =
        line_range-IsRange limits.max_window_lines target (length lines) window x.not_empty in
      rw (x.built) (record {
        safe_path = x.safe_path;
        is_contained = x.is_contained;
        exists = x.exists;
        from_one = range.from_one;
        ordered = range.ordered;
        in_file = range.in_file;
        in_window = range.in_window;
      })

  record IsWithin (left : ℕ) (s : Scan) : Type 0 where
    counted : length s.evidences + left ≤ limits.max_evidence_files
    summed : chars_of s.evidences ≡ s.total_chars
    in_budget : s.total_chars ≤ limits.max_total_chars
    sound : All (IsSound limits root) s.evidences

  add_evidence-IsWithin :
      (left : ℕ) (s : Scan) (e : CodeEvidence) (new : List Candidate)
      → IsSound limits root e × (s.total_chars + length (codes e.content) ≤ limits.max_total_chars)
      → IsWithin (suc left) s
      → IsWithin left (add_evidence limits root repo_name commit_sha e new s)
  add_evidence-IsWithin left s e new (sound, fits) h = record {
    counted = omega (arith, length-append s.evidences (e ∷ []), h.counted);
    summed = omega (arith, chars_of-append s.evidences (e ∷ []), h.summed);
    in_budget = fits;
    sound = All-append (IsSound limits root) s.evidences (e ∷ []) h.sound (sound, tt);
  }

  IsWithin-Invariant :
      Invariant limits root repo_name commit_sha (λ left cs s. IsWithin left s) (IsWithin 0)
  IsWithin-Invariant = record {
    ends = λ left s h. record {
      counted = omega (arith, h.counted);
      summed = h.summed;
      in_budget = h.in_budget;
      sound = h.sound;
    };
    stops = λ left c cs s note h. record {
      counted = omega (arith, h.counted);
      summed = h.summed;
      in_budget = h.in_budget;
      sound = h.sound;
    };
    skips = λ left c cs s note h. record {
      counted = h.counted;
      summed = h.summed;
      in_budget = h.in_budget;
      sound = h.sound;
    };
    takes = λ left c cs s e ext lines new same h.
        let x =
          examine-IsExtraction limits root repo_name commit_sha s.total_chars c e ext lines same in
        add_evidence-IsWithin left s e new
          (
            IsExtraction-IsSound s.total_chars (clean limits root repo_name commit_sha c)
                c.target_line e lines x,
            x.fits,
          )
          h;
  }

-- The evidence of a package keeps to the limits.
pub record IsBounded (limits : Limits) (root : Checkout) (p : EvidencePackage) : Type 0 where
  pub few_files : length p.code_evidences ≤ limits.max_evidence_files
  pub few_chars : chars_of p.code_evidences ≤ limits.max_total_chars
  pub sound : All (IsSound limits root) p.code_evidences

-- Whatever the failure and the repository, the evidence found in the repository is of at most the
-- permitted number of files, its snippets have together at most the permitted number of characters,
-- and each snippet is of an existing file whose path is safe and inside the repository, and has lines
-- from 1 to the length of the file, at most one more than the window. The window has a line.
pub resolve_in-IsBounded :
    (limits : Limits) (now : ℕ) (context : FailureContext) (root : Checkout) (notes : List String)
    → 1 ≤ limits.max_window_lines
    → IsBounded limits root (resolve_in limits now context root notes)
unfolding resolve_in
resolve_in-IsBounded limits now context root notes window =
    let candidates = candidate_targets context.signal in
    let start : Scan = record {
      candidates = candidates;
      evidences = [];
      notes = notes;
      total_chars = 0;
    } in
    let h =
      scan-Invariant limits root context.repository_name context.commit_sha
        (λ left cs s. IsWithin limits root context.repository_name context.commit_sha window left s)
        (IsWithin limits root context.repository_name context.commit_sha window 0)
        (IsWithin-Invariant limits root context.repository_name context.commit_sha window)
        limits.max_evidence_files candidates start
        (record { counted = omega arith; summed = refl; in_budget = omega arith; sound = tt }) in
    elim (Bool-cases (is_empty candidates)) [
      | inl e ↦ rw e (record { few_files = omega arith; few_chars = omega arith; sound = tt })
      | inr e ↦ rw e (record {
        few_files = omega (arith, h.counted);
        few_chars = omega (arith, h.summed, h.in_budget);
        sound = h.sound;
      })
    ]
