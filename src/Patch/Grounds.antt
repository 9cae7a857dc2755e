-- ===== src/Patch/Grounds.antt =====
-- The files that `validate_patch` of src/packages/shared/patch_validator.py knows, and those that it
-- takes for tests.
use akesis.Common.{
  String, ◌≡◌, refl, sym, ap, ◌∙◌, inl, inr, Bool, true, false, not, ◌&&◌, ◌||◌, Option, none, some,
  List, [], ◌∷◌, ◌++◌, map, ◌==◌, nat_eq, string_eq, Bool-cases, Option-cases, codes, lower, starts,
  has_part, is_empty, is_blank, any, all, contains, ends, and_left, and_right, refute,
}
use akesis.Domain.{DiagnosticResult, EvidencePackage, TracebackFrame}
use akesis.Paths.{Checkout, is_path_safe_and_within_root}
use akesis.Paths.Shape.{IsContained, is_path_safe-IsContained}
use akesis.Patch.Patterns.{is_test_file, is_test_lower}
use akesis.Patch.{
  normalized, normalized_all, normalized_option, grounded_by_evidence, grounded_by_diagnosis,
  exists_in_repo, only_tests, grounded_paths,
}
use akesis.Config.{Settings, Python}

-- Why a path is known.
pub data IsKnown (repo_root : Option Checkout) (evidence : Option EvidencePackage)
    (diagnosis : Option DiagnosticResult) (path : String) : Type 0 where
  exists :
      (root : Checkout) (candidate : String)
      → repo_root ≡ some root
      → IsContained root path candidate
      → root.is_file candidate ≡ true
      → IsKnown repo_root evidence diagnosis path
  in_evidence :
      (e : EvidencePackage)
      → evidence ≡ some e
      → any (λ c. path == c.path) e.code_evidences ≡ true
      → IsKnown repo_root evidence diagnosis path
  in_signal :
      (e : EvidencePackage) (file : String)
      → evidence ≡ some e
      → e.failure_context.signal.target_file ≡ some file
      → path ≡ normalized file
      → IsKnown repo_root evidence diagnosis path
  in_traceback :
      (e : EvidencePackage)
      → evidence ≡ some e
      → any (λ frame. path == normalized frame.file_path) e.failure_context.signal.traceback_frames
        ≡ true
      → IsKnown repo_root evidence diagnosis path
  in_diagnosis :
      (d : DiagnosticResult) (file : String)
      → diagnosis ≡ some d
      → d.proposal.target_file ≡ some file
      → path ≡ normalized file
      → IsKnown repo_root evidence diagnosis path

contains-append :
    (x : String) (ys zs : List String) → contains x (ys ++ zs) ≡ (contains x ys || contains x zs)
contains-append x [] zs = refl
contains-append x (y ∷ ys) zs = elim (Bool-cases (x == y)) [
  | inl e ↦ rw e refl
  | inr e ↦ rw (e, contains-append x ys zs) refl
]

contains-map :
    {A : Type 0} (x : String) (f : A → String) (xs : List A)
    → contains x (map f xs) ≡ any (λ a. x == f a) xs
contains-map x f [] = refl
contains-map x f (a ∷ xs) = ap (λ b. x == f a || b) (contains-map x f xs)

normalized-frames :
    (x : String) (frames : List TracebackFrame)
    → contains x (normalized_all (map (λ f. f.file_path) frames)) ≡ true
    → any (λ frame. x == normalized frame.file_path) frames ≡ true
normalized-frames x [] h = h
normalized-frames x (f ∷ frames) h = elim (Bool-cases (is_blank f.file_path)) [
  | inl e ↦
      let later = normalized-frames x frames (rw e at h) in
      elim (Bool-cases (x == normalized f.file_path)) [
        | inl same ↦ rw same refl
        | inr other ↦ rw other later
      ]
  | inr e ↦ elim (Bool-cases (x == normalized f.file_path)) [
    | inl same ↦ rw same refl
    | inr other ↦
        let k : contains x (normalized_all (map (λ g. g.file_path) frames)) ≡ true =
          rw (e, other) at h in
        rw other (normalized-frames x frames k)
  ]
]

normalized-option :
    (x : String) (file : Option String)
    → contains x (normalized_option file) ≡ true
    → (f : String) × (file ≡ some f) × (x ≡ normalized f)
normalized-option x none h = let e : false ≡ true = h in cc
normalized-option x (some f) h = elim (Bool-cases (is_blank f)) [
  | inl e ↦ let k : false ≡ true = rw e at h in cc
  | inr e ↦ elim (Bool-cases (x == normalized f)) [
    | inl same ↦ (f, refl, (string_eq.same_iff x (normalized f)).0 same)
    | inr other ↦ let k : false ≡ true = rw (e, other) at h in cc
  ]
]

module _ (repo_root : Option Checkout) (evidence : Option EvidencePackage)
    (diagnosis : Option DiagnosticResult) (path : String) where
  exists-IsKnown :
      (root : Checkout)
      → repo_root ≡ some root
      → exists_in_repo (some root) path ≡ true
      → IsKnown repo_root evidence diagnosis path
  exists-IsKnown root e h = elim (Option-cases (is_path_safe_and_within_root root path)) [
    | inl absent ↦ let k : false ≡ true = rw (exists_in_repo, absent) at h in cc
    | inr (candidate, found) ↦
        IsKnown.exists root candidate e (is_path_safe-IsContained root path candidate found)
          (rw (exists_in_repo, found) at h)
  ]

  evidence-IsKnown :
      (e : EvidencePackage)
      → evidence ≡ some e
      → contains path (grounded_by_evidence (some e)) ≡ true
      → IsKnown repo_root evidence diagnosis path
  evidence-IsKnown e given h =
      let signal = e.failure_context.signal in
      elim (Bool-cases (contains path (map (λ c. c.path) e.code_evidences))) [
        | inl found ↦
            IsKnown.in_evidence e given
              (sym (contains-map path (λ c. c.path) e.code_evidences) ∙ found)
        | inr absent ↦ elim (Bool-cases (contains path (normalized_option signal.target_file))) [
          | inl found ↦
              let (f, named, same) = normalized-option path signal.target_file found in
              IsKnown.in_signal e f given named same
          | inr other ↦ IsKnown.in_traceback e given (
              normalized-frames path signal.traceback_frames
                (rw (contains-append, absent, contains-append, other) at h))
        ]
      ]

  diagnosis-IsKnown :
      (d : DiagnosticResult)
      → diagnosis ≡ some d
      → contains path (grounded_by_diagnosis (some d)) ≡ true
      → IsKnown repo_root evidence diagnosis path
  diagnosis-IsKnown d given h =
      let (f, named, same) = normalized-option path d.proposal.target_file h in
      IsKnown.in_diagnosis d f given named same

module _ (settings : Settings) (python : Python) (repo_root : Option Checkout) (path : String) where
  root-IsKnown :
      (root : Option Checkout) (evidence : Option EvidencePackage)
      (diagnosis : Option DiagnosticResult)
      → repo_root ≡ root
      → exists_in_repo root path ≡ true
      → IsKnown repo_root evidence diagnosis path
  root-IsKnown none e d same h = let k : false ≡ true = h in cc
  root-IsKnown (some root) e d same h = exists-IsKnown repo_root e d path root same h

  named-IsKnown :
      (evidence : Option EvidencePackage) (diagnosis : Option DiagnosticResult)
      → (contains path (grounded_by_evidence evidence)
          || contains path (grounded_by_diagnosis diagnosis))
        ≡ true
      → IsKnown repo_root evidence diagnosis path
  named-IsKnown none none h = let k : false ≡ true = h in cc
  named-IsKnown none (some d) h = diagnosis-IsKnown repo_root none (some d) path d refl h
  named-IsKnown (some e) diagnosis h =
      elim (Bool-cases (contains path (grounded_by_evidence (some e)))) [
        | inl found ↦ evidence-IsKnown repo_root (some e) diagnosis path e refl found
        | inr absent ↦ after_evidence e diagnosis (rw absent at h)
      ]
    where
      after_evidence :
          (e : EvidencePackage) (diagnosis : Option DiagnosticResult)
          → contains path (grounded_by_diagnosis diagnosis) ≡ true
          → IsKnown repo_root (some e) diagnosis path
      after_evidence e none h = let k : false ≡ true = h in cc
      after_evidence e (some d) h = diagnosis-IsKnown repo_root (some e) (some d) path d refl h

  -- What the test of grounding lets through is known.
  pub tests-IsKnown :
      (evidence : Option EvidencePackage) (diagnosis : Option DiagnosticResult)
      → (contains path (grounded_paths settings python evidence diagnosis repo_root)
          || exists_in_repo repo_root path)
        ≡ true
      → IsKnown repo_root evidence diagnosis path
  tests-IsKnown evidence diagnosis h =
      elim (Bool-cases
        (contains path (grounded_paths settings python evidence diagnosis repo_root))) [
          | inl named ↦ named-IsKnown evidence diagnosis (
              sym (
                contains-append path (grounded_by_evidence evidence)
                  (grounded_by_diagnosis diagnosis))
              ∙ named)
          | inr other ↦ root-IsKnown repo_root evidence diagnosis refl (rw other at h)
        ]

-- In a folder `test` or `tests`, or named `..._test.py`, in any case.
abbrev pub is_plain_test : String → Bool
is_plain_test path =
    let text = map lower (codes path) in
    (starts text (codes "test/") || starts text (codes "tests/"))
    || ((has_part text (codes "/test/") || has_part text (codes "/tests/"))
        || ends text (codes "_test.py"))

plain-is_test_file : (path : String) → is_plain_test path ≡ true → is_test_file path ≡ true
unfolding is_test_file is_test_lower
plain-is_test_file path h =
    widen
      (starts (map lower (codes path)) (codes "test/")
        || starts (map lower (codes path)) (codes "tests/"))
      (has_part (map lower (codes path)) (codes "/test/")
        || has_part (map lower (codes path)) (codes "/tests/"))
      (ends (map lower (codes path)) (codes "_test.py")) _ _ h
  where
    widen : (a b c d e : Bool) → (a || (b || c)) ≡ true → (a || (b || ((c || d) || e))) ≡ true
    widen true b c d e h = refl
    widen false true c d e h = refl
    widen false false true d e h = refl
    widen false false false d e h = let k : false ≡ true = h in cc

all-plain : (paths : List String) → all is_plain_test paths ≡ true → all is_test_file paths ≡ true
all-plain [] h = refl
all-plain (p ∷ paths) h =
    rw (plain-is_test_file p (and_left _ _ h)) (all-plain paths (and_right _ _ h))

-- Where the validator finds more than tests, there is no path, or one that is no plain test.
pub beyond_tests :
    (paths : List String)
    → only_tests paths ≡ false
    → (not (is_empty paths) && all is_plain_test paths) ≡ false
beyond_tests [] h = refl
beyond_tests (p ∷ paths) h = refute _ (λ plain. sym h ∙ all-plain (p ∷ paths) plain)
