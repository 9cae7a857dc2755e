-- ===== src/Context/Loop.antt =====
-- An invariant of the loop of `resolve_context` of src/packages/shared/context_resolver.py.
use akesis.Common.{ℕ, zero, suc, String, ◌≡◌, refl, List, [], ◌∷◌, ◌++◌, nat_eq, string_eq}
use akesis.Context.Search.{add_evidence, found, Limits, scan, Scan, Outcome, add_note, examine}
use akesis.Paths.{Checkout}
use akesis.Context.Imports.{Candidate}
use akesis.Domain.{CodeEvidence}

module _ (limits : Limits) (root : Checkout) (repo_name commit_sha : String) where
  -- What holds before each candidate, by the files that may still be taken, the candidates that are
  -- left and the state, and what holds after the loop.
  pub record Invariant (P : ℕ → List Candidate → Scan → Type 0) (Q : Scan → Type 0) : Type 0 where
    pub ends : (left : ℕ) (s : Scan) → P left [] s → Q s
    pub stops :
        (left : ℕ) (c : Candidate) (cs : List Candidate) (s : Scan) (note : String)
        → P left (c ∷ cs) s
        → Q (add_note limits root repo_name commit_sha note s)
    pub skips :
        (left : ℕ) (c : Candidate) (cs : List Candidate) (s : Scan) (note : String)
        → P (suc left) (c ∷ cs) s
        → P (suc left) cs (add_note limits root repo_name commit_sha note s)
    pub takes :
        (left : ℕ) (c : Candidate) (cs : List Candidate) (s : Scan) (e : CodeEvidence)
        (ext : String) (lines : List String) (new : List Candidate)
        → examine limits root repo_name commit_sha s.total_chars c ≡ Outcome.extracted e ext lines
        → P (suc left) (c ∷ cs) s
        → P left (cs ++ new) (add_evidence limits root repo_name commit_sha e new s)

  pub scan-Invariant :
      (P : ℕ → List Candidate → Scan → Type 0) (Q : Scan → Type 0)
      → Invariant P Q
      → (left : ℕ) (cs : List Candidate) (s : Scan) → P left cs s
      → Q (scan limits root repo_name commit_sha left cs s)
  unfolding scan
  scan-Invariant P Q inv left [] s h = inv.ends left s h
  scan-Invariant P Q inv zero (c ∷ cs) s h = inv.stops zero c cs s _ h
  scan-Invariant P Q inv (suc left) (c ∷ cs) s h =
      go (λ s' h'. scan-Invariant P Q inv (suc left) cs s' h')
        (λ new s' h'. scan-Invariant P Q inv left (cs ++ new) s' h')
        (examine limits root repo_name commit_sha s.total_chars c) refl
    where
      go :
          ((s' : Scan)
            → P (suc left) cs s'
            → Q (scan limits root repo_name commit_sha (suc left) cs s'))
          → ((new : List Candidate) (s' : Scan)
              → P left (cs ++ new) s'
              → Q (scan limits root repo_name commit_sha left (cs ++ new) s'))
          → (o : Outcome) → examine limits root repo_name commit_sha s.total_chars c ≡ o
          → Q (elim o [
            | Outcome.skipped note ↦
                scan limits root repo_name commit_sha
                  (suc left)
                  cs
                  (add_note limits root repo_name commit_sha note s)
            | Outcome.stopped note ↦ add_note limits root repo_name commit_sha note s
            | Outcome.extracted e ext lines ↦
                let new = found limits root repo_name commit_sha ext lines s in
                scan limits root repo_name commit_sha left
                  (cs ++ new)
                  (add_evidence limits root repo_name commit_sha e new s)
          ])
      go skip take (Outcome.skipped note) same =
          skip (add_note limits root repo_name commit_sha note s) (inv.skips left c cs s note h)
      go skip take (Outcome.stopped note) same = inv.stops (suc left) c cs s note h
      go skip take (Outcome.extracted e ext lines) same =
          let new = found limits root repo_name commit_sha ext lines s in
          take new (add_evidence limits root repo_name commit_sha e new s)
            (inv.takes left c cs s e ext lines new same h)
