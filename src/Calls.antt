-- ===== src/Calls.antt =====
-- Programs that call other programs: what they return or raise, and the calls they make, in order.
-- The clients of src/packages/sdk are such programs.
pub mod Post
use akesis.Common.{ℕ, suc, Bool, true, false, List, [], ◌∷◌, ◌++◌}

pub data Outcome (E A : Type 0) : Type 0 where
  returned : A → Outcome E A
  raised : E → Outcome E A

-- What a program did; `reads` counts the calls, so that each may be answered differently.
pub record Run (V E A : Type 0) : Type 0 where
  pub outcome : Outcome E A
  pub events : List V
  pub reads : ℕ

abbrev pub Program : Type 0 → Type 0 → Type 0 → Type 0
Program V E A = ℕ → Run V E A

-- `if c: m else: k`
unfoldable pub choose : {V E A : Type 0} → Bool → Program V E A → Program V E A → Program V E A
choose c m k n = elim c [ true ↦ m n | false ↦ k n ]

module _ {V E A : Type 0} where
  unfoldable pub finish : A → Program V E A
  finish a n = record { outcome = returned a; events = []; reads = n }

  unfoldable pub throw : E → Program V E A
  throw e n = record { outcome = raised e; events = []; reads = n }

  -- a call that shows as an event
  unfoldable pub call : V → (ℕ → Outcome E A) → Program V E A
  call v f n = record { outcome = f n; events = v ∷ []; reads = suc n }

  -- a call whose answer shows too
  unfoldable pub answered : (A → V) → (ℕ → A) → Program V E A
  answered v f n = record { outcome = returned (f n); events = v (f n) ∷ []; reads = suc n }

  -- a question that changes nothing
  unfoldable pub ask : (ℕ → Outcome E A) → Program V E A
  ask f n = record { outcome = f n; events = []; reads = suc n }

  -- the events before a run
  abbrev pub after : List V → Run V E A → Run V E A
  after vs r = record r { events = vs ++ r.events }

module _ {V E F A : Type 0} where
  abbrev pub recover : Run V E A → (E → Program V F A) → Run V F A
  recover r h = elim r.outcome [
    | returned a ↦ record { outcome = returned a; events = r.events; reads = r.reads }
    | raised e ↦ after r.events (h e r.reads)
  ]

  -- `try: m except ...: h`
  unfoldable pub rescue : Program V E A → (E → Program V F A) → Program V F A
  rescue m h n = recover (m n) h

module _ {V E A B : Type 0} where
  abbrev pub proceed : Run V E A → (A → Program V E B) → Run V E B
  proceed r f = elim r.outcome [
    | returned a ↦ after r.events (f a r.reads)
    | raised e ↦ record { outcome = raised e; events = r.events; reads = r.reads }
  ]

  infixl 5 ◌>>=◌ ◌>>◌
  unfoldable pub ◌>>=◌ : Program V E A → (A → Program V E B) → Program V E B
  ◌>>=◌ m f n = proceed (m n) f

  abbrev pub ◌>>◌ : Program V E A → Program V E B → Program V E B
  m >> k = m >>= λ _. k

module _ {V E A : Type 0} where
  abbrev pub conclude : Run V E A → Run V E (Unit {0}) → Run V E A
  conclude r c = elim c.outcome [
    | returned _ ↦ record { outcome = r.outcome; events = r.events ++ c.events; reads = c.reads }
    | raised e ↦ record { outcome = raised e; events = r.events ++ c.events; reads = c.reads }
  ]

  -- `try: m finally: c`; an exception of `c` replaces what `m` did
  unfoldable pub finally : Program V E A → Program V E (Unit {0}) → Program V E A
  finally m c n = let r = m n in conclude r (c r.reads)
