-- ===== src/Runtime/Keeps.antt =====
-- Invariants of the state that actions keep, whether they return or raise.
use akesis.Common.{ℕ, suc, String, ◌≡◌, refl, Bool, true, false, nat_eq, string_eq}
use akesis.Runtime.State.{World}
use akesis.Runtime.Action.{
  ErrorKind, Error, Result, ok, err, M, pure, fail, raise, raise_if, catch, lift, handle, choose,
  continue, ◌>>=◌, now, uuid_hex, external, attempt,
}

pub record Keeps {A : Type 0} (P : World → Type 0) (m : M A) : Type 0 where
  pub after : (w : World) → P w → P (m w).1

-- An invariant that says nothing of the readings.
pub record Timeless (P : World → Type 0) : Type 0 where
  pub later : (w : World) → P w → P (record w { reads = suc w.reads })

module _ {A : Type 0} {P : World → Type 0} where
  pub Keeps-pure : (a : A) → Keeps P (pure a)
  Keeps-pure a = record { after = λ w h. h }

  pub Keeps-fail : (e : Error) → Keeps {A = A} P (fail e)
  Keeps-fail e = record { after = λ w h. h }

  pub Keeps-raise : (k : ErrorKind) (s : String) → Keeps {A = A} P (raise k s)
  Keeps-raise k s = record { after = λ w h. h }

  pub Keeps-external : Timeless P → (f : ℕ → Result A) → Keeps P (external f)
  Keeps-external t f = record { after = λ w h. t.later w h }

  pub Keeps-attempt : Timeless P → (f : ℕ → Result A) → Keeps P (attempt f)
  Keeps-attempt t f = record { after = λ w h. t.later w h }

  pub Keeps-choose : (c : Bool) (m n : M A) → Keeps P m → Keeps P n → Keeps P (choose c m n)
  Keeps-choose true m n km kn = km
  Keeps-choose false m n km kn = kn

  handle-keeps :
      (r : Result A × World) (h : Error → M A)
      → P r.1
      → ((e : Error) → Keeps P (h e))
      → P (handle r h).1
  handle-keeps (ok a, w) h p k = p
  handle-keeps (err e, w) h p k = (k e).after w p

  pub Keeps-catch :
      (m : M A) (h : Error → M A) → Keeps P m → ((e : Error) → Keeps P (h e)) → Keeps P (catch m h)
  Keeps-catch m h km kh = record { after = λ w p. handle-keeps (m w) h (km.after w p) kh }

module _ {A B : Type 0} {P : World → Type 0} where
  continue-keeps :
      (r : Result A × World) (f : A → M B) → P r.1 → ((a : A) → Keeps P (f a)) → P (continue r f).1
  continue-keeps (ok a, w) f p k = (k a).after w p
  continue-keeps (err e, w) f p k = p

  pub Keeps-bind :
      (m : M A) (f : A → M B) → Keeps P m → ((a : A) → Keeps P (f a)) → Keeps P (m >>= f)
  Keeps-bind m f km kf = record { after = λ w p. continue-keeps (m w) f (km.after w p) kf }

  -- what follows a check that changes nothing may use that the check passed
  check-after :
      (r : Result A × World) (f : A → M B)
      → P r.1
      → ((a : A) → r.0 ≡ ok a → Keeps P (f a))
      → P (continue r f).1
  check-after (ok a, w) f p k = (k a refl).after w p
  check-after (err e, w) f p k = p

  pub Keeps-check :
      (m : M A) (f : A → M B)
      → Keeps P m
      → ((w : World) (a : A) → (m w).0 ≡ ok a → Keeps P (f a))
      → Keeps P (m >>= f)
  Keeps-check m f km kf = record { after = λ w p. check-after (m w) f (km.after w p) (kf w) }

module _ {A : Type 0} {P : World → Type 0} where
  pub Keeps-branch :
      (c : Bool) (m n : M A)
      → (c ≡ true → Keeps P m)
      → (c ≡ false → Keeps P n)
      → Keeps P (choose c m n)
  Keeps-branch true m n km kn = km refl
  Keeps-branch false m n km kn = kn refl

  pub Keeps-lift : (r : Result A) → Keeps P (lift r)
  Keeps-lift r = record { after = λ w h. h }

module _ {P : World → Type 0} where
  pub Keeps-now : Timeless P → Keeps P now
  Keeps-now t = record { after = λ w h. t.later w h }

  pub Keeps-uuid_hex : Timeless P → Keeps P uuid_hex
  Keeps-uuid_hex t = record { after = λ w h. t.later w h }

  pub Keeps-raise_if : (c : Bool) (k : ErrorKind) (s : String) → Keeps P (raise_if c k s)
  Keeps-raise_if true k s = record { after = λ w h. h }
  Keeps-raise_if false k s = record { after = λ w h. h }

pub ruleset keeps_rules = (
  Keeps-pure, Keeps-fail, Keeps-raise, Keeps-external, Keeps-attempt, Keeps-choose, Keeps-catch,
  Keeps-bind, Keeps-now, Keeps-uuid_hex, Keeps-raise_if, Keeps-lift,
)
