-- ===== src/Calls/Post.antt =====
-- Postconditions of programs that call others, with a rule for each way to put programs together.
use akesis.Common.{◌≡◌, refl, ℕ, suc, Bool, true, false, List, [], ◌∷◌, ◌++◌, All, All-append}
use akesis.Calls.{
  Outcome, returned, raised, Run, Program, proceed, ◌>>=◌, recover, rescue, conclude, finally,
  finish, throw, call, answered, ask, choose,
}

-- Whatever the calls are answered, Q holds of what the program returns or raises, and of its calls.
pub record Ensures {V E A : Type 0} (Q : Outcome E A → List V → Type 0) (m : Program V E A)
    : Type 0 where
  pub ensures : (n : ℕ) → let r = m n in Q r.outcome r.events

module _ {V E A : Type 0} (Q R : Outcome E A → List V → Type 0) (m : Program V E A) where
  pub Ensures-imp : Ensures Q m → ((o : Outcome E A) (vs : List V) → Q o vs → R o vs) → Ensures R m
  Ensures-imp h k = record { ensures = λ n. let r = m n in k r.outcome r.events (h.ensures n) }

module _ {V E A B : Type 0} (Q : Outcome E A → List V → Type 0) (R : Outcome E B → List V → Type 0)
    (f : A → Program V E B) where
  proceed-Post :
      (o : Outcome E A) (vs : List V) (n : ℕ)
      → Q o vs
      → ((a : A) (vs : List V) → Q (returned a) vs → Ensures (λ o ws. R o (vs ++ ws)) (f a))
      → ((e : E) (vs : List V) → Q (raised e) vs → R (raised e) vs)
      → let r = proceed (record { outcome = o; events = vs; reads = n }) f in R r.outcome r.events
  proceed-Post (returned a) vs n q k l = (k a vs q).ensures n
  proceed-Post (raised e) vs n q k l = l e vs q

  pub bind-Ensures :
      (m : Program V E A)
      → Ensures Q m
      → ((a : A) (vs : List V) → Q (returned a) vs → Ensures (λ o ws. R o (vs ++ ws)) (f a))
      → ((e : E) (vs : List V) → Q (raised e) vs → R (raised e) vs)
      → Ensures R (m >>= f)
  unfolding ◌>>=◌
  bind-Ensures m h k l = record {
    ensures = λ n. let r = m n in proceed-Post r.outcome r.events r.reads (h.ensures n) k l;
  }

module _ {V E F A : Type 0} (Q : Outcome E A → List V → Type 0) (R : Outcome F A → List V → Type 0)
    (f : E → Program V F A) where
  recover-Post :
      (o : Outcome E A) (vs : List V) (n : ℕ)
      → Q o vs
      → ((a : A) (vs : List V) → Q (returned a) vs → R (returned a) vs)
      → ((e : E) (vs : List V) → Q (raised e) vs → Ensures (λ o ws. R o (vs ++ ws)) (f e))
      → let r = recover (record { outcome = o; events = vs; reads = n }) f in R r.outcome r.events
  recover-Post (returned a) vs n q k l = k a vs q
  recover-Post (raised e) vs n q k l = (l e vs q).ensures n

  pub rescue-Ensures :
      (m : Program V E A)
      → Ensures Q m
      → ((a : A) (vs : List V) → Q (returned a) vs → R (returned a) vs)
      → ((e : E) (vs : List V) → Q (raised e) vs → Ensures (λ o ws. R o (vs ++ ws)) (f e))
      → Ensures R (rescue m f)
  unfolding rescue
  rescue-Ensures m h k l = record {
    ensures = λ n. let r = m n in recover-Post r.outcome r.events r.reads (h.ensures n) k l;
  }

module _ {V E A : Type 0} (Q R : Outcome E A → List V → Type 0)
    (C : Outcome E (Unit {0}) → List V → Type 0) where
  conclude-Post :
      (r : Run V E A) (o : Outcome E (Unit {0})) (vs : List V) (n : ℕ)
      → Q r.outcome r.events
      → C o vs
      → ((o : Outcome E A) (vs ws : List V) → Q o vs → C (returned tt) ws → R o (vs ++ ws))
      → ((o : Outcome E A) (e : E) (vs ws : List V)
          → Q o vs
          → C (raised e) ws
          → R (raised e) (vs ++ ws))
      → let s = conclude r (record { outcome = o; events = vs; reads = n }) in R s.outcome s.events
  conclude-Post r (returned tt) vs n q c k l = k r.outcome r.events vs q c
  conclude-Post r (raised e) vs n q c k l = l r.outcome e r.events vs q c

  pub finally-Ensures :
      (m : Program V E A) (c : Program V E (Unit {0}))
      → Ensures Q m
      → Ensures C c
      → ((o : Outcome E A) (vs ws : List V) → Q o vs → C (returned tt) ws → R o (vs ++ ws))
      → ((o : Outcome E A) (e : E) (vs ws : List V)
          → Q o vs
          → C (raised e) ws
          → R (raised e) (vs ++ ws))
      → Ensures R (finally m c)
  unfolding finally
  finally-Ensures m c h d k l = record {
    ensures = λ n.
        let r = m n in
        let s = c r.reads in
        conclude-Post r s.outcome s.events s.reads (h.ensures n) (d.ensures r.reads) k l;
  }

module _ {V E A B : Type 0} (R : Outcome E B → List V → Type 0) (v : A → V) (f : ℕ → A)
    (k : A → Program V E B) where
  pub bind-answered :
      ((a : A) → Ensures (λ o ws. R o (v a ∷ ws)) (k a)) → Ensures R (answered v f >>= k)
  unfolding answered ◌>>=◌
  bind-answered h = record { ensures = λ n. (h (f n)).ensures (suc n) }

module _ {V E A B : Type 0} (R : Outcome E B → List V → Type 0) (f : ℕ → A)
    (k : A → Program V E B) where
  pub bind-ask : ((a : A) → Ensures R (k a)) → Ensures R (ask (λ n. returned (f n)) >>= k)
  unfolding ask ◌>>=◌
  bind-ask h = record { ensures = λ n. (h (f n)).ensures (suc n) }

module _ {V E A B : Type 0} (R : Outcome E B → List V → Type 0) (v : V)
    (k : A → Program V E B) where
  call-Post :
      (o : Outcome E A) (n : ℕ)
      → ((a : A) → Ensures (λ o ws. R o (v ∷ ws)) (k a))
      → ((e : E) → R (raised e) (v ∷ []))
      → let r = proceed (record { outcome = o; events = v ∷ []; reads = n }) k in
        R r.outcome r.events
  call-Post (returned a) n h l = (h a).ensures n
  call-Post (raised e) n h l = l e

  pub bind-call :
      (f : ℕ → Outcome E A)
      → ((a : A) → Ensures (λ o ws. R o (v ∷ ws)) (k a))
      → ((e : E) → R (raised e) (v ∷ []))
      → Ensures R (call v f >>= k)
  unfolding call ◌>>=◌
  bind-call f h l = record { ensures = λ n. call-Post (f n) (suc n) h l }

module _ {V E A : Type 0} (R : Outcome E A → List V → Type 0) where
  pub finish-Ensures : (a : A) → R (returned a) [] → Ensures R (finish a)
  unfolding finish
  finish-Ensures a h = record { ensures = λ n. h }

  pub throw-Ensures : (e : E) → R (raised e) [] → Ensures R (throw e)
  unfolding throw
  throw-Ensures e h = record { ensures = λ n. h }

  pub choose-Ensures :
      (c : Bool) (m k : Program V E A)
      → (c ≡ true → Ensures R m)
      → (c ≡ false → Ensures R k)
      → Ensures R (choose c m k)
  unfolding choose
  choose-Ensures true m k h g = record { ensures = λ n. (h refl).ensures n }
  choose-Ensures false m k h g = record { ensures = λ n. (g refl).ensures n }

module _ {V E A B : Type 0} (R : Outcome E B → List V → Type 0) (k : A → Program V E B) where
  pub bind-finish : (a : A) → Ensures R (k a) → Ensures R (finish a >>= k)
  unfolding finish ◌>>=◌
  bind-finish a h = record { ensures = λ n. h.ensures n }

  pub bind-throw : (e : E) → R (raised e) [] → Ensures R (throw e >>= k)
  unfolding throw ◌>>=◌
  bind-throw e h = record { ensures = λ n. h }

-- Every call of the program has a property.
abbrev Each : {V E A : Type 0} → (V → Type 0) → Outcome E A → List V → Type 0
Each P o vs = All P vs

pub record Emits {V E A : Type 0} (P : V → Type 0) (m : Program V E A) : Type 0 where
  pub emits : Ensures (Each P) m

module _ {V E A : Type 0} (P : V → Type 0) where
  pub finish-Emits : (a : A) → Emits {E = E} P (finish a)
  unfolding finish
  finish-Emits a = record { emits = record { ensures = λ n. tt } }

  pub throw-Emits : (e : E) → Emits {A = A} P (throw e)
  unfolding throw
  throw-Emits e = record { emits = record { ensures = λ n. tt } }

  pub call-Emits : (v : V) (f : ℕ → Outcome E A) → P v → Emits P (call v f)
  unfolding call
  call-Emits v f h = record { emits = record { ensures = λ n. (h, tt) } }

  pub answered-Emits :
      (v : A → V) (f : ℕ → A) → ((a : A) → P (v a)) → Emits {E = E} P (answered v f)
  unfolding answered
  answered-Emits v f h = record { emits = record { ensures = λ n. (h (f n), tt) } }

  pub ask-Emits : (f : ℕ → Outcome E A) → Emits P (ask f)
  unfolding ask
  ask-Emits f = record { emits = record { ensures = λ n. tt } }

  pub choose-Emits :
      (c : Bool) (m k : Program V E A) → Emits P m → Emits P k → Emits P (choose c m k)
  unfolding choose
  choose-Emits true m k h g = h
  choose-Emits false m k h g = g

  pub finally-Emits :
      (m : Program V E A) (c : Program V E (Unit {0}))
      → Emits P m
      → Emits P c
      → Emits P (finally m c)
  finally-Emits m c h d = record {
    emits =
        finally-Ensures (Each P) (Each P) (Each P) m c h.emits d.emits
          (λ o vs ws hv hw. All-append P vs ws hv hw) (λ o e vs ws hv hw. All-append P vs ws hv hw);
  }

module _ {V E A : Type 0} (P : V → Type 0) where
  pub after-Emits :
      (m : Program V E A) (vs : List V)
      → All P vs
      → Emits P m
      → Ensures (λ o ws. All P (vs ++ ws)) m
  after-Emits m vs hv h = record {
    ensures = λ n. let r = m n in All-append P vs r.events hv (h.emits.ensures n);
  }

module _ {V E A B : Type 0} (P : V → Type 0) where
  pub bind-Emits :
      (m : Program V E A) (f : A → Program V E B)
      → Emits P m
      → ((a : A) → Emits P (f a))
      → Emits P (m >>= f)
  bind-Emits m f h k = record {
    emits =
        bind-Ensures (Each P) (Each P) f m h.emits (λ a vs hv. after-Emits P (f a) vs hv (k a))
          (λ e vs hv. hv);
  }

module _ {V E F A : Type 0} (P : V → Type 0) where
  pub rescue-Emits :
      (m : Program V E A) (f : E → Program V F A)
      → Emits P m
      → ((e : E) → Emits P (f e))
      → Emits P (rescue m f)
  rescue-Emits m f h k = record {
    emits =
        rescue-Ensures (Each P) (Each P) f m h.emits (λ a vs hv. hv)
          (λ e vs hv. after-Emits P (f e) vs hv (k e));
  }

pub ruleset emitting = (
  finish-Emits, throw-Emits, call-Emits, answered-Emits, ask-Emits, choose-Emits, finally-Emits,
  bind-Emits, rescue-Emits,
)
