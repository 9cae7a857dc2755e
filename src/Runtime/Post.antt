-- ===== src/Runtime/Post.antt =====
-- Postconditions of actions, with a rule for each way to build an action.
use akesis.Runtime.State.{World}
use akesis.Runtime.Action.{Error, Result, ok, err, M, catch, ◌>>=◌}
use akesis.Runtime.{continue, handle}
use akesis.Common.{◌≡◌, refl}

-- `Q` holds where the action returned, `E` where it raised.
abbrev pub Post :
    {A : Type 0} → (A → World → Type 0) → (Error → World → Type 0) → Result A × World → Type 0
Post Q E (ok a, w) = Q a w
Post Q E (err e, w) = E e w

module _ {A B : Type 0} (Q : A → World → Type 0) (E : Error → World → Type 0)
    (R : B → World → Type 0) (F : Error → World → Type 0) (f : A → M B) where
  continue-Post :
      (r : Result A × World)
      → Post Q E r
      → ((a : A) (w : World) → Q a w → Post R F (f a w))
      → ((e : Error) (w : World) → E e w → F e w)
      → Post R F (continue r f)
  continue-Post (ok a, w) h k l = k a w h
  continue-Post (err e, w) h k l = l e w h

  pub bind-Post :
      (m : M A) (w : World)
      → Post Q E (m w)
      → ((a : A) (w : World) → Q a w → Post R F (f a w))
      → ((e : Error) (w : World) → E e w → F e w)
      → Post R F ((m >>= f) w)
  bind-Post m w = continue-Post (m w)

module _ {A : Type 0} (Q : A → World → Type 0) (E : Error → World → Type 0) (R : A → World → Type 0)
    (F : Error → World → Type 0) where
  handle-Post :
      (h : Error → M A) (r : Result A × World)
      → Post Q E r
      → ((a : A) (w : World) → Q a w → R a w)
      → ((e : Error) (w : World) → E e w → Post R F (h e w))
      → Post R F (handle r h)
  handle-Post h (ok a, w) p k l = k a w p
  handle-Post h (err e, w) p k l = l e w p

  pub catch-Post :
      (m : M A) (h : Error → M A) (w : World)
      → Post Q E (m w)
      → ((a : A) (w : World) → Q a w → R a w)
      → ((e : Error) (w : World) → E e w → Post R F (h e w))
      → Post R F (catch m h w)
  catch-Post m h w = handle-Post h (m w)

  pub Post-imp :
      (r : Result A × World)
      → Post Q E r
      → ((a : A) (w : World) → Q a w → R a w)
      → ((e : Error) (w : World) → E e w → F e w)
      → Post R F r
  Post-imp (ok a, w) p k l = k a w p
  Post-imp (err e, w) p k l = l e w p

-- What follows and changes nothing leaves the state where it was.
pub continue-state :
    {A B : Type 0} (r : Result A × World) (f : A → M B)
    → ((a : A) (w : World) → (f a w).1 ≡ w)
    → (continue r f).1 ≡ r.1
continue-state (ok a, w) f h = h a w
continue-state (err e, w) f h = refl
