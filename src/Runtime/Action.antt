-- ===== src/Runtime/Action.antt =====
-- Actions on the state, with exceptions.
use akesis.Common.{ℕ, suc, String, ◌≡◌, Bool, true, false, ◌∷◌, nat_eq, string_eq}
use akesis.Domain.{Datetime}
use akesis.Runtime.State.{World, Effect}

-- The exception classes of the program, and of what it calls: `integrity` and `multiple_results`
-- are SQLAlchemy's, `unexpected` any other.
pub data ErrorKind : Type 0 where
  ineligible illegal_transition approval_not_found : ErrorKind
  orchestration : ErrorKind
  mutation preflight stale_commit unsafe_branch working_tree pre_push git_push : ErrorKind
  llm checkout patch_application sandbox_timeout docker_unavailable sandbox : ErrorKind
  http : ℕ → ErrorKind
  log_not_found integrity multiple_results unexpected : ErrorKind

pub record Error : Type 0 where
  pub kind : ErrorKind
  pub message : String

pub data Result (A : Type 0) : Type 0 where
  ok : A → Result A
  err : Error → Result A

-- The call raised an exception of this class.
abbrev pub Raises : {A : Type 0} → ErrorKind → Result A → Type 0
Raises k (ok a) = ⊥
Raises k (err e) = e.kind ≡ k

abbrev pub M : Type 0 → Type 0
M A = World → Result A × World

module _ {A : Type 0} where
  abbrev pub pure : A → M A
  pure a w = (ok a, w)

  abbrev pub fail : Error → M A
  fail e w = (err e, w)

  abbrev pub raise : ErrorKind → String → M A
  raise k m = fail (record { kind = k; message = m })

  abbrev pub lift : Result A → M A
  lift r w = (r, w)

  abbrev pub gets : (World → A) → M A
  gets f w = (ok (f w), w)

  -- a call of another program, which may answer differently each time
  abbrev pub external : (ℕ → Result A) → M A
  external f w = (f w.reads, record w { reads = suc w.reads })

  abbrev pub handle : Result A × World → (Error → M A) → Result A × World
  handle (ok a, w) h = (ok a, w)
  handle (err e, w) h = h e w

  -- `try: m except Exception as err: h err`
  abbrev pub catch : M A → (Error → M A) → M A
  catch m h w = handle (m w) h

  -- `if c: m else: n`
  abbrev pub choose : Bool → M A → M A → M A
  choose c m n w = elim c [ true ↦ m w | false ↦ n w ]

-- a call of another program whose exception the caller looks at
abbrev pub attempt : {A : Type 0} → (ℕ → Result A) → M (Result A)
attempt f w = (ok (f w.reads), record w { reads = suc w.reads })

abbrev pub modify : (World → World) → M (Unit {0})
modify f w = (ok tt, f w)

abbrev pub emit : Effect → M (Unit {0})
emit e w = (ok tt, record w { effects = e ∷ w.effects })

abbrev pub continue : {A B : Type 0} → Result A × World → (A → M B) → Result B × World
continue (ok a, w) f = f a w
continue (err e, w) f = (err e, w)

infixl 5 ◌>>=◌ ◌>>◌
abbrev pub ◌>>=◌ : {A B : Type 0} → M A → (A → M B) → M B
◌>>=◌ m f w = continue (m w) f

abbrev pub ◌>>◌ : {A B : Type 0} → M A → M B → M B
m >> k = m >>= λ _. k

-- `if c: raise`
abbrev pub raise_if : Bool → ErrorKind → String → M (Unit {0})
raise_if c k m w = elim c [ true ↦ raise k m w | false ↦ pure tt w ]

-- `datetime.now(UTC)`
abbrev pub now : M Datetime
now w = (ok (w.times w.reads), record w { reads = suc w.reads })

-- `uuid.uuid4().hex`
abbrev pub uuid_hex : M String
uuid_hex w = (ok (w.uuids w.reads), record w { reads = suc w.reads })
