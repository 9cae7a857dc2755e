-- ===== src/Paths/Shape.antt =====
-- What the paths of src/packages/shared/context_resolver.py look like.
use akesis.Common.{
  String, ◌≡◌, inl, inr, Bool, true, false, some, arith, nat_eq, string_eq, Bool-cases, codes,
  has_part, is_blank, starts_with,
}
use akesis.Runtime.{Result, ok, err}
use akesis.Paths.{Checkout, is_path_safe_and_within_root, is_unsafe, within_root}

-- A path of a checkout that resolves to a candidate.
pub record IsContained (checkout : Checkout) (target candidate : String) : Type 0 where
  pub not_empty : is_blank target ≡ false
  pub no_climb : has_part (codes target) (codes "..") ≡ false
  pub relative : starts_with target "/" ≡ false
  pub resolved : checkout.resolve target ≡ ok (candidate, true)

within_root-resolved :
    (r : Result (String × Bool)) (candidate : String)
    → within_root r ≡ some candidate
    → r ≡ ok (candidate, true)
within_root-resolved (ok (c, true)) candidate e = ground arith
within_root-resolved (ok (c, false)) candidate e = ground arith
within_root-resolved (err x) candidate e = ground arith

-- A path that the test lets through is not empty, climbs nowhere and is not absolute, and what it
-- resolves to lies under the root.
pub is_path_safe-IsContained :
    (checkout : Checkout) (target candidate : String)
    → is_path_safe_and_within_root checkout target ≡ some candidate
    → IsContained checkout target candidate
unfolding is_path_safe_and_within_root
is_path_safe-IsContained checkout target candidate e = elim (Bool-cases (is_unsafe target)) [
  | inl unsafe ↦ ground arith
  | inr safe ↦ record {
    not_empty = ground arith;
    no_climb = ground arith;
    relative = ground arith;
    resolved = within_root-resolved (checkout.resolve target) candidate (rw safe at e);
  }
]
