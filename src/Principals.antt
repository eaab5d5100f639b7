-- ===== src/Principals.antt =====
-- lib/principals.py: who may hold which role. A set of principals is a list, read by membership
-- only; the mapping `bench` is an association list of roles in insertion order.
pub mod Roles
pub mod Separation
mod Tests
use Prim.Native.String.{compare}
use text.Mathlib.Text.{is_le}
use unwind.Base.{
  String, Bool, true, false, not, List, [], ◌∷◌, Option, none, some, Result, ok, err, ◌++◌, keep,
  contains, text_eq, if◌then◌else◌,
}
use unwind.Base.Sorting.{sort_by}
use unwind.Principals.Roles.{Role, role_value, why_separate}

pub record SeparationError : Type 0 where
  pub left : Role
  pub right : Role
  pub shared : List String
  pub why : String

abbrev pub Bench : Type 0
Bench = List (Role × List String)

-- The order of `sorted(…, key=lambda r: r.value)` and of `sorted` on texts.
unfoldable pub text_le : String → String → Bool
text_le s t = is_le (compare s t)

unfoldable pub role_le : Role × List String → Role × List String → Bool
role_le (r, ps) (q, qs) = text_le (role_value r) (role_value q)

-- A role that nobody holds is not checked.
unfoldable pub is_held : Role × List String → Bool
is_held (r, []) = false
is_held (r, p ∷ ps) = true

-- `holders[left] & holders[right]`
unfoldable pub shared_by : List String → List String → List String
shared_by ps qs = keep (λ p. contains p qs) ps

-- The elements of the set, each once.
unfoldable pub distinct : List String → List String
distinct [] = []
distinct (p ∷ ps) = let rest = distinct ps in if contains p rest then rest else p ∷ rest

-- The inner loop: `left` against the roles after it.
unfoldable pub check_against : Role × List String → Bench → Result SeparationError (Unit {0})
check_against left [] = ok tt
check_against left (right ∷ rest) =
    let later = check_against left rest in
    elim (shared_by left.1 right.1) [
      | [] ↦ later
      | p ∷ ps ↦ err (record {
        left = left.0;
        right = right.0;
        shared = sort_by text_le (distinct (p ∷ ps));
        why = why_separate left.0 right.0;
      })
    ]

-- The outer loop over the sorted roles.
unfoldable pub check_pairs : Bench → Result SeparationError (Unit {0})
check_pairs [] = ok tt
check_pairs (left ∷ rest) =
    let later = check_pairs rest in elim (check_against left rest) [ ok _ ↦ later | err e ↦ err e ]

unfoldable pub assert_separate_principals : Bench → Result SeparationError (Unit {0})
assert_separate_principals bench = check_pairs (sort_by role_le (keep is_held bench))

-- The entry of a role that is given at most one principal.
unfoldable pub optional_role : Role → Option String → Bench
optional_role r none = []
optional_role r (some p) = (r, p ∷ []) ∷ []

unfoldable pub assert_arbiter_is_third :
    String → List String → Option String → Option String → Result SeparationError (Unit {0})
unfolding optional_role
assert_arbiter_is_third arbiter owners assessor rederiver = assert_separate_principals (
    (Role.arbiter, arbiter ∷ [])
    ∷ (Role.owner, owners)
    ∷ (optional_role Role.assessor assessor ++ optional_role Role.rederiver rederiver))

-- `if owners:`, so an empty list makes no entry.
unfoldable pub owners_role : List String → Bench
owners_role [] = []
owners_role (p ∷ ps) = (Role.owner, p ∷ ps) ∷ []

unfoldable pub assert_agent_is_distinct :
    String
    → Option String
    → List String
    → Option String
    → Option String
    → Result SeparationError (Unit {0})
unfolding optional_role owners_role
assert_agent_is_distinct agent arbiter owners assessor rederiver = assert_separate_principals (
    (Role.agent, agent ∷ [])
    ∷ (optional_role Role.arbiter arbiter
        ++ (owners_role owners
            ++ (optional_role Role.assessor assessor ++ optional_role Role.rederiver rederiver))))

-- A balance is accessed by a principal that it is not keyed to.
pub record NonTransferableError : Type 0 where
  pub balance_principal : String
  pub acting_principal : String

unfoldable pub assert_warrant_access : String → String → Result NonTransferableError (Unit {0})
assert_warrant_access balance_principal acting_principal =
    if text_eq balance_principal acting_principal
    then ok tt
    else err (record { balance_principal = balance_principal; acting_principal = acting_principal })
