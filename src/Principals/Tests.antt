-- ===== src/Principals/Tests.antt =====
-- The theorems on lib/principals.py at concrete benches.
use unwind.Base.{◌≡◌, refl, false, [], ◌∷◌, text_eq}
use unwind.Principals.Roles.{Role}
use unwind.Principals.{Bench, assert_separate_principals}
use unwind.Principals.Separation.{is_ok, is_separate, assert_separate_principals-is_separate}

-- The arbiter is one of the owners.
abbrev conflicted : Bench
conflicted =
    (Role.owner, "user:ann" ∷ "user:bob" ∷ [])
    ∷ (Role.arbiter, "user:bob" ∷ [])
    ∷ (Role.assessor, [])
    ∷ []

assert_separate_principals-is_separate_example :
    is_ok (assert_separate_principals conflicted) ≡ is_separate conflicted
assert_separate_principals-is_separate_example = assert_separate_principals-is_separate conflicted

conflicted_fails : is_separate conflicted ≡ false
unfolding is_separate text_eq
conflicted_fails = refl
