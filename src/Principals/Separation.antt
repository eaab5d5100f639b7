-- ===== src/Principals/Separation.antt =====
-- lib/principals.py: the nested loops over the sorted bench raise exactly when two roles share a
-- principal.
use unwind.Base.{
  String, ◌≡◌, refl, sym, ap, ◌∙◌, Bool, true, false, not, ◌&&◌, List, [], ◌∷◌, ◌++◌, Option, none,
  some, Result, ok, err, keep, contains, text_eq, text_eq_iff, arith,
}
use unwind.Base.Sorting.{insert_by, sort_by}
use unwind.Principals.Roles.{Role}
use unwind.Principals.{
  Bench, role_le, is_held, shared_by, check_against, check_pairs, optional_role, owners_role,
  assert_agent_is_distinct, assert_arbiter_is_third, assert_separate_principals,
}

unfoldable pub is_ok {ℓ κ} : {E : Type ℓ} {A : Type κ} → Result E A → Bool
is_ok (ok _) = true
is_ok (err _) = false

module _ {ℓ} {A : Type ℓ} (r : A → A → Bool) where
  abbrev pub all_with : A → List A → Bool
  all_with x [] = true
  all_with x (y ∷ ys) = r x y && all_with x ys

  abbrev pub pairwise : List A → Bool
  pairwise [] = true
  pairwise (x ∷ xs) = all_with x xs && pairwise xs

-- No principal stands in both lists.
abbrev pub none_in : List String → List String → Bool
none_in [] qs = true
none_in (p ∷ ps) qs = not (contains p qs) && none_in ps qs

-- The two roles share no principal.
abbrev pub are_apart : Role × List String → Role × List String → Bool
are_apart (r, ps) (q, qs) = none_in ps qs

-- The bench is separate: each role is apart from every other.
unfoldable pub is_separate : Bench → Bool
is_separate bench = pairwise are_apart bench

module _ {ℓ} {A : Type ℓ} (le : A → A → Bool) (r : A → A → Bool)
    (symm : (x y : A) → r x y ≡ r y x) where
  all_with-insert_by :
      (x y : A) (ys : List A) → all_with r x (insert_by le y ys) ≡ (r x y && all_with r x ys)
  unfolding insert_by
  all_with-insert_by x y [] = refl
  all_with-insert_by x y (z ∷ ys) = ground (arith, all_with-insert_by x y ys)

  pairwise-insert_by :
      (x : A) (ys : List A) → pairwise r (insert_by le x ys) ≡ (all_with r x ys && pairwise r ys)
  unfolding insert_by
  pairwise-insert_by x [] = refl
  pairwise-insert_by x (y ∷ ys) =
      ground (arith, pairwise-insert_by x ys, all_with-insert_by y x ys, symm x y)

  all_with-sort_by : (x : A) (ys : List A) → all_with r x (sort_by le ys) ≡ all_with r x ys
  unfolding sort_by
  all_with-sort_by x [] = refl
  all_with-sort_by x (y ∷ ys) =
      ground (arith, all_with-insert_by x y (sort_by le ys), all_with-sort_by x ys)

  pub pairwise-sort_by : (ys : List A) → pairwise r (sort_by le ys) ≡ pairwise r ys
  unfolding sort_by
  pairwise-sort_by [] = refl
  pairwise-sort_by (y ∷ ys) =
      ground
        (arith, pairwise-insert_by y (sort_by le ys), all_with-sort_by y ys, pairwise-sort_by ys)

-- `none_in` is symmetric.
none_in-nil : (ps : List String) → none_in ps [] ≡ true
none_in-nil [] = refl
none_in-nil (p ∷ ps) = none_in-nil ps

text_eq_comm : (p q : String) → text_eq p q ≡ text_eq q p
text_eq_comm p q = ground (arith, text_eq_iff p q, text_eq_iff q p)

none_in-cons :
    (ps : List String) (q : String) (qs : List String)
    → none_in ps (q ∷ qs) ≡ (not (contains q ps) && none_in ps qs)
none_in-cons [] q qs = refl
none_in-cons (p ∷ ps) q qs = ground (arith, none_in-cons ps q qs, text_eq_comm p q)

none_in_comm : (ps qs : List String) → none_in ps qs ≡ none_in qs ps
none_in_comm [] qs = sym (none_in-nil qs)
none_in_comm (p ∷ ps) qs = ground (arith, none_in-cons qs p ps, none_in_comm ps qs)

are_apart_comm : (x y : Role × List String) → are_apart x y ≡ are_apart y x
are_apart_comm (r, ps) (q, qs) = none_in_comm ps qs

-- A role that nobody holds is apart from every other.
all_with-is_held :
    (x : Role × List String) (b : Bench)
    → all_with are_apart x (keep is_held b) ≡ all_with are_apart x b
unfolding is_held
all_with-is_held x [] = refl
all_with-is_held (r, ps) ((q, []) ∷ b) = ground (arith, all_with-is_held (r, ps) b, none_in-nil ps)
all_with-is_held x ((q, p ∷ ps) ∷ b) = ground (arith, all_with-is_held x b)

all_with-nobody : (r : Role) (b : Bench) → all_with are_apart (r, []) b ≡ true
all_with-nobody r [] = refl
all_with-nobody r (x ∷ b) = all_with-nobody r b

pairwise-is_held : (b : Bench) → pairwise are_apart (keep is_held b) ≡ pairwise are_apart b
unfolding is_held
pairwise-is_held [] = refl
pairwise-is_held ((q, []) ∷ b) = ground (arith, pairwise-is_held b, all_with-nobody q b)
pairwise-is_held ((q, p ∷ ps) ∷ b) =
    ground (arith, pairwise-is_held b, all_with-is_held (q, p ∷ ps) b)

-- The loops.
is_nil : List String → Bool
is_nil [] = true
is_nil (_ ∷ _) = false

is_nil-shared_by : (ps qs : List String) → is_nil (shared_by ps qs) ≡ none_in ps qs
unfolding is_nil shared_by
is_nil-shared_by [] qs = refl
is_nil-shared_by (p ∷ ps) qs = ground (arith, is_nil-shared_by ps qs)

is_ok-check_against :
    (x : Role × List String) (b : Bench) → is_ok (check_against x b) ≡ all_with are_apart x b
unfolding is_ok check_against is_nil
is_ok-check_against x [] = refl
is_ok-check_against x (y ∷ b) = ground (arith, is_ok-check_against x b, is_nil-shared_by x.1 y.1)

is_ok-check_pairs : (b : Bench) → is_ok (check_pairs b) ≡ pairwise are_apart b
unfolding is_ok check_pairs
is_ok-check_pairs [] = refl
is_ok-check_pairs (x ∷ b) = ground (arith, is_ok-check_pairs b, is_ok-check_against x b)

-- A bench passes exactly when no principal is held by two of its roles: neither the sorting nor
-- the dropping of roles without a holder changes the answer.
pub assert_separate_principals-is_separate :
    (bench : Bench) → is_ok (assert_separate_principals bench) ≡ is_separate bench
unfolding assert_separate_principals is_separate
assert_separate_principals-is_separate bench =
    is_ok-check_pairs (sort_by role_le (keep is_held bench))
    ∙ pairwise-sort_by role_le are_apart are_apart_comm (keep is_held bench)
    ∙ pairwise-is_held bench

-- The principals of an optional role.
abbrev pub holders_of : Option String → List String
holders_of none = []
holders_of (some p) = p ∷ []

-- The two benches have the same held roles.
record SameHeld (b c : Bench) : Type 0 where
  same : keep is_held b ≡ keep is_held c

SameHeld-cons :
    (r : Role) (p : String) (ps : List String) {b c : Bench}
    → SameHeld b c
    → SameHeld ((r, p ∷ ps) ∷ b) ((r, p ∷ ps) ∷ c)
unfolding is_held
SameHeld-cons r p ps h = record { same = ap (λ l. (r, p ∷ ps) ∷ l) h.same }

-- An absent role is as a role that nobody holds.
SameHeld-optional_role :
    (r : Role) (o : Option String) {b c : Bench}
    → SameHeld b c
    → SameHeld (optional_role r o ++ b) ((r, holders_of o) ∷ c)
unfolding optional_role is_held
SameHeld-optional_role r none h = record { same = h.same }
SameHeld-optional_role r (some p) h = record { same = ap (λ l. (r, p ∷ []) ∷ l) h.same }

SameHeld-optional_role_last :
    (r : Role) (o : Option String) → SameHeld (optional_role r o) ((r, holders_of o) ∷ [])
unfolding optional_role is_held
SameHeld-optional_role_last r none = record { same = refl }
SameHeld-optional_role_last r (some p) = record { same = refl }

SameHeld-owners_role :
    (ps : List String) {b c : Bench}
    → SameHeld b c
    → SameHeld (owners_role ps ++ b) ((Role.owner, ps) ∷ c)
unfolding owners_role is_held
SameHeld-owners_role [] h = record { same = h.same }
SameHeld-owners_role (p ∷ ps) h = record { same = ap (λ l. (Role.owner, p ∷ ps) ∷ l) h.same }

is_separate_by_held : {b c : Bench} → SameHeld b c → is_separate b ≡ is_separate c
unfolding is_separate
is_separate_by_held {b} {c} h =
    sym (pairwise-is_held b) ∙ ap (pairwise are_apart) h.same ∙ pairwise-is_held c

-- The bench of an agent passes exactly when the agent is none of the arbiter, the owners, the
-- assessor and the re-deriver, and these four share no principal either. An absent role and an
-- empty list of owners never make it fail.
pub is_ok-assert_agent_is_distinct :
    (agent : String) (arbiter : Option String) (owners : List String)
    (assessor rederiver : Option String)
    → is_ok (assert_agent_is_distinct agent arbiter owners assessor rederiver)
      ≡ pairwise none_in (
          (agent ∷ [])
          ∷ holders_of arbiter
          ∷ owners
          ∷ holders_of assessor
          ∷ holders_of rederiver
          ∷ [])
unfolding assert_agent_is_distinct is_separate
is_ok-assert_agent_is_distinct agent arbiter owners assessor rederiver =
    assert_separate_principals-is_separate _
    ∙ is_separate_by_held (
        SameHeld-cons Role.agent agent [] (
          SameHeld-optional_role Role.arbiter arbiter (
            SameHeld-owners_role owners (
              SameHeld-optional_role Role.assessor assessor
                (SameHeld-optional_role_last Role.rederiver rederiver)))))

SameHeld-role :
    (r : Role) (ps : List String) {b c : Bench}
    → SameHeld b c
    → SameHeld ((r, ps) ∷ b) ((r, ps) ∷ c)
unfolding is_held
SameHeld-role r [] h = record { same = h.same }
SameHeld-role r (p ∷ ps) h = SameHeld-cons r p ps h

-- The bench of a hearing passes exactly when the arbiter, the owners, the assessor and the
-- re-deriver share no principal.
pub is_ok-assert_arbiter_is_third :
    (arbiter : String) (owners : List String) (assessor rederiver : Option String)
    → is_ok (assert_arbiter_is_third arbiter owners assessor rederiver)
      ≡ pairwise none_in ((arbiter ∷ []) ∷ owners ∷ holders_of assessor ∷ holders_of rederiver ∷ [])
unfolding assert_arbiter_is_third is_separate
is_ok-assert_arbiter_is_third arbiter owners assessor rederiver =
    assert_separate_principals-is_separate _
    ∙ is_separate_by_held (
        SameHeld-cons Role.arbiter arbiter [] (
          SameHeld-role Role.owner owners (
            SameHeld-optional_role Role.assessor assessor
              (SameHeld-optional_role_last Role.rederiver rederiver))))
