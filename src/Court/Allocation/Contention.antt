-- ===== src/Court/Allocation/Contention.antt =====
-- court/arbiter.py: who contends for what, by the challenges, and who keeps it.
use unwind.Base.{
  ℕ, zero, suc, ◌≡◌, refl, String, Bool, true, false, not, ◌&&◌, ◌||◌, List, [], ◌∷◌, Option, none,
  some, if◌then◌else◌, lookup, text_eq, text_eq_iff, arith, All, contains, get_elem?, Bool-cases,
  inl, inr, ◌⊎◌, ap, ◌∙◌, Option-cases,
}
use mathlib.Core.Path.{subst}
use mathlib.Core.Option.{some-injective}
use unwind.Base.Dict.{put, lookup-put, or_else, set_default, lookup-set_default}
use unwind.Court.Schema.{Floats, Plea, Challenge}
use unwind.Court.Arbiter.{
  index_owners, contest_by, contest_all, contested_resources, named, tally_pleas,
}
use unwind.Court.Allocation.{preserved-alone}

-- The owner challenges, or is challenged.
unfoldable pub is_party : String → Challenge → Bool
is_party owner c = text_eq c.challenger_owner_id owner || text_eq c.target_owner_id owner

-- The resource of the first challenge that has the owner for a party and names one.
unfoldable pub argued_over : String → List Challenge → Option String
argued_over owner [] = none
argued_over owner (c ∷ cs) =
    let rest = argued_over owner cs in
    elim c.contested_resource [
      | none ↦ rest
      | some r ↦ if not (text_eq r "") && is_party owner c then some r else rest
    ]

text_eq_sym : (s t : String) → text_eq s t ≡ text_eq t s
text_eq_sym s t = ground (arith, text_eq_iff s t, text_eq_iff t s)

All-get_elem {ℓ κ} :
    {A : Type ℓ} (P : A → Type κ) (xs : List A) (i : ℕ) (x : A)
    → All P xs
    → get_elem? xs i ≡ some x
    → P x
All-get_elem P [] i x h e = ground (arith, e)
All-get_elem P (y ∷ xs) zero x h e = subst P (some-injective y x e) h.0
All-get_elem P (y ∷ xs) (suc i) x h e = All-get_elem P xs i x h.1 e

module _ (floats : Floats) where
  -- Two pleas have one owner exactly when they are for one commitment.
  unfoldable pub IsOneToOne : List (Plea floats.Float) → Type 0
  IsOneToOne [] = Unit
  IsOneToOne (p ∷ ps) =
      All
        (λ q. text_eq p.member_owner_id q.member_owner_id ≡ text_eq p.conclusion_id q.conclusion_id)
        ps
      × IsOneToOne ps

  module _ (owner id : String) where
    -- A plea is this owner's exactly when it is for this commitment.
    Suits : Plea floats.Float → Type 0
    Suits r = text_eq r.member_owner_id owner ≡ text_eq r.conclusion_id id

    -- An index of owners has the commitment under no other owner.
    abbrev Only : List (String × String) → Type 0
    Only d = (o : String) → lookup o d ≡ some id → o ≡ owner

    index_owners-Only :
        (d : List (String × String)) (ps : List (Plea floats.Float))
        → All Suits ps
        → Only d
        → Only (index_owners floats d ps)
    unfolding index_owners Suits
    index_owners-Only d [] h k = k
    index_owners-Only d (r ∷ ps) h k =
        index_owners-Only (put r.member_owner_id r.conclusion_id d) ps h.1 (λ o e. ground (
          arith,
          h.0,
          e,
          k o,
          lookup-put o r.member_owner_id r.conclusion_id d,
          text_eq_iff o r.member_owner_id,
          text_eq_iff r.member_owner_id owner,
          text_eq_iff r.conclusion_id id,
        ))

    put-right :
        (d : List (String × String)) (r : Plea floats.Float)
        → Suits r
        → (lookup owner d ≡ some id) ⊎ (text_eq r.member_owner_id owner ≡ true)
        → lookup owner (put r.member_owner_id r.conclusion_id d) ≡ some id
    unfolding Suits
    put-right d r h k = ground (
      arith,
      h,
      k,
      lookup-put owner r.member_owner_id r.conclusion_id d,
      text_eq_iff owner r.member_owner_id,
      text_eq_iff r.member_owner_id owner,
      text_eq_iff r.conclusion_id id,
    )

    index_owners-stays :
        (d : List (String × String)) (ps : List (Plea floats.Float))
        → All Suits ps
        → lookup owner d ≡ some id
        → lookup owner (index_owners floats d ps) ≡ some id
    unfolding index_owners
    index_owners-stays d [] h k = k
    index_owners-stays d (r ∷ ps) h k =
        index_owners-stays (put r.member_owner_id r.conclusion_id d) ps h.1
          (put-right d r h.0 (inl k))

    index_owners-right :
        (d : List (String × String)) (ps : List (Plea floats.Float)) (i : ℕ) (p : Plea floats.Float)
        → All Suits ps
        → get_elem? ps i ≡ some p
        → p.member_owner_id ≡ owner
        → lookup owner (index_owners floats d ps) ≡ some id
    unfolding index_owners
    index_owners-right d [] i p h e o = ground (arith, e)
    index_owners-right d (r ∷ ps) zero p h e o =
        index_owners-stays (put r.member_owner_id r.conclusion_id d) ps h.1
          (put-right d r h.0 (inr (ground (arith, e, o, text_eq_iff r.member_owner_id owner))))
    index_owners-right d (r ∷ ps) (suc i) p h e o =
        index_owners-right (put r.member_owner_id r.conclusion_id d) ps i p h.1 e o

    module _ (index : List (String × String)) (right : lookup owner index ≡ some id)
        (only : Only index) where
      contest_found :
          (resource o c : String) (d : List (String × String))
          → lookup o index ≡ some c
          → contest_by floats index resource o d ≡ set_default c resource d
      unfolding contest_by
      contest_found resource o c d e =
          ap (λ x. elim x [ none ↦ d | some conclusion_id ↦ set_default conclusion_id resource d ])
            e

      same_party : (o c : String) → lookup o index ≡ some c → text_eq id c ≡ text_eq o owner
      same_party o c e = ground (arith, e, right, only o, text_eq_iff id c, text_eq_iff o owner)

      lookup-contest_by :
          (resource o : String) (d : List (String × String))
          → lookup id (contest_by floats index resource o d)
            ≡ or_else (lookup id d) (if text_eq o owner then some resource else none)
      unfolding contest_by
      lookup-contest_by resource o d = elim (Option-cases (lookup o index)) [
        | inl e ↦ ground (arith, e, right, text_eq_iff o owner)
        | inr (c, e) ↦
            ap (lookup id) (contest_found resource o c d e)
            ∙ lookup-set_default id c resource d
            ∙ ap (λ b. or_else (lookup id d) (if b then some resource else none)) (same_party o c e)
      ]

      or_else_parties :
          (o rest : Option String) (r : String) (b c : Bool)
          → or_else
              (or_else (or_else o (if b then some r else none)) (if c then some r else none))
              rest
            ≡ or_else o (if b || c then some r else rest)
      or_else_parties none rest r b c = ground arith
      or_else_parties (some s) rest r b c = refl

      -- One challenge, before others whose effect is known.
      lookup-contest_one :
          (resource : Option String) (challenger target : String) (cs : List Challenge)
          (d : List (String × String)) (rest : Option String)
          → ((e : List (String × String))
              → lookup id (contest_all floats index cs e) ≡ or_else (lookup id e) rest)
          → lookup id (
              contest_all floats index cs (elim (named resource) [
                | none ↦ d
                | some r ↦ contest_by floats index r target (contest_by floats index r challenger d)
              ]))
            ≡ or_else (lookup id d) (elim resource [
              | none ↦ rest
              | some r ↦
                  if not (text_eq r "") && (text_eq challenger owner || text_eq target owner)
                  then some r
                  else rest
            ])
      unfolding named
      lookup-contest_one none challenger target cs d rest later = later d
      lookup-contest_one (some r) challenger target cs d rest later =
          elim (Bool-cases (text_eq r "")) [
            | inl e ↦ rw e (later d)
            | inr e ↦ rw e (
                later (contest_by floats index r target (contest_by floats index r challenger d))
                ∙ ap (λ o. or_else o rest)
                    (lookup-contest_by r target (contest_by floats index r challenger d)
                      ∙ ap (λ o. or_else o (if text_eq target owner then some r else none))
                          (lookup-contest_by r challenger d))
                ∙ or_else_parties (lookup id d) rest r (text_eq challenger owner)
                    (text_eq target owner))
          ]

      lookup-contest_all :
          (cs : List Challenge) (d : List (String × String))
          → lookup id (contest_all floats index cs d) ≡ or_else (lookup id d) (argued_over owner cs)
      unfolding contest_all argued_over is_party
      lookup-contest_all [] d = ground arith
      lookup-contest_all (c ∷ cs) d =
          lookup-contest_one c.contested_resource c.challenger_owner_id c.target_owner_id cs d
            (argued_over owner cs) (lookup-contest_all cs)

  IsOneToOne-Suits :
      (ps : List (Plea floats.Float)) (i : ℕ) (p : Plea floats.Float)
      → IsOneToOne ps
      → get_elem? ps i ≡ some p
      → All (Suits p.member_owner_id p.conclusion_id) ps
  unfolding IsOneToOne Suits
  IsOneToOne-Suits [] i p one e = tt
  IsOneToOne-Suits (r ∷ ps) zero p one e =
      subst (λ p. All (Suits p.member_owner_id p.conclusion_id) (r ∷ ps)) (some-injective r p e)
        (
          ground (
            arith,
            text_eq_iff r.member_owner_id r.member_owner_id,
            text_eq_iff r.conclusion_id r.conclusion_id,
          ),
          flip ps one.0,
        )
    where
      flip :
          (qs : List (Plea floats.Float))
          → All
              (λ q.
                text_eq r.member_owner_id q.member_owner_id
                ≡ text_eq r.conclusion_id q.conclusion_id)
              qs
          → All (Suits r.member_owner_id r.conclusion_id) qs
      flip [] h = tt
      flip (q ∷ qs) h = (
        text_eq_sym q.member_owner_id r.member_owner_id
            ∙ h.0
            ∙ text_eq_sym r.conclusion_id q.conclusion_id,
        flip qs h.1,
      )
  IsOneToOne-Suits (r ∷ ps) (suc i) p one e =
      (All-get_elem _ ps i p one.0 e, IsOneToOne-Suits ps i p one.1 e)

  -- The table has the commitment under what its owner argued over.
  contested_lem :
      (pleas : List (Plea floats.Float)) (challenges : List Challenge) (p : Plea floats.Float)
      (i : ℕ)
      → IsOneToOne pleas
      → get_elem? pleas i ≡ some p
      → lookup p.conclusion_id (contested_resources floats challenges pleas)
        ≡ argued_over p.member_owner_id challenges
  unfolding contested_resources
  contested_lem pleas challenges p i one e =
      let suits = IsOneToOne-Suits pleas i p one e in
      lookup-contest_all p.member_owner_id p.conclusion_id (index_owners floats [] pleas)
        (index_owners-right p.member_owner_id p.conclusion_id [] pleas i p suits e refl)
        (index_owners-Only p.member_owner_id p.conclusion_id [] pleas suits
          (λ o h. ground (arith, h)))
        challenges []

  kept_both : (a b c : Bool) → ((a ≡ true) → (b ≡ true) → c ≡ true) → c ≡ false → (a && b) ≡ false
  kept_both a b c h k = ground (arith, h, k)

  -- Where the pleas have one owner exactly when they are for one commitment: of two pleas for different
  -- commitments whose owners are parties to a challenge over a resource, and to no earlier one that
  -- names any, at most one has its commitment preserved, whether the hearing converged or not.
  pub tally_pleas-exclusive :
      (pleas : List (Plea floats.Float)) (challenges : List Challenge) (converged : Bool)
      (p q : Plea floats.Float) (i j : ℕ) (resource : String)
      → IsOneToOne pleas
      → get_elem? pleas i ≡ some p
      → get_elem? pleas j ≡ some q
      → argued_over p.member_owner_id challenges ≡ some resource
      → argued_over q.member_owner_id challenges ≡ some resource
      → text_eq p.conclusion_id q.conclusion_id ≡ false
      → let preserved = (tally_pleas floats pleas challenges converged).preserved in
        (contains p.conclusion_id preserved && contains q.conclusion_id preserved) ≡ false
  tally_pleas-exclusive pleas challenges converged p q i j resource one h k a b apart =
      let preserved = (tally_pleas floats pleas challenges converged).preserved in
      kept_both (contains p.conclusion_id preserved) (contains q.conclusion_id preserved)
        (text_eq p.conclusion_id q.conclusion_id)
        (λ kept also. (text_eq_iff p.conclusion_id q.conclusion_id).1 (
          preserved-alone floats pleas challenges converged p.conclusion_id q.conclusion_id resource
            kept also (contested_lem pleas challenges p i one h ∙ a)
            (contested_lem pleas challenges q j one k ∙ b)))
        apart
