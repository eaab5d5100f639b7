-- ===== src/Spine/Decision/Contest.antt =====
-- spine/decision.py: when a retraction is put off, in the words of the claims.
use unwind.Base.{
  ℕ, zero, suc, ◌≡◌, ◌≢◌, refl, String, Bool, true, false, not, ◌&&◌, List, [], ◌∷◌, Option, some,
  arith, text_eq, text_eq_iff, keep, any, get_elem?, ◌↔◌, sym, ap, ◌∙◌, Bool-cases, inl, inr,
}
use mathlib.Core.Bool.{false≢true}
use unwind.Base.Int.{ℤ}
use unwind.Base.Text.{codes, text_leb, same_text, same_text_iff}
use unwind.Base.Sorting.{insert_by, sort_by}
use unwind.Spine.Schema.{Claim, ClaimStatus, Source}
use unwind.Spine.Authority.{
  check_authority, HasStanding, check_authority-HasStanding, is_live, live_lem, live-is_live,
}
use unwind.Spine.Defence.{DecisionState, FloorFloats, ConfidenceFloor, evaluate}
use unwind.Spine.Decision.{
  RetractionRequest, DecisionContext, is_nil, contests, find_contesting_claims, decide,
  decide_admissibility, decide_authorisation,
}

any-is_nil : (p : Claim → Bool) (cs : List Claim) → is_nil (keep p cs) ≡ not (any p cs)
any-is_nil p [] = refl
any-is_nil p (c ∷ cs) = ground (arith, any-is_nil p cs)

insert-is_nil :
    (le : Claim → Claim → Bool) (c : Claim) (cs : List Claim) → is_nil (insert_by le c cs) ≡ false
unfolding insert_by
insert-is_nil le c [] = refl
insert-is_nil le c (d ∷ cs) = ground arith

sort-is_nil : (le : Claim → Claim → Bool) (cs : List Claim) → is_nil (sort_by le cs) ≡ is_nil cs
unfolding sort_by
sort-is_nil le [] = refl
sort-is_nil le (c ∷ cs) = insert-is_nil le c (sort_by le cs)

-- Somewhere in the graph stands another claim, live, of the same fact, with a different value.
pub record IsContested (claim : Claim) (all_claims : List Claim) : Type 0 where
  pub position : ℕ
  pub other : Claim
  pub stands : get_elem? all_claims position ≡ some other
  pub another : other.claim_id ≢ claim.claim_id
  pub same_fact : other.canonical ≡ claim.canonical
  pub live : other.status ≡ ClaimStatus.live
  pub differs : other.value ≢ claim.value

any_stands :
    (p : Claim → Bool) (cs : List Claim)
    → any p cs ≡ true
    → (i : ℕ) × (c : Claim) × (get_elem? cs i ≡ some c) × (p c ≡ true)
any_stands p [] h = absurd (false≢true h)
any_stands p (c ∷ cs) h = elim (Bool-cases (p c)) [
  | inl e ↦ (0, c, refl, e)
  | inr e ↦
      let rest = any_stands p cs (ground (arith, e, h)) in (suc rest.0, rest.1, rest.2, rest.3)
]

stands_any :
    (p : Claim → Bool) (cs : List Claim) (i : ℕ) (c : Claim)
    → get_elem? cs i ≡ some c
    → p c ≡ true
    → any p cs ≡ true
stands_any p [] i c h k = ground (arith, h)
stands_any p (d ∷ cs) zero c h k = ground (arith, h, k)
stands_any p (d ∷ cs) (suc i) c h k = ground (arith, stands_any p cs i c h k)

differ : (s t : String) → s ≢ t → text_eq s t ≡ false
differ s t h = elim (Bool-cases (text_eq s t)) [
  | inl e ↦ absurd (h ((text_eq_iff s t).0 e))
  | inr e ↦ e
]

contests-apart :
    (claim other : Claim)
    → contests claim other ≡ true
    → (text_eq other.claim_id claim.claim_id ≡ false)
      × (same_text other.canonical claim.canonical ≡ true)
      × (is_live other.status ≡ true)
      × (text_eq other.value claim.value ≡ false)
unfolding contests
contests-apart claim other h =
    (ground (arith, h), ground (arith, h), ground (arith, h), ground (arith, h))

contests-joined :
    (claim other : Claim)
    → text_eq other.claim_id claim.claim_id ≡ false
    → same_text other.canonical claim.canonical ≡ true
    → is_live other.status ≡ true
    → text_eq other.value claim.value ≡ false
    → contests claim other ≡ true
unfolding contests
contests-joined claim other a b c d = ground (arith, a, b, c, d)

apart : (s t : String) → text_eq s t ≡ false → s ≢ t
apart s t h e = false≢true (sym h ∙ (text_eq_iff s t).1 e)

contests-IsContested :
    (claim : Claim) (all_claims : List Claim)
    → (any (contests claim) all_claims ≡ true) ↔ IsContested claim all_claims
contests-IsContested claim all_claims = (
  λ h.
      let found = any_stands (contests claim) all_claims h in
      let tests = contests-apart claim found.1 found.3 in
      record {
        position = found.0;
        other = found.1;
        stands = found.2;
        another = apart found.1.claim_id claim.claim_id tests.0;
        same_fact = (same_text_iff found.1.canonical claim.canonical).0 tests.1;
        live = live_lem found.1.status tests.2;
        differs = apart found.1.value claim.value tests.3;
      },
  λ c. stands_any (contests claim) all_claims c.position c.other c.stands (
      contests-joined claim c.other (differ c.other.claim_id claim.claim_id c.another)
        ((same_text_iff c.other.canonical claim.canonical).1 c.same_fact)
        (ap is_live c.live ∙ live-is_live) (differ c.other.value claim.value c.differs)),
)

module _ (floats : FloorFloats) (policy : ConfidenceFloor floats.Float) where
  is_defer : DecisionState → Bool
  is_defer DecisionState.defer = true
  is_defer _ = false

  defer_lem : (d : DecisionState) → is_defer d ≡ true → d ≡ DecisionState.defer
  unfolding is_defer
  defer_lem d h = ground arith

  defer-tests :
      (request : RetractionRequest floats.Float) (source : Option Source) (claim : Option Claim)
      (context : DecisionContext) (now : ℕ)
      → is_defer (decide floats policy request source claim context now).0.state ≡ (
          (check_authority source claim request.source_id request.claim_id now).allowed
          && not (is_nil context.contesting_claims))
  unfolding is_defer decide decide_admissibility decide_authorisation evaluate
  defer-tests request source claim context now = ground arith

  -- With the contest found in the graph: a retraction by a source with standing is deferred exactly when
  -- another live claim asserts the same fact with a different value, whatever its confidence, its
  -- corroboration, the radius and the exposure.
  pub decide-defers :
      (request : RetractionRequest floats.Float) (source : Option Source) (claim : Claim)
      (all_claims : List Claim) (blast_radius : ℕ) (exposure_minor : ℤ) (now : ℕ)
      → HasStanding source (some claim) request.source_id
      → ((decide floats policy request source
            (some claim)
            (record {
              blast_radius = blast_radius;
              contesting_claims = find_contesting_claims (some claim) all_claims;
              exposure_minor = exposure_minor;
            })
            now).0.state
          ≡ DecisionState.defer)
        ↔ IsContested claim all_claims
  unfolding find_contesting_claims is_defer
  decide-defers request source claim all_claims blast_radius exposure_minor now h =
      let allowed =
        (check_authority-HasStanding source (some claim) request.source_id request.claim_id now).1
          h in
      let there = contests-IsContested claim all_claims in
      let le = λ (a b : Claim). text_leb (codes a.claim_id) (codes b.claim_id) in
      let contested =
        sort-is_nil le (keep (contests claim) all_claims)
        ∙ any-is_nil (contests claim) all_claims in
      let context : DecisionContext = record {
        blast_radius = blast_radius;
        contesting_claims = find_contesting_claims (some claim) all_claims;
        exposure_minor = exposure_minor;
      } in
      let tests = defer-tests request source (some claim) context now in
      (
        λ e. there.0 (ground (arith, allowed, contested, sym tests ∙ ap is_defer e)),
        λ e.
            defer_lem (decide floats policy request source (some claim) context now).0.state
              (tests ∙ ground (arith, allowed, contested, there.1 e)),
      )
