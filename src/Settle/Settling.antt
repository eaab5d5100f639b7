-- ===== src/Settle/Settling.antt =====
-- settle/pipeline.py: what a settlement raises, and what waits for a signature after it.
use unwind.Base.{
  ℕ, ◌≡◌, refl, String, Bool, true, false, ◌||◌, List, [], ◌∷◌, ◌++◌, none, some, arith, length,
  map, keep, any, lookup, All, All-append, text_eq, ok, ◌>>=◌, ap, sym, ◌∙◌, Option-cases, inl, inr,
  ◌==◌,
}
use unwind.Base.Dict.{has_key, put, has_key-put}
use unwind.Spine.Schema.{Conclusion}
use unwind.Court.Schema.{Floats, T2Model}
use unwind.Court.Team.{Verdict, dissolve, owner_ids, form_team}
use unwind.Court.Hearing.{run_repair-ends}
use unwind.Principals.{assert_arbiter_is_third}
use unwind.Court.Protocol.{Proceedings, run_repair}
use unwind.Settle.Obligation.{
  ObligationStatus, DraftedObligation, build_obligation, draft, approver_for, is_empty,
}
use unwind.Settle.Broker.{
  Outstanding, Why, request_signature, request_for, approver_of, with_status,
}
use unwind.Settle.Pipeline.{
  Store, Raised, Request, Settlement, when_found, correct, correct_all, raise_next, from_obligation,
  from_broker, draft_correction, from_court, settle, settle_hearing, settlement_of, team_of,
  hearing_of, to_correct, radius_of, why_of,
}
use unwind.Settle.Pipeline.Drafting.{obligation_id_of, old_summary, new_summary, shock_of}
use mathlib.Core.List.{append-nil, append_assoc}

module _ (floats : Floats) (store : Store) (model : T2Model floats.Float) where
  -- The store can read the commitment.
  pub is_readable : String → Bool
  is_readable id = when_found (store id) false (λ c. true)

  abbrev pub raised_ids : List DraftedObligation → List String
  raised_ids = map (λ d. d.obligation.obligation_id)

  abbrev pub IsAwaiting : DraftedObligation → Type 0
  IsAwaiting d = d.obligation.status ≡ ObligationStatus.awaiting_signature

  module _ (repair_id : String) (radius : List (String × Verdict floats.Float)) (now : ℕ)
      (why : Why) where
    correct_all-none :
        (r : Raised floats store model) (id : String) (ids : List String)
        → store id ≡ none
        → correct_all floats store model repair_id radius now why r (id ∷ ids)
          ≡ correct_all floats store model repair_id radius now why r ids
    unfolding correct_all when_found
    correct_all-none r id ids e = rw (correct_all, e) refl

    correct_all-some :
        (r : Raised floats store model) (id : String) (ids : List String) (c : Conclusion)
        → store id ≡ some c
        → correct_all floats store model repair_id radius now why r (id ∷ ids) ≡ (
            correct floats store model repair_id radius now why r id c >>= λ later.
            correct_all floats store model repair_id radius now why later ids)
    unfolding correct_all when_found
    correct_all-some r id ids c e = rw (correct_all, e) refl

    keep-none :
        (id : String) (ids : List String)
        → store id ≡ none
        → keep is_readable (id ∷ ids) ≡ keep is_readable ids
    unfolding is_readable when_found
    keep-none id ids e = rw e refl

    keep-some :
        (id : String) (ids : List String) (c : Conclusion)
        → store id ≡ some c
        → keep is_readable (id ∷ ids) ≡ id ∷ keep is_readable ids
    unfolding is_readable when_found
    keep-some id ids c e = rw e refl

    -- One commitment is corrected: an obligation is raised, and its request waits.
    record Corrected (r : Raised floats store model) (id : String) (c : Conclusion) : Type 0 where
      later : Raised floats store model
      same : correct floats store model repair_id radius now why r id c ≡ ok later
      raised :
          raised_ids later.obligations
          ≡ raised_ids r.obligations ++ obligation_id_of repair_id id ∷ []
      awaiting : All IsAwaiting r.obligations → All IsAwaiting later.obligations
      waits :
          (i : String)
          → has_key i later.outstanding
            ≡ (text_eq i (obligation_id_of repair_id id) || has_key i r.outstanding)

    map-append :
        (ds : List DraftedObligation) (d : DraftedObligation)
        → raised_ids (ds ++ d ∷ []) ≡ raised_ids ds ++ d.obligation.obligation_id ∷ []
    map-append [] d = refl
    map-append (e ∷ ds) d = ap (λ l. e.obligation.obligation_id ∷ l) (map-append ds d)

    corrected : (r : Raised floats store model) (id : String) (c : Conclusion) → Corrected r id c
    unfolding correct from_obligation build_obligation approver_for is_empty raise_next
        request_signature from_broker draft approver_of with_status
    corrected r id c =
        let d =
          draft c (obligation_id_of repair_id id) (old_summary c)
            (new_summary c (shock_of (lookup id radius)))
            (draft_correction floats store model c (shock_of (lookup id radius)))
            (some repair_id) in
        let sent : DraftedObligation = record d {
          obligation = with_status ObligationStatus.awaiting_signature d.obligation;
        } in
        let q = request_for d.obligation (length d.unrecoverable) now why in
        record {
          later = record {
            obligations = r.obligations ++ sent ∷ [];
            requests = r.requests ++ q ∷ [];
            outstanding = put (obligation_id_of repair_id id) q r.outstanding;
          };
          same = refl;
          raised = map-append r.obligations sent;
          awaiting = λ h. All-append IsAwaiting r.obligations (sent ∷ []) h (refl, tt);
          waits = λ i. has_key-put i (obligation_id_of repair_id id) q r.outstanding;
        }

    -- The loop raises one obligation for each readable commitment, in order, and their requests wait.
    record CorrectedAll (r : Raised floats store model) (ids : List String) : Type 0 where
      later : Raised floats store model
      same : correct_all floats store model repair_id radius now why r ids ≡ ok later
      raised :
          raised_ids later.obligations
          ≡ raised_ids r.obligations ++ map (obligation_id_of repair_id) (keep is_readable ids)
      awaiting : All IsAwaiting r.obligations → All IsAwaiting later.obligations
      waits :
          (i : String)
          → has_key i later.outstanding ≡ (
              has_key i r.outstanding
              || any (λ id. text_eq i (obligation_id_of repair_id id)) (keep is_readable ids))

    skip_one :
        (r : Raised floats store model) (id : String) (ids : List String)
        → store id ≡ none
        → CorrectedAll r ids
        → CorrectedAll r (id ∷ ids)
    skip_one r id ids e rest = record {
      later = rest.later;
      same = correct_all-none r id ids e ∙ rest.same;
      raised = rw (keep-none id ids e) rest.raised;
      awaiting = rest.awaiting;
      waits = λ i. rw (keep-none id ids e) (rest.waits i);
    }

    take_one :
        (r : Raised floats store model) (id : String) (ids : List String) (c : Conclusion)
        → store id ≡ some c
        → (one : Corrected r id c) → CorrectedAll one.later ids
        → CorrectedAll r (id ∷ ids)
    take_one r id ids c e one rest = record {
      later = rest.later;
      same =
          correct_all-some r id ids c e
          ∙ ap
              (λ m.
                m >>= λ later. correct_all floats store model repair_id radius now why later ids)
              one.same
          ∙ rest.same;
      raised = rw (keep-some id ids c e) (
          rest.raised
          ∙ ap (λ l. l ++ map (obligation_id_of repair_id) (keep is_readable ids)) one.raised
          ∙ append_assoc (raised_ids r.obligations) (obligation_id_of repair_id id ∷ [])
              (map (obligation_id_of repair_id) (keep is_readable ids)));
      awaiting = λ h. rest.awaiting (one.awaiting h);
      waits = λ i. rw (keep-some id ids c e) (ground (arith, rest.waits i, one.waits i));
    }

    corrected_all : (r : Raised floats store model) (ids : List String) → CorrectedAll r ids
    unfolding correct_all
    corrected_all r [] = record {
      later = r;
      same = refl;
      raised = sym (append-nil (raised_ids r.obligations));
      awaiting = λ h. h;
      waits = λ i. ground arith;
    }
    corrected_all r (id ∷ ids) = elim (Option-cases (store id)) [
      | inl e ↦ skip_one r id ids e (corrected_all r ids)
      | inr (c, e) ↦
          take_one r id ids c e (corrected r id c) (corrected_all (corrected r id c).later ids)
    ]

  -- The settlement of a hearing that is held.
  settle_held :
      (q : Request floats store model) (outstanding : Outstanding) (p : Proceedings floats)
      → length (team_of floats store model q).members == 0 ≡ false
      → run_repair floats (hearing_of floats store model q) (team_of floats store model q) ≡ ok p
      → let corrected = keep is_readable (to_correct floats store model p.outcome) in
        (s : Settlement floats store model) × (after : Outstanding) × (settle floats store model q
            outstanding
          ≡ ok (s, after))
        × (s.proceedings ≡ some (record p { team = dissolve p.team }))
        × All IsAwaiting s.obligations
        × (raised_ids s.obligations ≡ map (obligation_id_of q.repair_id) corrected)
        × ((i : String)
            → has_key i after ≡ (
                has_key i outstanding
                || any (λ id. text_eq i (obligation_id_of q.repair_id id)) corrected))
        × (s.team.dissolved ≡ true)
  unfolding settle settle_hearing settlement_of from_court dissolve
  settle_held q outstanding p some_member held =
      let all =
        corrected_all q.repair_id (radius_of floats store model q) q.now
          (why_of floats store model p.outcome)
          (record { obligations = []; requests = []; outstanding = outstanding })
          (to_correct floats store model p.outcome) in
      (
        settlement_of floats store model q (dissolve (team_of floats store model q))
            (some (record p { team = dissolve p.team })) all.later,
        all.later.outstanding,
        rw (some_member, held, all.same) refl,
        refl,
        all.awaiting tt,
        all.raised,
        all.waits,
        refl,
      )

  -- Where some commitment has a seat and the arbiter, the owners, the assessor and the re-deriver share
  -- no principal, the settlement never raises: its hearing ends with four turns and an outcome; it
  -- raises one obligation for each commitment that the outcome concedes or amends and the store can
  -- read, in that order and for no other, and leaves each awaiting its signature; the request of each
  -- waits, what waited before goes on waiting, and nothing else starts to; and the team is dissolved,
  -- in the settlement and in its proceedings.
  pub settle-raises :
      (q : Request floats store model) (outstanding : Outstanding)
      → length (team_of floats store model q).members == 0 ≡ false
      → assert_arbiter_is_third q.arbiter_id
          (owner_ids (team_of floats store model q))
          q.assessor
          q.rederiver
        ≡ ok tt
      → (p : Proceedings floats) × (s : Settlement floats store model) × (after : Outstanding)
        × (settle floats store model q outstanding ≡ ok (s, after))
        × (s.proceedings ≡ some (record p { team = dissolve p.team }))
        × (p.turns_used ≡ 4)
        × All IsAwaiting s.obligations
        × (raised_ids s.obligations
            ≡ map
                (obligation_id_of q.repair_id)
                (keep is_readable (to_correct floats store model p.outcome)))
        × ((i : String)
            → has_key i after ≡ (
                has_key i outstanding
                || any
                    (λ id. text_eq i (obligation_id_of q.repair_id id))
                    (keep is_readable (to_correct floats store model p.outcome))))
        × (s.team.dissolved ≡ true)
  unfolding hearing_of team_of form_team
  settle-raises q outstanding some_member third =
      let hearing =
        run_repair-ends floats (hearing_of floats store model q) (team_of floats store model q) refl
          third in
      let s = settle_held q outstanding hearing.0 some_member hearing.2 in
      (hearing.0, s.0, s.1, s.2, s.3, hearing.3, s.4, s.5, s.6, s.7)
