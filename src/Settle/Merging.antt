-- ===== src/Settle/Merging.antt =====
-- settle/pipeline.py: merge_alerts, over the alert cells of several cascades. A verdict is of any type,
-- and `id_of` is its `conclusion_id`.
use unwind.Base.{
  ℕ, suc, ◌+◌, ◌≡◌, refl, String, true, false, List, [], ◌∷◌, ◌++◌, ◌||◌, if◌then◌else◌, arith,
  length, text_eq, text_eq_iff, contains, ap, Bool-cases, inl, inr, ◌==◌, sym, ◌∙◌, length-append,
}
use mathlib.Core.List.{append-nil, append_assoc}
use unwind.Base.Dict.{firsts, has_key, values}

module _ {ℓ} {Verdict : Type ℓ} (id_of : Verdict → String) where
  -- One round: a commitment that was seen is counted, and keeps its first verdict.
  unfoldable pub merge_verdict : List (String × Verdict) × ℕ → Verdict → List (String × Verdict) × ℕ
  merge_verdict (seen, duplicates) v =
      if has_key (id_of v) seen
      then (seen, suc duplicates)
      else (seen ++ (id_of v, v) ∷ [], duplicates)

  -- The inner loop, over the alerts of one result.
  unfoldable pub merge_result :
      List (String × Verdict) × ℕ → List Verdict → List (String × Verdict) × ℕ
  merge_result acc [] = acc
  merge_result acc (v ∷ vs) = merge_result (merge_verdict acc v) vs

  unfoldable pub merge_all :
      List (String × Verdict) × ℕ → List (List Verdict) → List (String × Verdict) × ℕ
  merge_all acc [] = acc
  merge_all acc (alerts ∷ results) = merge_all (merge_result acc alerts) results

  unfoldable pub merge_alerts : List (List Verdict) → List Verdict × ℕ
  merge_alerts results = let merged = merge_all ([], 0) results in (values merged.0, merged.1)

  -- The alerts of all results, in their order.
  pub flatten : List (List Verdict) → List Verdict
  flatten [] = []
  flatten (alerts ∷ results) = alerts ++ flatten results

  -- How many of the verdicts are on a commitment.
  pub count : String → List Verdict → ℕ
  count id [] = 0
  count id (v ∷ vs) = let rest = count id vs in if text_eq id (id_of v) then suc rest else rest

  has_key-append :
      (i k : String) (v : Verdict) (d : List (String × Verdict))
      → has_key i (d ++ (k, v) ∷ []) ≡ (has_key i d || text_eq i k)
  has_key-append i k v [] = ground arith
  has_key-append i k v ((j, w) ∷ d) = ground (arith, has_key-append i k v d)

  values-append :
      (k : String) (v : Verdict) (d : List (String × Verdict))
      → values (d ++ (k, v) ∷ []) ≡ values d ++ v ∷ []
  values-append k v [] = refl
  values-append k v ((j, w) ∷ d) = ap (λ l. w ∷ l) (values-append k v d)

  known_lem :
      (seen : List (String × Verdict)) (duplicates : ℕ) (v : Verdict)
      → has_key (id_of v) seen ≡ true
      → merge_verdict (seen, duplicates) v ≡ (seen, suc duplicates)
  unfolding merge_verdict
  known_lem seen duplicates v h = rw h refl

  fresh_lem :
      (seen : List (String × Verdict)) (duplicates : ℕ) (v : Verdict)
      → has_key (id_of v) seen ≡ false
      → merge_verdict (seen, duplicates) v ≡ (seen ++ (id_of v, v) ∷ [], duplicates)
  unfolding merge_verdict
  fresh_lem seen duplicates v h = rw h refl

  -- The state of the loop after some alerts: the verdicts it holds are those it held and the first of
  -- each commitment that it did not know.
  merge_result-firsts :
      (seen : List (String × Verdict)) (duplicates : ℕ) (known : List String) (vs : List Verdict)
      → ((i : String) → contains i known ≡ has_key i seen)
      → values (merge_result (seen, duplicates) vs).0 ≡ values seen ++ firsts id_of known vs
  unfolding merge_result firsts
  merge_result-firsts seen duplicates known [] h = sym (append-nil (values seen))
  merge_result-firsts seen duplicates known (v ∷ vs) h =
      elim (Bool-cases (has_key (id_of v) seen)) [
        | inl e ↦ rw (h (id_of v) ∙ e) (
            ap (λ m. values (merge_result m vs).0) (known_lem seen duplicates v e)
            ∙ merge_result-firsts seen (suc duplicates) known vs h)
        | inr e ↦
            let later : values (merge_result (seen ++ (id_of v, v) ∷ [], duplicates) vs).0
                ≡ values (seen ++ (id_of v, v) ∷ []) ++ firsts id_of (id_of v ∷ known) vs =
              merge_result-firsts (seen ++ (id_of v, v) ∷ []) duplicates (id_of v ∷ known) vs
                (λ i. ground (arith, has_key-append i (id_of v) v seen, h i)) in
            rw (h (id_of v) ∙ e) (
              ap (λ m. values (merge_result m vs).0) (fresh_lem seen duplicates v e)
              ∙ later
              ∙ ap (λ l. l ++ firsts id_of (id_of v ∷ known) vs) (values-append (id_of v) v seen)
              ∙ append_assoc (values seen) (v ∷ []) (firsts id_of (id_of v ∷ known) vs))
      ]

  merge_result-append :
      (acc : List (String × Verdict) × ℕ) (vs ws : List Verdict)
      → merge_result acc (vs ++ ws) ≡ merge_result (merge_result acc vs) ws
  unfolding merge_result
  merge_result-append acc [] ws = refl
  merge_result-append acc (v ∷ vs) ws = merge_result-append (merge_verdict acc v) vs ws

  -- The nested loops are one loop over the alerts of all results.
  merge_all-flatten :
      (acc : List (String × Verdict) × ℕ) (results : List (List Verdict))
      → merge_all acc results ≡ merge_result acc (flatten results)
  unfolding merge_all flatten merge_result
  merge_all-flatten acc [] = refl
  merge_all-flatten acc (alerts ∷ results) =
      rw (merge_result-append acc alerts (flatten results))
        (merge_all-flatten (merge_result acc alerts) results)

  count-firsts :
      (id : String) (known : List String) (vs : List Verdict)
      → count id (firsts id_of known vs)
        ≡ (if contains id known then 0 else if count id vs == 0 then 0 else 1)
  unfolding count firsts
  count-firsts id known [] = ground arith
  count-firsts id known (v ∷ vs) = ground (
    arith,
    count-firsts id known vs,
    count-firsts id (id_of v ∷ known) vs,
    text_eq_iff id (id_of v),
  )

  merge_result-total :
      (seen : List (String × Verdict)) (duplicates : ℕ) (vs : List Verdict)
      → let merged = merge_result (seen, duplicates) vs in
        length (values merged.0) + merged.1 ≡ length (values seen) + duplicates + length vs
  unfolding merge_result
  merge_result-total seen duplicates [] = ground arith
  merge_result-total seen duplicates (v ∷ vs) = elim (Bool-cases (has_key (id_of v) seen)) [
    | inl e ↦
        ap total (known_lem seen duplicates v e)
        ∙ ground (arith, merge_result-total seen (suc duplicates) vs)
    | inr e ↦
        ap total (fresh_lem seen duplicates v e)
        ∙ ground (
          arith,
          merge_result-total (seen ++ (id_of v, v) ∷ []) duplicates vs,
          ap length (values-append (id_of v) v seen),
          length-append (values seen) (v ∷ []),
        )
  ]
    where
      total : List (String × Verdict) × ℕ → ℕ
      total m = length (values (merge_result m vs).0) + (merge_result m vs).1

  -- However the alerts are spread over the results: the merged verdicts are the first of each
  -- commitment, in their order; a commitment has exactly one of them where it had any alert; and
  -- the merged and the duplicates together are as many as the alerts.
  pub merge_alerts-firsts :
      (results : List (List Verdict))
      → let merged = merge_alerts results in
        (merged.0 ≡ firsts id_of [] (flatten results))
        × ((id : String) → count id merged.0 ≡ (if count id (flatten results) == 0 then 0 else 1))
        × (length merged.0 + merged.1 ≡ length (flatten results))
  unfolding merge_alerts
  merge_alerts-firsts results =
      let one = merge_all-flatten ([], 0) results in
      let same =
        ap (λ m. values m.0) one ∙ merge_result-firsts [] 0 [] (flatten results) (λ i. refl) in
      (
        same,
        λ id. ap (count id) same ∙ count-firsts id [] (flatten results),
        ground (
          arith,
          ap (λ m. length (values m.0) + m.1) one,
          merge_result-total [] 0 (flatten results),
        ),
      )
