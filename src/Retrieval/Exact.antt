-- ===== src/Retrieval/Exact.antt =====
-- src/memhub/retrieval/fusion.py: the memories of the rankings and of their fusion.
use mcp_shared_memory_hub.Prelude.{
  ℕ, suc, ◌+◌, ◌≡◌, refl, sym, subst, ap, ◌∙◌, inl, inr, Bool, false, ◌||◌, List, [], ◌∷◌, ◌++◌,
  map, arith, ◌==◌, ==_iff, any, sort_by, insert_sorted, Bool-cases, if◌then◌else◌,
}
use mcp_shared_memory_hub.Context.Floats.{Floats}
use mcp_shared_memory_hub.Retrieval.Fusion.{
  FusedResult, Ranking, add_score, add_ranking, add_rankings, as_result, fused_before,
  reciprocal_rank_fusion,
}

abbrev pub occurrences : ℕ → List ℕ → ℕ
occurrences n [] = 0
occurrences n (m ∷ ids) = (if m == n then 1 else 0) + occurrences n ids

abbrev pub ids_of : {F : Type 0} → List (FusedResult F) → List ℕ
ids_of results = map (λ r. r.memory_id) results

abbrev pub is_ranked : {F : Type 0} → ℕ → List (Ranking F) → Bool
is_ranked n rankings = any (λ r. any (λ m. m == n) r.ids) rankings

abbrev pub once : Bool → ℕ
once b = if b then 1 else 0

abbrev has : ℕ → List ℕ → Bool
has n ids = any (λ m. m == n) ids

-- every id occurs once or not at all
abbrev AtMostOnce : List ℕ → Type 0
AtMostOnce ids = (n : ℕ) → occurrences n ids ≡ once (has n ids)

abbrev add_key : ℕ → List ℕ → List ℕ
add_key m ids = if has m ids then ids else ids ++ m ∷ []

occurrences-append :
    (n m : ℕ) (ids : List ℕ) → occurrences n (ids ++ m ∷ []) ≡ occurrences n ids + once (m == n)
occurrences-append n m [] = omega arith
occurrences-append n m (k ∷ ids) = ground (arith, occurrences-append n m ids)

has-append : (n m : ℕ) (ids : List ℕ) → has n (ids ++ m ∷ []) ≡ (has n ids || m == n)
has-append n m [] = ground arith
has-append n m (k ∷ ids) = ground (arith, has-append n m ids)

has-add_key : (n m : ℕ) (ids : List ℕ) → has n (add_key m ids) ≡ (has n ids || m == n)
has-add_key n m ids = elim (Bool-cases (has m ids)) [
  | inl e ↦ rw e (elim (Bool-cases (m == n)) [
    | inl same ↦ rw (same, ← (==_iff m n).0 same, e) refl
    | inr other ↦ rw other (ground arith)
  ])
  | inr e ↦ rw e (has-append n m ids)
]

add_key-AtMostOnce : (m : ℕ) (ids : List ℕ) → AtMostOnce ids → AtMostOnce (add_key m ids)
add_key-AtMostOnce m ids once_each n = elim (Bool-cases (has m ids)) [
  | inl e ↦ rw e (once_each n)
  | inr e ↦ rw e (elim (Bool-cases (m == n)) [
    | inl same ↦
        let absent : has n ids ≡ false = rw (← (==_iff m n).0 same) e in
        rw (occurrences-append n m ids, has-append n m ids, once_each n, absent, same) refl
    | inr other ↦
        rw (occurrences-append n m ids, has-append n m ids, once_each n, other) (ground arith)
  ])
]

module _ (fl : Floats) where
  abbrev keys : List (ℕ × fl.F) → List ℕ
  keys scores = map (λ x. x.0) scores

  keys-add_score :
      (m : ℕ) (amount : fl.F) (scores : List (ℕ × fl.F))
      → keys (add_score fl m amount scores) ≡ add_key m (keys scores)
  unfolding add_score
  keys-add_score m amount [] = refl
  keys-add_score m amount ((k, score) ∷ scores) = elim (Bool-cases (k == m)) [
    | inl e ↦ rw e refl
    | inr e ↦ rw e (
        rw (keys-add_score m amount scores)
          (elim (Bool-cases (has m (keys scores))) [ inl e' ↦ rw e' refl | inr e' ↦ rw e' refl ]))
  ]

  -- what a loop over rankings makes of the keys
  record Tallies (ranked : ℕ → Bool) (scores scores' : List (ℕ × fl.F)) : Type 0 where
    at_most_once : AtMostOnce (keys scores')
    exactly : (n : ℕ) → has n (keys scores') ≡ (has n (keys scores) || ranked n)

  add_ranking-Tallies :
      (k : ℕ) (weight : fl.F) (index : ℕ) (ids : List ℕ) (scores : List (ℕ × fl.F))
      → AtMostOnce (keys scores)
      → Tallies (λ n. has n ids) scores (add_ranking fl k weight index ids scores)
  unfolding add_ranking
  add_ranking-Tallies k weight index [] scores h = record {
    at_most_once = h;
    exactly = λ n. ground arith;
  }
  add_ranking-Tallies k weight index (m ∷ ids) scores h =
      let amount = fl.over weight (fl.of_nat (k + (index + 1))) in
      let same = keys-add_score m amount scores in
      let rest =
        add_ranking-Tallies k weight (suc index) ids (add_score fl m amount scores)
          (subst AtMostOnce (sym same) (add_key-AtMostOnce m (keys scores) h)) in
      record {
        at_most_once = rest.at_most_once;
        exactly = λ n.
            let first_one : has n (keys (add_score fl m amount scores))
                ≡ (has n (keys scores) || m == n) =
              ap (has n) same ∙ has-add_key n m (keys scores) in
            rest.exactly n ∙ rw first_one (ground arith);
      }

  add_rankings-Tallies :
      (k : ℕ) (rankings : List (Ranking fl.F)) (scores : List (ℕ × fl.F))
      → AtMostOnce (keys scores)
      → Tallies (λ n. is_ranked n rankings) scores (add_rankings fl k rankings scores)
  unfolding add_rankings
  add_rankings-Tallies k [] scores h = record { at_most_once = h; exactly = λ n. ground arith }
  add_rankings-Tallies k (r ∷ rankings) scores h =
      let one = add_ranking-Tallies k r.weight 0 r.ids scores h in
      let rest =
        add_rankings-Tallies k rankings (add_ranking fl k r.weight 0 r.ids scores)
          one.at_most_once in
      record {
        at_most_once = rest.at_most_once;
        exactly = λ n. rest.exactly n ∙ rw (one.exactly n) (ground arith);
      }

  occurrences-insert :
      (before : FusedResult fl.F → FusedResult fl.F → Bool) (n : ℕ) (x : FusedResult fl.F)
      (ys : List (FusedResult fl.F))
      → occurrences n (ids_of (insert_sorted before x ys))
        ≡ once (x.memory_id == n) + occurrences n (ids_of ys)
  unfolding insert_sorted
  occurrences-insert before n x [] = refl
  occurrences-insert before n x (y ∷ ys) = ground (arith, occurrences-insert before n x ys)

  occurrences-sort_by :
      (before : FusedResult fl.F → FusedResult fl.F → Bool) (n : ℕ) (xs : List (FusedResult fl.F))
      → occurrences n (ids_of (sort_by before xs)) ≡ occurrences n (ids_of xs)
  unfolding sort_by
  occurrences-sort_by before n [] = refl
  occurrences-sort_by before n (x ∷ xs) =
      occurrences-insert before n x (sort_by before xs)
      ∙ ap (λ k. once (x.memory_id == n) + k) (occurrences-sort_by before n xs)

  ids_of-as_result :
      (rankings : List (Ranking fl.F)) (scores : List (ℕ × fl.F))
      → ids_of (map (as_result fl rankings) scores) ≡ keys scores
  ids_of-as_result rankings [] = refl
  ids_of-as_result rankings (x ∷ scores) = ap (λ l. x.0 ∷ l) (ids_of-as_result rankings scores)

  -- Whatever the arithmetic of the scores and the weights, a memory occurs in the fused list exactly
  -- once if some retriever ranked it, also if several did or one did twice, and not at all otherwise.
  pub fusion_exact :
      (k n : ℕ) (rankings : List (Ranking fl.F))
      → occurrences n (ids_of (reciprocal_rank_fusion fl k rankings)) ≡ once (is_ranked n rankings)
  unfolding reciprocal_rank_fusion
  fusion_exact k n rankings =
      let scores = add_rankings fl k rankings [] in
      let tallies = add_rankings-Tallies k rankings [] (λ n. refl) in
      occurrences-sort_by (fused_before fl) n (map (as_result fl rankings) scores)
      ∙ ap (occurrences n) (ids_of-as_result rankings scores)
      ∙ tallies.at_most_once n
      ∙ ap once (tallies.exactly n)
