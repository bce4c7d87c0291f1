-- ===== src/Retrieval/Fusion.antt =====
-- src/memhub/retrieval/fusion.py: reciprocal rank fusion. A ranking has the name of its retriever; a
-- `dict` is a list of its items in the order in which they were inserted.
use mcp_shared_memory_hub.Prelude.{
  ℕ, suc, ◌+◌, Bool, Option, none, some, List, [], ◌∷◌, ltb, ◌==◌, Text, text_eq, map, sort_by,
  if◌then◌else◌,
}
use mcp_shared_memory_hub.Context.Floats.{Floats, ranks_before}

abbrev pub rrf_k : ℕ
rrf_k = 60

pub record FusedResult (F : Type 0) : Type 0 where
  pub memory_id : ℕ
  pub score : F
  pub lexical_rank : Option ℕ
  pub semantic_rank : Option ℕ

-- a retriever's name, its weight (`weights.get(name, 1.0)`) and its ids, best first
pub record Ranking (F : Type 0) : Type 0 where
  pub name : Text
  pub weight : F
  pub ids : List ℕ

abbrev pub lexical : Text
lexical = b'l' ∷ b'e' ∷ b'x' ∷ b'i' ∷ b'c' ∷ b'a' ∷ b'l' ∷ []

abbrev pub semantic : Text
semantic = b's' ∷ b'e' ∷ b'm' ∷ b'a' ∷ b'n' ∷ b't' ∷ b'i' ∷ b'c' ∷ []

-- positions[name].get(memory_id): the last rank that was stored
unfoldable pub rank_in : ℕ → ℕ → Option ℕ → List ℕ → Option ℕ
rank_in index n found [] = found
rank_in index n found (m ∷ ids) =
    rank_in (suc index) n (if m == n then some (index + 1) else found) ids

module _ (fl : Floats) where
  abbrev pub Scores : Type 0
  Scores = List (ℕ × fl.F)

  -- scores[n] = scores.get(n, 0.0) + amount
  unfoldable pub add_score : ℕ → fl.F → Scores → Scores
  add_score n amount [] = (n, fl.plus (fl.decimal 0 0) amount) ∷ []
  add_score n amount ((m, score) ∷ scores) =
      if m == n then (m, fl.plus score amount) ∷ scores else (m, score) ∷ add_score n amount scores

  -- the inner loop, from a position on
  unfoldable pub add_ranking : ℕ → fl.F → ℕ → List ℕ → Scores → Scores
  add_ranking k weight index [] scores = scores
  add_ranking k weight index (n ∷ ids) scores =
      add_ranking k weight (suc index) ids
        (add_score n (fl.over weight (fl.of_nat (k + (index + 1)))) scores)

  unfoldable pub add_rankings : ℕ → List (Ranking fl.F) → Scores → Scores
  add_rankings k [] scores = scores
  add_rankings k (r ∷ rankings) scores =
      add_rankings k rankings (add_ranking k r.weight 0 r.ids scores)

  -- positions.get(name, {}).get(memory_id)
  unfoldable pub position : Text → ℕ → List (Ranking fl.F) → Option ℕ
  position name n [] = none
  position name n (r ∷ rankings) =
      let rest = position name n rankings in
      if text_eq r.name name then rank_in 0 n none r.ids else rest

  abbrev pub as_result : List (Ranking fl.F) → ℕ × fl.F → FusedResult fl.F
  as_result rankings (n, score) = record {
    memory_id = n;
    score = score;
    lexical_rank = position lexical n rankings;
    semantic_rank = position semantic n rankings;
  }

  abbrev pub fused_before : FusedResult fl.F → FusedResult fl.F → Bool
  fused_before a b = ranks_before fl a.score (ltb a.memory_id b.memory_id) b.score

  unfoldable pub reciprocal_rank_fusion : ℕ → List (Ranking fl.F) → List (FusedResult fl.F)
  reciprocal_rank_fusion k rankings =
      sort_by fused_before (map (as_result rankings) (add_rankings k rankings []))
