-- ===== src/Domain/Policy.antt =====
-- src/memhub/domain/policy.py. A duration is a number of microseconds, as in a `timedelta`.
use mcp_shared_memory_hub.Prelude.{ℕ, ◌*◌, Option, none, some}
use mcp_shared_memory_hub.Domain.Enums.{MemoryType, decision, constraint, fact, task}

pub record TypePolicy : Type 0 where
  pub default_ttl : Option ℕ
  pub max_ttl : Option ℕ
  pub base_importance : ℕ

abbrev pub days : ℕ → ℕ
days n = n * 86400000000

abbrev pub type_policy : MemoryType → TypePolicy
type_policy constraint = record { default_ttl = none; max_ttl = none; base_importance = 80 }
type_policy decision = record { default_ttl = none; max_ttl = none; base_importance = 70 }
type_policy fact = record { default_ttl = none; max_ttl = none; base_importance = 50 }
type_policy task = record {
  default_ttl = some (days 7);
  max_ttl = some (days 30);
  base_importance = 40;
}

abbrev pub max_content_length : ℕ
max_content_length = 8192

abbrev pub max_tags : ℕ
max_tags = 16

abbrev pub max_search_limit : ℕ
max_search_limit = 100

abbrev pub default_search_limit : ℕ
default_search_limit = 10
