-- ===== src/Domain/Validation/Bounds.antt =====
-- The ranges of what domain/validation.py accepts.
use mcp_shared_memory_hub.Prelude.{ℕ, ◌+◌, ◌≤◌, ◌<◌, ◌≡◌, Option, none, some, arith, Text, length}
use mcp_shared_memory_hub.Domain.Enums.{MemoryType, decision, constraint, fact, task}
use mcp_shared_memory_hub.Domain.Errors.{ok}
use mcp_shared_memory_hub.Domain.Policy.{days}
use mcp_shared_memory_hub.Domain.Validation.{
  ℤ, Datetime, validate_content, validate_importance, resolve_expiry,
}

-- An expiry that lies in the future and, for a task, within thirty days; only other types do
-- without.
abbrev pub ExpiryFits : MemoryType → ℕ → Option ℕ → Type 0
ExpiryFits task now none = ⊥
ExpiryFits task now (some t) = (now < t) × (t ≤ now + days 30)
ExpiryFits _ now none = Unit
ExpiryFits _ now (some t) = now < t

-- Whatever expiry is accepted lies after the reference time, and a task always gets one, at most
-- thirty days ahead.
pub resolve_expiry-ExpiryFits :
    (asked : Option Datetime) (memory_type : MemoryType) (now : ℕ) {expiry : Option ℕ}
    → resolve_expiry asked memory_type now ≡ ok expiry
    → ExpiryFits memory_type now expiry
unfolding resolve_expiry
resolve_expiry-ExpiryFits none decision now h = ground arith
resolve_expiry-ExpiryFits none constraint now h = ground arith
resolve_expiry-ExpiryFits none fact now h = ground arith
resolve_expiry-ExpiryFits none task now h = ground arith
resolve_expiry-ExpiryFits (some t) decision now h = ground arith
resolve_expiry-ExpiryFits (some t) constraint now h = ground arith
resolve_expiry-ExpiryFits (some t) fact now h = ground arith
resolve_expiry-ExpiryFits (some t) task now h = ground arith

pub validate_importance-le :
    (asked : Option ℤ) (memory_type : MemoryType) {importance : ℕ}
    → validate_importance asked memory_type ≡ ok importance
    → importance ≤ 100
unfolding validate_importance
validate_importance-le none decision h = ground arith
validate_importance-le none constraint h = ground arith
validate_importance-le none fact h = ground arith
validate_importance-le none task h = ground arith
validate_importance-le (some (ℤ.pos n)) memory_type h = ground arith
validate_importance-le (some (ℤ.negsuc n)) memory_type h = ground arith

pub validate_content-bounds :
    (content : Text) {clean : Text}
    → validate_content content ≡ ok clean
    → (1 ≤ length clean) × (length clean ≤ 8192)
unfolding validate_content
validate_content-bounds content h = ground arith
