-- ===== src/Domain/Enums.antt =====
-- src/memhub/domain/enums.py: the three enumerations, with the equality that the code compares by.
use mcp_shared_memory_hub.Prelude.{◌≡◌, refl, Bool, true, false, arith}

pub data MemoryType : Type 0 where
  decision constraint fact task : MemoryType

pub data MemoryStatus : Type 0 where
  active superseded deleted : MemoryStatus

pub data AuthorKind : Type 0 where
  agent human_confirmed import_ : AuthorKind

abbrev pub type_eq : MemoryType → MemoryType → Bool
type_eq decision decision = true
type_eq constraint constraint = true
type_eq fact fact = true
type_eq task task = true
type_eq _ _ = false

abbrev pub is_active : MemoryStatus → Bool
is_active active = true
is_active superseded = false
is_active deleted = false

pub is_active-eq : (s : MemoryStatus) → is_active s ≡ true → s ≡ active
is_active-eq active h = refl
is_active-eq superseded h = ground arith
is_active-eq deleted h = ground arith
