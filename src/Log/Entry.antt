-- ===== src/Log/Entry.antt =====
-- The data of the replication log: ranges, persisted entries, log operations, errors
-- (dozer-log/src/replication/mod.rs).
use dozer.Common.{
  ℕ, ◌-◌, ◌≤◌, ◌≡◌, Bool, true, false, ◌&&◌, Option, List, [], ◌∷◌, String, ltb, leb,
}
use dozer.Types.{Operation}

-- `std::ops::Range<usize>`.
pub record Range : Type 0 where
  pub start : ℕ
  pub end : ℕ

abbrev pub is_empty : Range → Bool
is_empty r = leb r.end r.start

abbrev pub contains : Range → ℕ → Bool
contains r i = leb r.start i && ltb i r.end

abbrev pub len : Range → ℕ
len r = r.end - r.start

pub record PersistedLogEntry : Type 0 where
  pub key : String
  pub epoch_id : ℕ
  pub range : Range

-- `R` is the type of records, `S` that of the source states: the log looks into neither.
pub data LogOperation (R S : Type 0) : Type 0 where
  op : Operation R → LogOperation R S
  commit : S → ℕ → LogOperation R S
  snapshotting_started : String → LogOperation R S
  snapshotting_done : String → LogOperation R S

unfoldable pub is_commit : {R S : Type 0} → LogOperation R S → Bool
is_commit (commit s t) = true
is_commit _ = false

-- `panicked` stands for a panic of the thread that runs the operation.
pub data Error : Type 0 where
  panicked : Error
  epoch_id_mismatch : Option ℕ → Option ℕ → Error
  unrecognized_log_entry : String → Error
  first_log_entry_not_start_from_zero : PersistedLogEntry → Error
  log_entry_not_consecutive : PersistedLogEntry → PersistedLogEntry → Error
  persisting_thread_quit : Error

-- The ranges follow one another from `a` to `b`.
abbrev pub Consecutive : ℕ → List Range → ℕ → Type 0
Consecutive a [] b = a ≡ b
Consecutive a (r ∷ rs) b = (r.start ≡ a) × (a ≤ r.end) × Consecutive r.end rs b
