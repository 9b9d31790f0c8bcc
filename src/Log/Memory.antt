-- ===== src/Log/Memory.antt =====
-- The part of the log that is not persisted yet: `InMemoryLog` of dozer-log/src/replication/mod.rs.
use dozer.Common.{
  ℕ, ◌+◌, ◌-◌, Bool, ◌&&◌, List, ltb, leb, if◌then◌else◌, length, take, drop, min, Result, ok, err,
}
use dozer.Log.Entry.{Range, Error, panicked}

pub record InMemoryLog (A : Type 0) : Type 0 where
  pub start : ℕ
  pub ops : List A
  pub next_persist_start : ℕ

module _ {A : Type 0} where
  abbrev pub end : InMemoryLog A → ℕ
  end m = m.start + length m.ops

  abbrev pub contains : InMemoryLog A → ℕ → Bool
  contains m i = leb m.start i && ltb i (end m)

  -- `ops[a..b].to_vec()`.
  abbrev pub slice : List A → ℕ → ℕ → Result Error (List A)
  slice xs a b =
      if leb a b && leb b (length xs) then ok (take (b - a) (drop a xs)) else err panicked

  -- Where `range.start - self.start` would fall below zero, the subtraction or the slice panics.
  unfoldable pub clone_range : InMemoryLog A → Range → Result Error (List A)
  clone_range m r =
      if leb m.start r.start && leb m.start r.end
      then slice m.ops (r.start - m.start) (r.end - m.start)
      else err panicked

  -- The operations of a log that fall in a range, cut at the log's end.
  abbrev pub section_of : List A → Range → List A
  section_of h r = take (min r.end (length h) - r.start) (drop r.start h)
