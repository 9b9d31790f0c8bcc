-- ===== src/Log/Watch.antt =====
-- Readers that wait for operations to come: `Watcher`, `trigger_watcher` and the two calls of
-- `retain_mut` of dozer-log/src/replication/mod.rs.
use dozer.Common.{
  ℕ, Bool, true, ◌&&◌, ◌||◌, List, [], ◌∷◌, ◌==◌, if◌then◌else◌, min, Result, ok, err, ◌>>=◌,
}
use dozer.Log.Entry.{Range, Error, panicked}
use dozer.Log.Memory
use dozer.Log.Memory.{InMemoryLog, clone_range}

-- `sender` tells whether the sending half of the reader's channel is still there.
pub record Watcher : Type 0 where
  pub id : ℕ
  pub request : Range
  pub timeout : Bool
  pub sender : Bool

-- What a watcher's channel carries to its reader.
pub record Sent (A : Type 0) : Type 0 where
  pub to : ℕ
  pub ops : List A

module _ {A : Type 0} where
  -- The watcher is dropped by every caller, so only the message is returned.
  unfoldable pub trigger_watcher : Watcher → InMemoryLog A → Result Error (Sent A)
  unfolding clone_range
  trigger_watcher w m =
      if w.sender
      then (do
        ops ← clone_range m (record w.request { end = min w.request.end (Memory.end m) })
        ok (record { to = w.id; ops = ops }))
      else err panicked

  -- `retain_mut` with a closure that triggers the watchers that pass `test` and drops them.
  unfoldable pub retain_watchers :
      (Watcher → Bool) → InMemoryLog A → List Watcher → Result Error (List Watcher × List (Sent A))
  retain_watchers test m [] = ok ([], [])
  retain_watchers test m (w ∷ ws) =
      let rest = retain_watchers test m ws in
      if test w
      then (do sent ← trigger_watcher w m; later ← rest; ok (later.0, sent ∷ later.1))
      else (do later ← rest; ok (w ∷ later.0, later.1))

  -- The closure's test in `write`.
  abbrev pub is_served : InMemoryLog A → Watcher → Bool
  is_served m w =
      (w.request.end == Memory.end m) || (Memory.contains m w.request.start && w.timeout)

  -- The closure's test when a persisted part leaves the memory.
  abbrev pub is_overtaken : InMemoryLog A → Watcher → Bool
  is_overtaken m w = Memory.contains m w.request.start

  -- The task that wakes up when the timeout of watcher `id` has passed.
  unfoldable pub expire_watcher :
      ℕ → InMemoryLog A → List Watcher → Result Error (List Watcher × List (Sent A))
  expire_watcher id m [] = ok ([], [])
  expire_watcher id m (w ∷ ws) =
      let rest = expire_watcher id m ws in
      if w.id == id
      then (if Memory.contains m w.request.start
          then (do sent ← trigger_watcher w m; ok (ws, sent ∷ []))
          else ok (record w { timeout = true } ∷ ws, []))
      else (do later ← rest; ok (w ∷ later.0, later.1))
