-- ===== src/Log/Write.antt =====
-- The log and its operations: `Log::write`, `Log::persist` with the task that ends it, `Log::read`
-- with the task that times it out (dozer-log/src/replication/mod.rs).
use dozer.Common.{
  ℕ, ◌+◌, ◌-◌, ◌%◌, ◌^◌, Bool, true, false, not, ◌&&◌, List, [], ◌∷◌, ◌++◌, Option, none, some,
  String, leb, if◌then◌else◌, length, drop, get_last?, Result, ok, err, ◌>>=◌,
}
use dozer.Log.Entry
use dozer.Log.Entry.{
  Range, PersistedLogEntry, LogOperation, is_commit, Error, panicked, persisting_thread_quit,
}
use dozer.Log.Name.{log_entry_name}
use dozer.Log.Memory
use dozer.Log.Memory.{InMemoryLog, clone_range}
use dozer.Log.Watch.{Watcher, Sent, retain_watchers, is_served, is_overtaken, expire_watcher}

-- The storage handle and the restored checkpoint never change and are left out.
pub record Log (A : Type 0) : Type 0 where
  pub persisted : List PersistedLogEntry
  pub in_memory : InMemoryLog A
  pub next_watcher_id : ℕ
  pub watchers : List Watcher
  pub prefix : String

-- What `persist` hands to the queue of uploads, a key and the operations, which stand for their
-- bytes in the format of `bincode`; and what the task that it spawns keeps for the end of the upload.
pub record PersistTask (A : Type 0) : Type 0 where
  pub key : String
  pub ops : List A
  pub epoch_id : ℕ
  pub range : Range

-- `LogResponseFuture`: a persisted entry, operations, or a channel to wait on.
pub data LogResponseFuture (A : Type 0) : Type 0 where
  persisted : PersistedLogEntry → LogResponseFuture A
  ready : List A → LogResponseFuture A
  watching : ℕ → LogResponseFuture A

-- The first persisted entry that holds an index.
unfoldable pub find_persisted : List PersistedLogEntry → ℕ → Option PersistedLogEntry
find_persisted [] i = none
find_persisted (e ∷ es) i = if Entry.contains e.range i then some e else find_persisted es i

module _ {A : Type 0} where
  unfoldable pub write : Log A → A → Result Error (ℕ × Log A × List (Sent A))
  write l op =
      let m = record l.in_memory { ops = l.in_memory.ops ++ op ∷ [] } in
      do
        kept ← retain_watchers (is_served m) m l.watchers
        ok (Memory.end m, record l { in_memory = m; watchers = kept.0 }, kept.1)

  -- The assertion that what is persisted ends with a commit. `is_commit` tells the commits.
  abbrev pub ends_with_commit : (A → Bool) → List A → Bool
  ends_with_commit is_commit ops = elim (get_last? ops) [ none ↦ true | some op ↦ is_commit op ]

  -- The task for what is not on its way yet. `join` is the join of paths of the crate `camino`.
  abbrev pub task_of : (String → List ℕ → String) → ℕ → Log A → PersistTask A
  task_of join epoch_id l =
      let m = l.in_memory in
      let range : Range = record { start = m.start + m.next_persist_start; end = Memory.end m } in
      record {
        key = join l.prefix (log_entry_name epoch_id range);
        ops = drop m.next_persist_start m.ops;
        epoch_id = epoch_id;
        range = range;
      }

  -- `accepted` tells whether the queue of uploads took the entry.
  unfoldable pub persist :
      (String → List ℕ → String)
      → (A → Bool)
      → Bool
      → ℕ
      → Log A
      → Result Error (PersistTask A × Log A)
  persist join is_commit accepted epoch_id l =
      let m = l.in_memory in
      if not (leb m.next_persist_start (length m.ops))
      then err panicked
      else if not (ends_with_commit is_commit (drop m.next_persist_start m.ops))
      then err panicked
      else if not accepted
      then err persisting_thread_quit
      else ok (
        task_of join epoch_id l,
        record l { in_memory = record m { next_persist_start = length m.ops } },
      )

  -- `ops.drain(0..len)` and `next_persist_start -= len` panic where `len` is too large.
  abbrev pub drain : InMemoryLog A → Range → Result Error (InMemoryLog A)
  drain m r =
      if leb (Entry.len r) (length m.ops) && leb (Entry.len r) m.next_persist_start
      then ok (record {
        start = r.end;
        ops = drop (Entry.len r) m.ops;
        next_persist_start = m.next_persist_start - Entry.len r;
      })
      else err panicked

  -- The spawned task, once the upload has ended with a key or with the loss of its thread.
  unfoldable pub finish_persist :
      PersistTask A → Option String → Log A → Result Error (Log A × List (Sent A))
  finish_persist task none l = err persisting_thread_quit
  finish_persist task (some key) l = do
    kept ← retain_watchers (is_overtaken l.in_memory) l.in_memory l.watchers
    m ← drain l.in_memory task.range
    ok (
      record l {
        persisted =
            l.persisted ++ record { key = key; epoch_id = task.epoch_id; range = task.range } ∷ [];
        in_memory = m;
        watchers = kept.0;
      },
      kept.1,
    )

  add_watcher : Log A → Range → ℕ × Log A
  add_watcher l request = (
    l.next_watcher_id,
    record l {
      next_watcher_id = (l.next_watcher_id + 1) % 2 ^ 64;
      watchers =
          l.watchers
          ++ record { id = l.next_watcher_id; request = request; timeout = false; sender = true }
            ∷ [];
    },
  )

  read_tail : Log A → Range → Result Error (LogResponseFuture A × Log A)
  unfolding add_watcher
  read_tail l request =
      if leb request.end (Memory.end l.in_memory)
      then (do ops ← clone_range l.in_memory request; ok (ready ops, l))
      else (let (id, l') = add_watcher l request in ok (watching id, l'))

  unfoldable pub read : Log A → Range → Result Error (LogResponseFuture A × Log A)
  unfolding read_tail
  read l request =
      if Entry.is_empty request
      then ok (ready [], l)
      else elim (find_persisted l.persisted request.start) [
        | some e ↦ ok (persisted e, l)
        | none ↦ read_tail l request
      ]

  -- The task that `read` spawns beside a watcher.
  unfoldable pub time_out : ℕ → Log A → Result Error (Log A × List (Sent A))
  time_out id l = do
    kept ← expire_watcher id l.in_memory l.watchers
    ok (record l { watchers = kept.0 }, kept.1)
