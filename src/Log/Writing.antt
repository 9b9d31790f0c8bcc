-- ===== src/Log/Writing.antt =====
-- The operations that change a valid log run without a panic, keep it valid, and answer its readers
-- with what was written (dozer-log/src/replication/mod.rs).
use mathlib.Core.List.{Memᴰ}
use dozer.Common.{
  ◌<◌, ◌⊎◌, inl, inr, min, take-all, err, false, ℕ, ◌+◌, ◌-◌, ◌≤◌, ◌≡◌, refl, ap, sym, ◌∙◌, Bool,
  true, List, [], ◌∷◌, ◌++◌, arith, length, drop, All, All-map, some, String, Succeeds,
  length-append, length-drop, drop-append, drop-drop,
}
use dozer.Log.Entry
use dozer.Log.Entry.{Range, PersistedLogEntry, Consecutive, persisting_thread_quit}
use dozer.Log.Name.{log_entry_name}
use dozer.Log.Memory
use dozer.Log.Memory.{InMemoryLog, section_of}
use dozer.Log.Watch.{Watcher, Sent, is_served, is_overtaken}
use dozer.Log.Slices.{IsSuffix, Answers, Settled, retain_watchers_lem}
use dozer.Log.Invariant.{
  IsWaiting, IsValid, ranges, ranges-append, Consecutive-le, Consecutive-append,
}
use dozer.Log.Write.{Log, PersistTask, task_of, write, persist, ends_with_commit, finish_persist}

module _ {A : Type 0} (l : Log A) (uploads : List Range) (h : List A) where
  -- What `write` returns on a valid log: the new length, a valid log that holds the new operation,
  -- and messages that answer waiting readers; every reader is answered or goes on waiting.
  abbrev pub Written : A → ℕ × Log A × List (Sent A) → Type 0
  Written op (n, l', sent) =
      (n ≡ length h + 1)
      × IsValid l' uploads (h ++ op ∷ [])
      × All (Answers (h ++ op ∷ []) l.watchers) sent
      × (length l'.watchers + length sent ≡ length l.watchers)
      × (l'.persisted ≡ l.persisted)

  -- What `persist` returns: a task with all that is not on its way yet, under its name in the log's
  -- directory, and a valid log.
  abbrev pub Persisting : (String → List ℕ → String) → ℕ → PersistTask A × Log A → Type 0
  Persisting join epoch_id (task, l') =
      IsValid l' (uploads ++ task.range ∷ []) h
      × (task.epoch_id ≡ epoch_id)
      × (task.range.start ≡ l.in_memory.start + l.in_memory.next_persist_start)
      × (task.range.end ≡ length h)
      × (task.ops ≡ section_of h task.range)
      × (task.key ≡ join l.prefix (log_entry_name epoch_id task.range))
      × (l'.persisted ≡ l.persisted)

  -- What becomes of a watcher at the end of an upload: it is answered if the first operation that it
  -- asked for was in memory, and it goes on waiting otherwise.
  abbrev pub Overtaken : Log A × List (Sent A) → Watcher → Type 0
  Overtaken (l', sent) w =
      ((w.request.start < Memory.end l.in_memory)
        × Memᴰ (record { to = w.id; ops = section_of h w.request }) sent)
      ⊎ ((Memory.end l.in_memory ≤ w.request.start) × Memᴰ w l'.watchers)

  -- What the end of an upload leaves: a valid log with the entry, whose memory starts behind the
  -- task's range, and messages that answer waiting readers, all that must be.
  abbrev pub Uploaded : String → PersistTask A → Log A × List (Sent A) → Type 0
  Uploaded key task (l', sent) =
      IsValid l' uploads h
      × All (Answers h l.watchers) sent
      × (l'.in_memory.start ≡ task.range.end)
      × All (Overtaken (l', sent)) l.watchers
      × (l'.persisted
          ≡ l.persisted ++ record { key = key; epoch_id = task.epoch_id; range = task.range } ∷ [])

module _ {A : Type 0} (l : Log A) (uploads : List Range) (h : List A)
    (v : IsValid l uploads h) where
  write-IsSuffix :
      (op : A) → IsSuffix (record l.in_memory { ops = l.in_memory.ops ++ op ∷ [] }) (h ++ op ∷ [])
  write-IsSuffix op = record {
    ops =
        ap (λ r. r ++ op ∷ []) v.suffix.ops
        ∙ sym (drop-append l.in_memory.start h (op ∷ []) (omega (arith, v.suffix.size)));
    size = omega (
      arith,
      v.suffix.size,
      length-append {0} l.in_memory.ops (op ∷ []),
      length-append {0} h (op ∷ []),
    );
  }

  -- A write returns the new length of the log, keeps the log valid, and each message that it sends
  -- answers a waiting reader with operations that were written, at least one of them.
  pub write-IsValid : (op : A) → Succeeds (write l op) (Written l uploads h op)
  unfolding write
  write-IsValid op =
      let m : InMemoryLog A = record l.in_memory { ops = l.in_memory.ops ++ op ∷ [] } in
      let grown : Memory.end m ≡ Memory.end l.in_memory + 1 =
        omega (arith, length-append {0} l.in_memory.ops (op ∷ [])) in
      let (r, e, (kept, sent, size, _)) =
        retain_watchers_lem m (h ++ op ∷ []) (write-IsSuffix op) (is_served m)
          (IsWaiting m l.next_watcher_id) l.watchers
          (All-map
            (λ w (k : IsWaiting l.in_memory l.next_watcher_id w).
              (k.alive, k.low, k.order, (λ t. ground (arith, grown)), (λ f. ground (arith, grown))))
            l.watchers v.waiting) in
      (
        (Memory.end m, record l { in_memory = m; watchers = r.0 }, r.1),
        rw e refl,
        (
          omega (arith, grown, v.suffix.size),
          record {
            suffix = write-IsSuffix op;
            saved = v.saved;
            uploading = v.uploading;
            bounded = omega (arith, v.bounded, grown);
            waiting = kept;
          },
          sent,
          size,
          refl,
        ),
      )

  task_of-section :
      (join : String → List ℕ → String) (epoch_id : ℕ)
      → (task_of join epoch_id l).ops ≡ section_of h (task_of join epoch_id l).range
  task_of-section join epoch_id =
      let m = l.in_memory in
      let from = m.start + m.next_persist_start in
      let sum : m.next_persist_start + m.start ≡ from = omega arith in
      let parts : drop m.next_persist_start m.ops ≡ drop from h =
        ap (drop m.next_persist_start) v.suffix.ops ∙ drop-drop _ _ _ h sum in
      parts
      ∙ sym (
          take-all (min (Memory.end m) (length h) - from) (drop from h)
            (omega (arith, v.suffix.size, length-drop {0} from h)))

  -- On a valid log, a persist of operations that end with a commit hands exactly the operations
  -- that are not on their way yet to the queue, under the name of their epoch and range, and keeps
  -- the log valid; where the queue does not take them, the result is the error that its thread has
  -- quit.
  pub persist-IsValid :
      (join : String → List ℕ → String) (is_commit : A → Bool) (epoch_id : ℕ)
      → ends_with_commit is_commit (drop l.in_memory.next_persist_start l.in_memory.ops) ≡ true
      → Succeeds (persist join is_commit true epoch_id l) (Persisting l uploads h join epoch_id)
        × (persist join is_commit false epoch_id l ≡ err persisting_thread_quit)
  unfolding persist
  persist-IsValid join is_commit epoch_id commit =
      let m = l.in_memory in
      let range : Range = record { start = m.start + m.next_persist_start; end = Memory.end m } in
      (
        (
          (
            task_of join epoch_id l,
            record l { in_memory = record m { next_persist_start = length m.ops } },
          ),
          ground (arith, v.bounded, commit),
          (
            record {
              suffix = record { ops = v.suffix.ops; size = v.suffix.size };
              saved = v.saved;
              uploading =
                  Consecutive-append m.start _ uploads range v.uploading refl
                    (omega (arith, v.bounded));
              bounded = omega arith;
              waiting =
                  All-map
                    (λ w (k : IsWaiting m l.next_watcher_id w). record {
                      alive = k.alive;
                      low = k.low;
                      order = k.order;
                      beyond = k.beyond;
                      known = k.known;
                    })
                    l.watchers v.waiting;
            },
            refl,
            refl,
            v.suffix.size,
            task_of-section join epoch_id,
            refl,
            refl,
          ),
        ),
        ground (arith, v.bounded, commit),
      )

module _ {A : Type 0} (l : Log A) (task : PersistTask A) (uploads : List Range) (h : List A) where
  Overtaken-all :
      (r : List Watcher × List (Sent A)) (ws : List Watcher)
      → All (IsWaiting l.in_memory l.next_watcher_id) ws
      → All (Settled l.in_memory h (is_overtaken l.in_memory) r) ws
      → All
          (λ w.
            ((w.request.start < Memory.end l.in_memory)
              × Memᴰ (record { to = w.id; ops = section_of h w.request }) r.1)
            ⊎ ((Memory.end l.in_memory ≤ w.request.start) × Memᴰ w r.0))
          ws
  Overtaken-all r [] k o = tt
  Overtaken-all r (w ∷ ws) (k, ks) (inl (t, sent), o) =
      (inl (ground (arith, t), sent), Overtaken-all r ws ks o)
  Overtaken-all r (w ∷ ws) (k, ks) (inr (f, kept), o) =
      (inr (ground (arith, f, k.low), kept), Overtaken-all r ws ks o)

  -- When the oldest upload has ended, its operations leave the memory and its entry is added to the
  -- persisted ones; every watcher whose first operation was in memory is sent what it asked for, up
  -- to the end of the log, and the others are kept; nothing panics and the log stays valid.
  pub finish_persist-IsValid :
      (key : String)
      → IsValid l (task.range ∷ uploads) h
      → Succeeds (finish_persist task (some key) l) (Uploaded l uploads h key task)
  unfolding finish_persist
  finish_persist-IsValid key v =
      let m = l.in_memory in
      let (from, forward, chain) = v.uploading in
      let within : task.range.end ≤ m.start + m.next_persist_start =
        Consecutive-le _ _ uploads chain in
      let count : Entry.len task.range ≤ m.next_persist_start = omega arith in
      let sum : Entry.len task.range + m.start ≡ task.range.end = omega arith in
      let rest : InMemoryLog A = record {
        start = task.range.end;
        ops = drop (Entry.len task.range) m.ops;
        next_persist_start = m.next_persist_start - Entry.len task.range;
      } in
      let size : length rest.ops ≡ length m.ops - Entry.len task.range =
        length-drop (Entry.len task.range) m.ops in
      let (r, e, (kept, sent, _, settled)) =
        retain_watchers_lem m h v.suffix (is_overtaken m) (IsWaiting rest l.next_watcher_id)
          l.watchers
          (All-map
            (λ w (k : IsWaiting m l.next_watcher_id w). (
              k.alive,
              k.low,
              k.order,
              (λ t. ground (arith, t)),
              (λ f. record {
                alive = k.alive;
                low = ground (arith, f, k.low, within, v.bounded);
                order = k.order;
                beyond = omega (arith, k.beyond, size, v.bounded, count);
                known = k.known;
              }),
            ))
            l.watchers v.waiting) in
      (
        (
          record l {
            persisted =
                l.persisted
                ++ record { key = key; epoch_id = task.epoch_id; range = task.range } ∷ [];
            in_memory = rest;
            watchers = r.0;
          },
          r.1,
        ),
        rw e (ground (arith, count, v.bounded)),
        (
          record {
            suffix = record {
              ops = ap (drop (Entry.len task.range)) v.suffix.ops ∙ drop-drop _ _ _ h sum;
              size = omega (arith, size, v.suffix.size, v.bounded, count);
            };
            saved =
                rw
                  (ranges-append l.persisted
                    (record { key = key; epoch_id = task.epoch_id; range = task.range }))
                  (Consecutive-append 0 m.start (ranges l.persisted) task.range v.saved from
                    forward);
            uploading =
                let total : m.start + m.next_persist_start
                    ≡ task.range.end + rest.next_persist_start =
                  omega arith in
                rw total at chain;
            bounded = omega (arith, size, v.bounded, count);
            waiting = kept;
          },
          sent,
          refl,
          Overtaken-all r l.watchers v.waiting settled,
          refl,
        ),
      )
