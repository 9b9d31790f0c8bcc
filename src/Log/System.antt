-- ===== src/Log/System.antt =====
-- The log among its tasks: writers, readers, uploads and timeouts take turns under the log's mutex
-- (dozer-log/src/replication/mod.rs). One step is one critical section.
use mathlib.Core.List.{Memᴰ}
use dozer.Common.{
  ◌-◌, ◌^◌, ◌<◌, ◌≤◌, length, All-map, All-append, arith, min, take, take-append, drop-append,
  length-append, length-drop, Bool-cases, inl, inr, ltb, ℕ, ◌≡◌, refl, sym, ap, subst, Bool, true,
  List, [], ◌∷◌, ◌++◌, some, String, All, drop, Result, ok, Succeeds, ok-injective, ◌∙◌,
}
use dozer.Log.Entry.{Range, PersistedLogEntry, Error}
use dozer.Log.Memory.{section_of}
use dozer.Log.Watch.{Sent}
use dozer.Log.Slices.{Answers}
use dozer.Log.Invariant.{IsValid}
use dozer.Log.Write.{
  Log, PersistTask, LogResponseFuture, write, persist, ends_with_commit, finish_persist, read,
  time_out,
}
use dozer.Log.Writing.{
  Written, Persisting, Uploaded, write-IsValid, persist-IsValid, finish_persist-IsValid,
}
use dozer.Log.Reading.{Read, TimedOut, read-IsValid, time_out-IsValid}

-- `history` is what was ever written, `uploads` are the tasks that have not taken the lock after their
-- upload yet, in the order in which they were spawned, and `objects` are the keys and operations of
-- the uploads of the others, the newest first.
pub record System (A : Type 0) : Type 0 where
  pub log : Log A
  pub uploads : List (PersistTask A)
  pub objects : List (String × List A)
  pub history : List A

-- The messages that a step sends are the last index. The queue answers with the key that it was given.
-- The tasks of uploads that have ended race for the lock, so that any of them can be next.
pub data Step {A : Type 0} (join : String → List ℕ → String) (is_commit : A → Bool)
    : System A → System A → List (Sent A) → Type 0 where
  writes :
      {s : System A} (op : A) (n : ℕ) (l : Log A) (sent : List (Sent A))
      → write s.log op ≡ ok (n, l, sent)
      → Step join is_commit s
          (record {
            log = l;
            uploads = s.uploads;
            objects = s.objects;
            history = s.history ++ op ∷ [];
          })
          sent
  persists :
      {s : System A} (epoch_id : ℕ) (task : PersistTask A) (l : Log A)
      → ends_with_commit is_commit (drop s.log.in_memory.next_persist_start s.log.in_memory.ops)
        ≡ true
      → persist join is_commit true epoch_id s.log ≡ ok (task, l)
      → Step join is_commit s
          (record {
            log = l;
            uploads = s.uploads ++ task ∷ [];
            objects = s.objects;
            history = s.history;
          })
          []
  uploaded :
      {s : System A} (before : List (PersistTask A)) (task : PersistTask A)
      (after : List (PersistTask A)) (l : Log A) (sent : List (Sent A))
      → s.uploads ≡ before ++ task ∷ after
      → finish_persist task (some task.key) s.log ≡ ok (l, sent)
      → Step join is_commit s
          (record {
            log = l;
            uploads = before ++ after;
            objects = (task.key, task.ops) ∷ s.objects;
            history = s.history;
          })
          sent
  reads :
      {s : System A} (request : Range) (answer : LogResponseFuture A) (l : Log A)
      → read s.log request ≡ ok (answer, l)
      → Step join is_commit s (record s { log = l }) []
  times_out :
      {s : System A} (id : ℕ) (l : Log A) (sent : List (Sent A))
      → time_out id s.log ≡ ok (l, sent)
      → Step join is_commit s (record s { log = l }) sent

pub data Reach {A : Type 0} (join : String → List ℕ → String) (is_commit : A → Bool) (s : System A)
    : System A → Type 0 where
  here : Reach join is_commit s s
  next :
      {t u : System A} {sent : List (Sent A)}
      → Reach join is_commit s t
      → Step join is_commit t u sent
      → Reach join is_commit s u

-- The tasks of uploads take the lock in the order in which they were spawned, which the code only
-- asserts in debug builds, and the identifiers of watchers have not wrapped around.
abbrev pub IsOrderly :
    {A : Type 0} {join : String → List ℕ → String} {is_commit : A → Bool} {s t : System A}
    {sent : List (Sent A)}
    → Step join is_commit s t sent
    → Type 0
IsOrderly (writes op n l sent e) = Unit
IsOrderly (persists epoch_id task l commit e) = Unit
IsOrderly (uploaded before task after l sent parts e) = before ≡ []
IsOrderly {s = s} (reads request answer l e) = s.log.next_watcher_id < 2 ^ 64 - 1
IsOrderly (times_out id l sent e) = Unit

abbrev pub AllOrderly :
    {A : Type 0} {join : String → List ℕ → String} {is_commit : A → Bool} {s t : System A}
    → Reach join is_commit s t
    → Type 0
AllOrderly here = Unit
AllOrderly (next r step) = AllOrderly r × IsOrderly step

abbrev pub ranges_of : {A : Type 0} → List (PersistTask A) → List Range
ranges_of [] = []
ranges_of (t ∷ ts) = t.range ∷ ranges_of ts

-- The operations are the part of the history with the range.
abbrev pub IsPart : {A : Type 0} → List A → Range → List A → Type 0
IsPart h r ops = (r.end ≤ length h) × (ops ≡ section_of h r)

-- The part of the history that an entry stands for has been uploaded under the entry's key.
abbrev pub IsStored : {A : Type 0} → List A → List (String × List A) → PersistedLogEntry → Type 0
IsStored {A} h objects e = (ops : List A) × Memᴰ (e.key, ops) objects × IsPart h e.range ops

pub record IsSound {A : Type 0} (s : System A) : Type 0 where
  pub valid : IsValid s.log (ranges_of s.uploads) s.history
  pub tasks : All (λ (t : PersistTask A). IsPart s.history t.range t.ops) s.uploads
  pub stored : All (IsStored s.history s.objects) s.log.persisted

IsPart-append :
    {A : Type 0} (h : List A) (x : A) (r : Range) (ops : List A)
    → IsPart h r ops
    → IsPart (h ++ x ∷ []) r ops
IsPart-append h x r ops (high, same) =
    let size = length-append {0} h (x ∷ []) in
    (
      omega (arith, size, high),
      elim (Bool-cases (ltb r.start r.end)) [
        | inl t ↦
            let below : r.start ≤ length h = ground (arith, t, high) in
            let count : min r.end (length h) - r.start
                ≡ min r.end (length (h ++ x ∷ [])) - r.start =
              omega (arith, size, high) in
            same
            ∙ ap (λ n. take n (drop r.start h)) count
            ∙ sym (
                take-append (min r.end (length (h ++ x ∷ [])) - r.start) (drop r.start h) (x ∷ [])
                  (omega (arith, size, high, length-drop {0} r.start h)))
            ∙ ap (take (min r.end (length (h ++ x ∷ [])) - r.start))
                (sym (drop-append r.start h (x ∷ []) below))
        | inr f ↦
            let old : min r.end (length h) - r.start ≡ 0 = ground (arith, f) in
            let new : min r.end (length (h ++ x ∷ [])) - r.start ≡ 0 = ground (arith, f) in
            same
            ∙ ap (λ n. take n (drop r.start h)) old
            ∙ sym (ap (λ n. take n (drop r.start (h ++ x ∷ []))) new)
      ],
    )

ranges_of-append :
    {A : Type 0} (ts : List (PersistTask A)) (t : PersistTask A)
    → ranges_of (ts ++ t ∷ []) ≡ ranges_of ts ++ t.range ∷ []
ranges_of-append [] t = refl
ranges_of-append (x ∷ ts) t = ap (λ r. x.range ∷ r) (ranges_of-append ts t)

-- Code that succeeds with a property has it at every result that it returns.
at_result :
    {B : Type 0} {m : Result Error B} (P : B → Type 0) (b : B) → Succeeds m P → m ≡ ok b → P b
at_result P b (a, e, p) e' = subst P (ok-injective (sym e ∙ e')) p

module _ {A : Type 0} {join : String → List ℕ → String} {is_commit : A → Bool} where
  -- From a sound state, a step of any task leads to a sound state, and what the step sends to a
  -- reader is the section of the history of all written operations that the reader asked for, up
  -- to what has been written. The conditions are that the task of an upload that has ended is the
  -- one that was spawned first, and that a read finds fewer than 2^64 - 1 watchers registered.
  pub Step-IsSound :
      {s t : System A} {sent : List (Sent A)} (step : Step join is_commit s t sent)
      → IsOrderly step
      → IsSound s
      → IsSound t × All (Answers t.history s.log.watchers) sent
  Step-IsSound {s} (writes op n l sent e) turn v =
      let (_, v', answers, _, same) =
        at_result (Written s.log (ranges_of s.uploads) s.history op) (n, l, sent)
          (write-IsValid s.log (ranges_of s.uploads) s.history v.valid op) e in
      (
        record {
          valid = v';
          tasks =
              All-map (λ (t : PersistTask A) p. IsPart-append s.history op t.range t.ops p)
                s.uploads v.tasks;
          stored = subst (All (IsStored (s.history ++ op ∷ []) s.objects)) (sym same) (
              All-map
                (λ (x : PersistedLogEntry) k.
                  (k.0, k.1, IsPart-append s.history op x.range k.0 k.2))
                s.log.persisted v.stored);
        },
        answers,
      )
  Step-IsSound {s} (persists epoch_id task l commit e) turn v =
      let (v', _, _, to_end, part, _, same) =
        at_result (Persisting s.log (ranges_of s.uploads) s.history join epoch_id) (task, l)
          (persist-IsValid s.log (ranges_of s.uploads) s.history v.valid join is_commit epoch_id
            commit).0
          e in
      (
        record {
          valid = subst (λ rs. IsValid l rs s.history) (sym (ranges_of-append s.uploads task)) v';
          tasks =
              All-append (λ (t : PersistTask A). IsPart s.history t.range t.ops) s.uploads
                (task ∷ []) v.tasks ((omega (arith, to_end), part), tt);
          stored = subst (All (IsStored s.history s.objects)) (sym same) v.stored;
        },
        tt,
      )
  Step-IsSound {s} (uploaded before task after l sent parts e) turn v =
      let first : s.uploads ≡ task ∷ after = parts ∙ ap (λ ts. ts ++ task ∷ after) turn in
      let rest : before ++ after ≡ after = ap (λ ts. ts ++ after) turn in
      let (part, parts') =
        subst (All (λ (t : PersistTask A). IsPart s.history t.range t.ops)) first v.tasks in
      let (v', answers, _, _, saved) =
        at_result (Uploaded s.log (ranges_of after) s.history task.key task) (l, sent)
          (finish_persist-IsValid s.log task (ranges_of after) s.history task.key
            (subst (λ ts. IsValid s.log (ranges_of ts) s.history) first v.valid))
          e in
      (
        record {
          valid = subst (λ ts. IsValid l (ranges_of ts) s.history) (sym rest) v';
          tasks =
              subst (All (λ (t : PersistTask A). IsPart s.history t.range t.ops)) (sym rest) parts';
          stored = subst (All (IsStored s.history ((task.key, task.ops) ∷ s.objects))) (sym saved) (
              All-append (IsStored s.history ((task.key, task.ops) ∷ s.objects)) s.log.persisted _
                (All-map (λ (x : PersistedLogEntry) k. (k.0, Memᴰ.tail k.1, k.2)) s.log.persisted
                  v.stored)
                ((task.ops, Memᴰ.head refl, part), tt));
        },
        answers,
      )
  Step-IsSound {s} (reads request answer l e) few v =
      let (_, v', same) =
        at_result (Read s.log (ranges_of s.uploads) s.history request) (answer, l)
          (read-IsValid s.log (ranges_of s.uploads) s.history v.valid request few) e in
      (
        record {
          valid = v';
          tasks = v.tasks;
          stored = subst (All (IsStored s.history s.objects)) (sym same) v.stored;
        },
        tt,
      )
  Step-IsSound {s} (times_out id l sent e) turn v =
      let (v', answers, _, same) =
        at_result (TimedOut s.log (ranges_of s.uploads) s.history id) (l, sent)
          (time_out-IsValid s.log (ranges_of s.uploads) s.history v.valid id) e in
      (
        record {
          valid = v';
          tasks = v.tasks;
          stored = subst (All (IsStored s.history s.objects)) (sym same) v.stored;
        },
        answers,
      )

  -- From a sound state, however writes, reads, persists, successful ends of uploads and timeouts
  -- follow each other, only sound states are reached, as long as the tasks of uploads take the lock
  -- in the order in which they were spawned and fewer than 2^64 - 1 watchers have been registered at
  -- each read. In a sound state the stored entries, the entries being uploaded and the memory are
  -- the consecutive parts of the history of all written operations; under the key of each stored
  -- entry exactly its part of the history has been uploaded, and each task being uploaded holds
  -- exactly its part; and every waiting reader asks for what is still in memory or to come.
  pub Reach-IsSound :
      {s t : System A} → IsSound s → (r : Reach join is_commit s t) → AllOrderly r → IsSound t
  Reach-IsSound v here o = v
  Reach-IsSound v (next r step) (o, turn) = (Step-IsSound step turn (Reach-IsSound v r o)).0
