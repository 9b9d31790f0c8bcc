-- ===== src/Log/Reading.antt =====
-- Reading from a valid log: `Log::read` and the task that times a reader out (dozer-log/src/replication/mod.rs).
use mathlib.Core.List.{Memᴰ}
use dozer.Common.{
  ℕ, ◌%◌, ◌^◌, ◌+◌, ◌-◌, ◌≤◌, ◌<◌, ◌≡◌, refl, ap, sym, true, false, List, [], ◌∷◌, ◌++◌, arith,
  length, drop, All, All-map, All-append, inl, inr, some, Succeeds, take, min, Bool-cases,
  Option-cases, leb,
}
use dozer.Log.Entry
use dozer.Log.Entry.{Range, PersistedLogEntry, Consecutive}
use dozer.Log.Memory
use dozer.Log.Memory.{InMemoryLog, section_of}
use dozer.Log.Watch.{Sent}
use dozer.Log.Slices.{Answers, Expired, length-section_of, expire_watcher_lem, clone_range-section}
use dozer.Log.Invariant.{IsWaiting, IsValid, find_persisted-none}
use dozer.Log.Write.{
  Log, LogResponseFuture, ready, persisted, watching, find_persisted, read, time_out,
}

section_of-empty : {A : Type 0} (h : List A) (r : Range) → r.end ≤ r.start → [] ≡ section_of h r
section_of-empty h r e =
    ap (λ n. take n (drop r.start h))
      (let z : 0 ≡ min r.end (length h) - r.start = omega arith in z)

find_persisted-some :
    (es : List PersistedLogEntry) (i : ℕ) (e : PersistedLogEntry)
    → find_persisted es i ≡ some e
    → Memᴰ e es × (e.range.start ≤ i) × (i < e.range.end)
unfolding find_persisted
find_persisted-some [] i e f = cc
find_persisted-some (x ∷ es) i e f = elim (Bool-cases (Entry.contains x.range i)) [
  | inl t ↦
      let same : x ≡ e = ground (arith, f, t) in
      (Memᴰ.head (sym same), ground (arith, t, same), ground (arith, t, same))
  | inr away ↦
      let (m, low, high) = find_persisted-some es i e (ground (arith, f, away)) in
      (Memᴰ.tail m, low, high)
]

module _ {A : Type 0} (l : Log A) (uploads : List Range) (h : List A) where
  -- The shape of an answer to `read`, for each way in which it answers.
  abbrev pub Reads : Range → LogResponseFuture A × Log A → Type 0
  Reads request (ready ops, l') =
      (ops ≡ section_of h request) × (length ops ≡ request.end - request.start) × (l' ≡ l)
  Reads request (persisted e, l') =
      Memᴰ e l.persisted
      × (e.range.start ≤ request.start)
      × (request.start < e.range.end)
      × (l' ≡ l)
  Reads request (watching id, l') =
      (length h < request.end)
      × (l'.watchers
          ≡ l.watchers
            ++ record { id = id; request = request; timeout = false; sender = true } ∷ [])
      × All (λ w. w.id < id) l.watchers

  -- A read's answer, with a valid log.
  abbrev pub Read : Range → LogResponseFuture A × Log A → Type 0
  Read request r = Reads request r × IsValid r.1 uploads h × (r.1.persisted ≡ l.persisted)

  -- What the timeout of watcher `id` leaves: a valid log, messages that answer waiting readers, and
  -- the other watchers; the watcher is answered or marked.
  abbrev pub TimedOut : ℕ → Log A × List (Sent A) → Type 0
  TimedOut id (l', sent) =
      IsValid l' uploads h
      × All (Answers h l.watchers) sent
      × Expired l.in_memory h id l.watchers (l'.watchers, sent)
      × (l'.persisted ≡ l.persisted)

module _ {A : Type 0} (l : Log A) (uploads : List Range) (h : List A)
    (v : IsValid l uploads h) where
  add_watcher-IsValid :
      (request : Range)
      → l.in_memory.start ≤ request.start
      → request.start < request.end
      → Memory.end l.in_memory < request.end
      → l.next_watcher_id < 2 ^ 64 - 1
      → IsValid
          (record l {
            next_watcher_id = (l.next_watcher_id + 1) % 2 ^ 64;
            watchers =
                l.watchers
                ++ record {
                  id = l.next_watcher_id;
                  request = request;
                  timeout = false;
                  sender = true;
                }
                  ∷ [];
          })
          uploads
          h
  add_watcher-IsValid request low order beyond few = record {
    suffix = record { ops = v.suffix.ops; size = v.suffix.size };
    saved = v.saved;
    uploading = v.uploading;
    bounded = v.bounded;
    waiting =
        All-append (IsWaiting l.in_memory ((l.next_watcher_id + 1) % 2 ^ 64)) l.watchers _
          (All-map
            (λ w (k : IsWaiting l.in_memory l.next_watcher_id w). record {
              alive = k.alive;
              low = k.low;
              order = k.order;
              beyond = k.beyond;
              known = omega (arith, k.known, few);
            })
            l.watchers v.waiting)
          (
            record {
              alive = refl;
              low = low;
              order = order;
              beyond = beyond;
              known = omega (arith, few);
            },
            tt,
          );
  }

  -- While fewer than 2^64 - 1 watchers have been registered, a read of a valid log never panics. It answers with a persisted entry that holds the start of the request, or
  -- with exactly the operations asked for, as many as the request has indices, or, where the log is
  -- still too short, it registers one watcher under an id that no waiting watcher has. The log stays
  -- valid.
  pub read-IsValid :
      (request : Range)
      → l.next_watcher_id < 2 ^ 64 - 1
      → Succeeds (read l request) (Read l uploads h request)
  unfolding read
  read-IsValid request few = elim (Bool-cases (Entry.is_empty request)) [
    | inl t ↦ (
      (ready [], l),
      rw t refl,
      ((section_of-empty h request (ground (arith, t)), ground (arith, t), refl), v, refl),
    )
    | inr f ↦ elim (Option-cases (find_persisted l.persisted request.start)) [
      | inr (e, p) ↦
          let (m, low, high) = find_persisted-some l.persisted request.start e p in
          ((persisted e, l), rw (f, p) refl, ((m, low, high, refl), v, refl))
      | inl p ↦
          let low : l.in_memory.start ≤ request.start =
            omega (arith, find_persisted-none 0 _ _ l.persisted v.saved p) in
          elim (Bool-cases (leb request.end (Memory.end l.in_memory))) [
            | inl inside ↦ (
              (ready (section_of h request), l),
              rw
                  (
                    f,
                    p,
                    inside,
                    clone_range-section l.in_memory h v.suffix request low (ground (arith, f))
                        (ground (arith, inside)),
                  )
                  refl,
              (
                (
                  refl,
                  length-section_of l.in_memory h v.suffix request
                      (ground (arith, inside, v.suffix.size)),
                  refl,
                ),
                v,
                refl,
              ),
            )
            | inr beyond ↦ (
              (watching l.next_watcher_id, _),
              rw (f, p, beyond) refl,
              (
                (
                  ground (arith, beyond, v.suffix.size),
                  refl,
                  All-map (λ w (k : IsWaiting l.in_memory l.next_watcher_id w). k.known) l.watchers
                      v.waiting,
                ),
                add_watcher-IsValid request low (ground (arith, f)) (ground (arith, beyond)) few,
                refl,
              ),
            )
          ]
    ]
  ]

  -- When the timeout of a watcher of a valid log passes, nothing panics and the log stays valid. If
  -- no watcher has the id, nothing changes and nothing is sent. Otherwise the first one that has it
  -- is sent what it asked for, up to the end of the log, and leaves, if the first operation that it
  -- asked for is in memory; it is marked as timed out, and nothing is sent, if it is not. The other
  -- watchers stay as they are.
  pub time_out-IsValid : (id : ℕ) → Succeeds (time_out id l) (TimedOut l uploads h id)
  unfolding time_out
  time_out-IsValid id =
      let (r, e, (kept, sent, expired)) =
        expire_watcher_lem l.in_memory h v.suffix id (IsWaiting l.in_memory l.next_watcher_id)
          l.watchers v.waiting
          (λ w k. (
            k.alive,
            k.low,
            k.order,
            record {
              alive = k.alive;
              low = k.low;
              order = k.order;
              beyond = k.beyond;
              known = k.known;
            },
          )) in
      (
        (record l { watchers = r.0 }, r.1),
        rw e refl,
        (
          record {
            suffix = v.suffix;
            saved = v.saved;
            uploading = v.uploading;
            bounded = v.bounded;
            waiting = kept;
          },
          sent,
          expired,
          refl,
        ),
      )
