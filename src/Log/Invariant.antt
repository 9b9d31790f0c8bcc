-- ===== src/Log/Invariant.antt =====
-- The invariant stated above `Log` in dozer-log/src/replication/mod.rs, with the entries whose upload
-- is on the way and with all the operations that were ever written as ghost state.
use dozer.Common.{
  ℕ, ◌+◌, ◌≤◌, ◌<◌, ◌≡◌, refl, true, List, [], ◌∷◌, ◌++◌, arith, length, All, ◌⊎◌, none,
}
use dozer.Log.Entry.{Range, PersistedLogEntry, Consecutive}
use dozer.Log.Memory
use dozer.Log.Memory.{InMemoryLog}
use dozer.Log.Watch.{Watcher}
use dozer.Log.Slices.{IsSuffix}
use dozer.Log.Write.{Log, find_persisted}

pub record IsWaiting {A : Type 0} (m : InMemoryLog A) (n : ℕ) (w : Watcher) : Type 0 where
  pub alive : w.sender ≡ true
  pub low : m.start ≤ w.request.start
  pub order : w.request.start < w.request.end
  pub beyond : Memory.end m < w.request.end
  pub known : w.id < n

abbrev pub ranges : List PersistedLogEntry → List Range
ranges [] = []
ranges (e ∷ es) = e.range ∷ ranges es

pub record IsValid {A : Type 0} (l : Log A) (uploads : List Range) (h : List A) : Type 0 where
  pub suffix : IsSuffix l.in_memory h
  pub saved : Consecutive 0 (ranges l.persisted) l.in_memory.start
  pub uploading :
      Consecutive l.in_memory.start uploads (l.in_memory.start + l.in_memory.next_persist_start)
  pub bounded : l.in_memory.next_persist_start ≤ length l.in_memory.ops
  pub waiting : All (IsWaiting l.in_memory l.next_watcher_id) l.watchers

pub Consecutive-le : (a b : ℕ) (rs : List Range) → Consecutive a rs b → a ≤ b
Consecutive-le a b [] c = omega arith
Consecutive-le a b (r ∷ rs) (e, le, c) = omega (arith, Consecutive-le r.end b rs c)

pub Consecutive-append :
    (a b : ℕ) (rs : List Range) (r : Range)
    → Consecutive a rs b
    → r.start ≡ b
    → b ≤ r.end
    → Consecutive a (rs ++ r ∷ []) r.end
Consecutive-append a b [] r c e le = (omega arith, omega arith, refl)
Consecutive-append a b (x ∷ rs) r (s, k, c) e le = (s, k, Consecutive-append x.end b rs r c e le)

pub ranges-append :
    (es : List PersistedLogEntry) (e : PersistedLogEntry)
    → ranges (es ++ e ∷ []) ≡ ranges es ++ e.range ∷ []
ranges-append [] e = refl
ranges-append (x ∷ es) e = rw (ranges-append es e) refl

-- What no persisted entry holds comes before or after all of them.
pub find_persisted-none :
    (a b i : ℕ) (es : List PersistedLogEntry)
    → Consecutive a (ranges es) b
    → find_persisted es i ≡ none
    → (i < a) ⊎ (b ≤ i)
unfolding find_persisted
find_persisted-none a b i [] c f = ground arith
find_persisted-none a b i (e ∷ es) (s, k, c) f =
    ground (arith, find_persisted-none e.range.end b i es c)
