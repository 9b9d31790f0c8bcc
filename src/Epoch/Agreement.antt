-- ===== src/Epoch/Agreement.antt =====
-- What holds of every run of the source threads (dozer-core/src/epoch/manager.rs).
use dozer.Common.{
  ℕ, ◌+◌, ◌%◌, ◌^◌, ◌<◌, ◌≡◌, refl, false, Option, none, some, length, arith, ok, if◌then◌else◌,
}
use dozer.Epoch.Manager.{
  EpochManagerOptions, EpochManagerState, ClosedEpoch, new, new_closing, leave, epoch_id,
}
use dozer.Epoch.System.{
  System, Step, enters, leaves, leaves_last, Reach, here, next, initial, any_commit,
}
use dozer.Epoch.Coherence.{
  IsCoherent, Told, enters-IsCoherent, leaves-IsCoherent, leaves_last-IsCoherent, leave-Told,
}

-- What a step tells its thread, if the thread leaves.
abbrev pub Tells : System → Option ClosedEpoch → Type 0
Tells s none = Unit
Tells s (some told) = Told s (epoch_id s.manager.kind) told

module _ {n : ℕ} {options : EpochManagerOptions} (some_sources : 0 < n) where
  -- One critical section of any thread keeps the manager coherent, and a thread that leaves is told
  -- what all requests of the epoch ask for together, the same for every thread.
  pub Step-IsCoherent :
      {s t : System} {told : Option ClosedEpoch}
      → Step n options s t told
      → IsCoherent n options s
      → IsCoherent n options t × Tells s told
  Step-IsCoherent {s} (enters r m room e) v =
      (enters-IsCoherent some_sources s r _ m refl room e v, tt)
  Step-IsCoherent {s} (leaves now told m full many e) v = (
    leaves-IsCoherent some_sources s now _ told m refl full many e v,
    leave-Told some_sources s now _ told m refl e v,
  )
  Step-IsCoherent {s} (leaves_last now told m full one e) v = (
    (leaves_last-IsCoherent some_sources s now _ told m refl full one e v).0,
    leave-Told some_sources s now _ told m refl e v,
  )

  initial-IsCoherent : (id now : ℕ) → IsCoherent n options (initial id now)
  unfolding new new_closing
  initial-IsCoherent id now = ground arith

  -- Every state that the threads reach from a new manager is coherent.
  pub Reach-IsCoherent :
      (id now : ℕ) {t : System} → Reach n options (initial id now) t → IsCoherent n options t
  Reach-IsCoherent id now here = initial-IsCoherent id now
  Reach-IsCoherent id now (next r step) = (Step-IsCoherent step (Reach-IsCoherent id now r)).0

  -- In every state that the threads of one or more sources reach from a new manager, and after every
  -- next step, the manager is coherent: while an epoch is open it holds the conjunction of the
  -- requested terminations, the disjunction of the requested commits and the collected source
  -- states; once it is closed all sources have entered. A thread that leaves, also the last one, is
  -- told to terminate if all requests ask for it, and to commit the epoch, with its id and the
  -- collected states, if and only if some request asks for it; and where another thread has left
  -- the epoch before, it is told the very same decision, with the same instant, as the first one.
  pub Reach-Tells :
      (id now : ℕ) {s t : System} {told : Option ClosedEpoch}
      → Reach n options (initial id now) s
      → Step n options s t told
      → IsCoherent n options s × IsCoherent n options t × Tells s told
  Reach-Tells id now reach step =
      let v = Reach-IsCoherent id now reach in
      let (after, tells) = Step-IsCoherent step v in (v, after, tells)

abbrev pub CanStep : ℕ → EpochManagerOptions → System → Type 0
CanStep n options s = (t : System) × (told : Option ClosedEpoch) × Step n options s t told

module _ (n : ℕ) (options : EpochManagerOptions) (some_sources : 0 < n) where
  -- When the last thread leaves, the manager waits for the next epoch: its id is one more (in 64
  -- bits) if some source asked for a commit, and the same otherwise.
  pub epoch_id-leave_last :
      (id start : ℕ) {s : System} (now : ℕ) (told : ClosedEpoch) (m : EpochManagerState)
      → Reach n options (initial id start) s
      → length s.requests ≡ n
      → s.inside ≡ 1
      → leave n options now s.manager ≡ ok (told, m)
      → epoch_id m.kind ≡ (
          if any_commit false s.requests
          then (epoch_id s.manager.kind + 1) % 2 ^ 64
          else epoch_id s.manager.kind)
  epoch_id-leave_last id start {s} now told m reach full one e =
      (leaves_last-IsCoherent some_sources s now _ told m refl full one e
        (Reach-IsCoherent some_sources id start reach)).1
