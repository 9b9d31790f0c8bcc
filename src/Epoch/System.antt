-- ===== src/Epoch/System.antt =====
-- The source threads around one epoch manager (dozer-core/src/epoch/manager.rs): each calls
-- `wait_for_epoch_close` again and again, and the barrier lets them pass when all have entered.
use dozer.Common.{
  ℕ, suc, ◌-◌, ◌<◌, ◌≡◌, Bool, ◌&&◌, ◌||◌, Option, none, some, List, [], ◌∷◌, ◌++◌, length, ok,
}
use dozer.Types.SourceStates
use dozer.Types.SourceStates.{SourceStates}
use dozer.Epoch.Manager.{
  EpochManagerOptions, EpochManagerState, ClosedEpoch, Request, new, enter, leave,
}

-- `requests` are those that entered the epoch that is being closed, `inside` counts the threads
-- between the two critical sections, and `decision` is what the first thread to leave was told.
pub record System : Type 0 where
  pub manager : EpochManagerState
  pub requests : List Request
  pub inside : ℕ
  pub decision : Option ClosedEpoch

abbrev pub first_told : Option ClosedEpoch → ClosedEpoch → Option ClosedEpoch
first_told none told = some told
first_told (some d) told = some d

-- One critical section of one of `num_sources` threads. What a thread that leaves is told is the
-- last index.
pub data Step (num_sources : ℕ) (options : EpochManagerOptions)
    : System → System → Option ClosedEpoch → Type 0 where
  enters :
      {s : System} (r : Request) (m : EpochManagerState)
      → s.inside < num_sources
      → enter r s.manager ≡ some m
      → Step num_sources options s
          (record s { manager = m; requests = s.requests ++ r ∷ []; inside = suc s.inside })
          none
  leaves :
      {s : System} (now : ℕ) (told : ClosedEpoch) (m : EpochManagerState)
      → length s.requests ≡ num_sources
      → 1 < s.inside
      → leave num_sources options now s.manager ≡ ok (told, m)
      → Step num_sources options s
          (record s { manager = m; inside = s.inside - 1; decision = first_told s.decision told })
          (some told)
  leaves_last :
      {s : System} (now : ℕ) (told : ClosedEpoch) (m : EpochManagerState)
      → length s.requests ≡ num_sources
      → s.inside ≡ 1
      → leave num_sources options now s.manager ≡ ok (told, m)
      → Step num_sources options s
          (record { manager = m; requests = []; inside = 0; decision = none })
          (some told)

pub data Reach (num_sources : ℕ) (options : EpochManagerOptions) (s : System)
    : System → Type 0 where
  here : Reach num_sources options s s
  next :
      {t u : System} {told : Option ClosedEpoch}
      → Reach num_sources options s t
      → Step num_sources options t u told
      → Reach num_sources options s u

abbrev pub initial : ℕ → ℕ → System
initial epoch_id now = record {
  manager = new epoch_id now;
  requests = [];
  inside = 0;
  decision = none;
}

-- What the requests ask for together.
abbrev pub all_terminate : Bool → List Request → Bool
all_terminate b [] = b
all_terminate b (r ∷ rs) = all_terminate (b && r.request_termination) rs

abbrev pub any_commit : Bool → List Request → Bool
any_commit b [] = b
any_commit b (r ∷ rs) = any_commit (b || r.request_commit) rs

abbrev pub collect : SourceStates → List Request → SourceStates
collect m [] = m
collect m (r ∷ rs) = collect (SourceStates.insert r.handle r.source_state m) rs
