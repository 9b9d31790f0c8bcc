-- ===== src/Epoch/Manager.antt =====
-- `EpochManager` (dozer-core/src/epoch/manager.rs, dozer-core/src/epoch/mod.rs). The call
-- `wait_for_epoch_close` is two critical sections with a barrier between them: `enter` and `leave`.
use dozer.Common.{
  ℕ, ◌+◌, ◌-◌, ◌*◌, ◌%◌, ◌^◌, Bool, true, false, not, ◌&&◌, ◌||◌, Option, none, some, [], ◌∷◌, leb,
  ◌==◌, if◌then◌else◌, Result, ok, err,
}
use dozer.Types.{NodeHandle, SourceState}
use dozer.Types.SourceStates
use dozer.Types.SourceStates.{SourceStates, is_non_restartable}

pub data Action : Type 0 where
  commit commit_and_persist nothing : Action

unfoldable pub should_commit : Action → Bool
should_commit commit = true
should_commit commit_and_persist = true
should_commit nothing = false

unfoldable pub should_persist : Action → Bool
should_persist commit_and_persist = true
should_persist _ = false

-- The barrier of the source's `Closing` belongs to the threads, and is in the system's state.
pub record Closing : Type 0 where
  pub epoch_id : ℕ
  pub should_terminate : Bool
  pub should_commit : Bool
  pub source_states : SourceStates

pub record Closed : Type 0 where
  pub terminating : Bool
  pub action : Action
  pub epoch_id : ℕ
  pub source_states : SourceStates
  pub instant : ℕ
  pub num_source_confirmations : ℕ

pub data EpochManagerStateKind : Type 0 where
  closing : Closing → EpochManagerStateKind
  closed : Closed → EpochManagerStateKind

abbrev pub epoch_id : EpochManagerStateKind → ℕ
epoch_id (closing c) = c.epoch_id
epoch_id (closed c) = c.epoch_id

-- Instants are nanoseconds.
pub record EpochManagerState : Type 0 where
  pub kind : EpochManagerStateKind
  pub next_record_index_to_persist : ℕ
  pub last_persisted_epoch_decision_instant : ℕ

pub record EpochManagerOptions : Type 0 where
  pub max_num_records_before_persist : ℕ
  pub max_interval_before_persist_in_seconds : ℕ
  pub enable_app_checkpoints : Bool

-- A checkpoint writer is made for one epoch id; the queue is the checkpoint factory's only one.
pub record EpochCommonInfo : Type 0 where
  pub id : ℕ
  pub checkpoint_writer : Option ℕ
  pub sink_persist_queue : Bool
  pub source_states : SourceStates

pub record ClosedEpoch : Type 0 where
  pub should_terminate : Bool
  pub common_info : Option EpochCommonInfo
  pub decision_instant : ℕ

-- The arguments of one call of `wait_for_epoch_close`.
pub record Request : Type 0 where
  pub handle : NodeHandle
  pub source_state : SourceState
  pub request_termination : Bool
  pub request_commit : Bool

unfoldable pub new_closing : ℕ → Closing
new_closing epoch_id = record {
  epoch_id = epoch_id;
  should_terminate = true;
  should_commit = false;
  source_states = [];
}

unfoldable pub new : ℕ → ℕ → EpochManagerState
new epoch_id now = record {
  kind = closing (new_closing epoch_id);
  next_record_index_to_persist = 0;
  last_persisted_epoch_decision_instant = now;
}

unfoldable pub join : Request → Closing → Closing
join r c = record c {
  should_terminate = c.should_terminate && r.request_termination;
  should_commit = c.should_commit || r.request_commit;
  source_states = SourceStates.insert r.handle r.source_state c.source_states;
}

enter_kind : Request → EpochManagerStateKind → Option EpochManagerStateKind
unfolding join
enter_kind r (closing c) = some (closing (join r c))
enter_kind r (closed c) = none

-- The first critical section. `none`: the last epoch is not confirmed by all, so sleep and try again.
unfoldable pub enter : Request → EpochManagerState → Option EpochManagerState
unfolding enter_kind
enter r s = elim (enter_kind r s.kind) [ none ↦ none | some k ↦ some (record s { kind = k }) ]

-- A subtraction of `usize`, which wraps around.
abbrev sub_usize : ℕ → ℕ → ℕ
sub_usize a b = (a + 2 ^ 64 - b) % 2 ^ 64

-- Whether a committed epoch is also persisted.
unfoldable pub persist_is_due : EpochManagerOptions → ℕ → EpochManagerState → Bool
persist_is_due options now s =
    leb options.max_num_records_before_persist (sub_usize 0 s.next_record_index_to_persist)
    || leb (options.max_interval_before_persist_in_seconds * 1_000_000_000)
        (now - s.last_persisted_epoch_decision_instant)

abbrev close : ℕ → Action → Closing → EpochManagerStateKind
close now action c = closed (record {
  terminating = c.should_terminate;
  action = action;
  epoch_id = c.epoch_id;
  source_states = c.source_states;
  instant = now;
  num_source_confirmations = 0;
})

decide_closing : EpochManagerOptions → ℕ → Closing → EpochManagerState → EpochManagerState
decide_closing options now c s =
    if c.should_commit
    then (if persist_is_due options now s
        then record {
          kind = close now commit_and_persist c;
          next_record_index_to_persist = 0;
          last_persisted_epoch_decision_instant = now;
        }
        else record s { kind = close now commit c })
    else record s { kind = close now nothing c }

decide_kind :
    EpochManagerOptions → ℕ → EpochManagerStateKind → EpochManagerState → EpochManagerState
unfolding decide_closing
decide_kind options now (closing c) s = decide_closing options now c s
decide_kind options now (closed c) s = s

-- The first thread behind the barrier decides how the epoch is closed.
unfoldable pub decide : EpochManagerOptions → ℕ → EpochManagerState → EpochManagerState
unfolding decide_kind
decide options now s = decide_kind options now s.kind s

unfoldable pub is_restartable : SourceStates → Bool
is_restartable [] = true
is_restartable ((k, v) ∷ m) = not (is_non_restartable v) && is_restartable m

unfoldable pub common_info : EpochManagerOptions → Closed → Option EpochCommonInfo
unfolding should_commit should_persist
common_info options c =
    if should_commit c.action
    then some (record {
      id = c.epoch_id;
      checkpoint_writer =
          if should_persist c.action
            && options.enable_app_checkpoints
            && is_restartable c.source_states
          then some c.epoch_id
          else none;
      sink_persist_queue = should_persist c.action;
      source_states = c.source_states;
    })
    else none

unfoldable pub result : EpochManagerOptions → Closed → ClosedEpoch
result options c = record {
  should_terminate = c.terminating;
  common_info = common_info options c;
  decision_instant = c.instant;
}

-- The thread's confirmation; the last one opens the next epoch.
unfoldable pub confirm : ℕ → Closed → EpochManagerStateKind
unfolding should_commit new_closing
confirm num_sources c =
    if c.num_source_confirmations + 1 == num_sources
    then closing
        (new_closing (if should_commit c.action then (c.epoch_id + 1) % 2 ^ 64 else c.epoch_id))
    else closed (record c { num_source_confirmations = c.num_source_confirmations + 1 })

-- `unreachable!`.
pub data Panic : Type 0 where
  unreachable : Panic

finish :
    ℕ
    → EpochManagerOptions
    → EpochManagerStateKind
    → EpochManagerState
    → Result Panic (ClosedEpoch × EpochManagerState)
finish num_sources options (closing c) s = err unreachable
finish num_sources options (closed c) s =
    ok (result options c, record s { kind = confirm num_sources c })

-- The second critical section.
unfoldable pub leave :
    ℕ → EpochManagerOptions → ℕ → EpochManagerState → Result Panic (ClosedEpoch × EpochManagerState)
unfolding finish
leave num_sources options now s =
    let s' = decide options now s in finish num_sources options s'.kind s'
