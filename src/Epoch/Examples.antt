-- ===== src/Epoch/Examples.antt =====
-- Two sources close an epoch together, and the theorems at the states of that run.
use dozer.Common.{
  ℕ, ◌+◌, ◌%◌, ◌^◌, ◌≡◌, refl, true, false, none, some, [], ◌∷◌, arith, ok, if◌then◌else◌,
}
use dozer.Types.{NodeHandle, SourceState, restartable, not_started}
use dozer.Types.SourceStates
use dozer.Epoch.Manager.{
  Closing, closing, closed, commit_and_persist, EpochManagerOptions, EpochManagerState,
  EpochCommonInfo, ClosedEpoch, Request, new, new_closing, join, enter, decide, result, common_info,
  confirm, leave, persist_is_due, is_restartable,
}
use dozer.Epoch.System.{
  System, Step, enters, leaves, leaves_last, Reach, here, next, initial, any_commit,
}
use dozer.Epoch.Coherence.{IsCoherent}
use dozer.Epoch.Agreement.{Tells, Reach-Tells, Reach-IsCoherent, epoch_id-leave_last}

abbrev options : EpochManagerOptions
options = record {
  max_num_records_before_persist = 100_000;
  max_interval_before_persist_in_seconds = 60;
  enable_app_checkpoints = true;
}

abbrev handle : NodeHandle
handle = record { ns = none; id = "a" }

abbrev other : NodeHandle
other = record { ns = none; id = "b" }

abbrev state : SourceState
state = restartable (record { txid = 1; seq_in_tx = 2 })

abbrev first : Request
first = record {
  handle = handle;
  source_state = state;
  request_termination = false;
  request_commit = true;
}

abbrev second : Request
second = record {
  handle = other;
  source_state = not_started;
  request_termination = true;
  request_commit = false;
}

abbrev later : ℕ
later = 61_000_000_000

abbrev start : System
start = initial 4 0

abbrev joined : Closing
joined = record {
  epoch_id = 4;
  should_terminate = false;
  should_commit = true;
  source_states = (handle, state) ∷ [];
}

abbrev half : System
half = record {
  manager = record {
    kind = closing joined;
    next_record_index_to_persist = 0;
    last_persisted_epoch_decision_instant = 0;
  };
  requests = first ∷ [];
  inside = 1;
  decision = none;
}

abbrev all_joined : Closing
all_joined = record joined { source_states = (handle, state) ∷ (other, not_started) ∷ [] }

abbrev full : System
full = record {
  manager = record half.manager { kind = closing all_joined };
  requests = first ∷ second ∷ [];
  inside = 2;
  decision = none;
}

abbrev info : EpochCommonInfo
info = record {
  id = 4;
  checkpoint_writer = some 4;
  sink_persist_queue = true;
  source_states = all_joined.source_states;
}

abbrev told : ClosedEpoch
told = record { should_terminate = false; common_info = some info; decision_instant = later }

abbrev decided : EpochManagerState
decided = record {
  kind = closed (record {
    terminating = false;
    action = commit_and_persist;
    epoch_id = 4;
    source_states = all_joined.source_states;
    instant = later;
    num_source_confirmations = 1;
  });
  next_record_index_to_persist = 0;
  last_persisted_epoch_decision_instant = later;
}

abbrev leaving : System
leaving = record {
  manager = decided;
  requests = first ∷ second ∷ [];
  inside = 1;
  decision = some told;
}

first_enters : Step 2 options start half none
first_enters = enters {s = start} first half.manager (omega arith) entered
  where
    entered : enter first start.manager ≡ some half.manager
    entered = unfold enter new new_closing join SourceStates.insert in refl

second_enters : Step 2 options half full none
second_enters = enters {s = half} second full.manager (omega arith) entered
  where
    entered : enter second half.manager ≡ some full.manager
    entered = unfold enter join SourceStates.insert in refl

first_leaves_told : leave 2 options later full.manager ≡ ok (told, decided)
unfolding leave decide result common_info confirm persist_is_due is_restartable
first_leaves_told = refl

first_leaves : Step 2 options full leaving (some told)
first_leaves = leaves {s = full} later told decided refl (omega arith) first_leaves_told

full_reached : Reach 2 options start full
full_reached = next (next here first_enters) second_enters

leaving_reached : Reach 2 options start leaving
leaving_reached = next full_reached first_leaves

second_leaves_told :
    leave 2 options (later + 5) decided
    ≡ ok (told, record decided { kind = closing (new_closing 5) })
unfolding leave decide result common_info confirm persist_is_due is_restartable new_closing
second_leaves_told = refl

full-IsCoherent : IsCoherent 2 options full
full-IsCoherent = Reach-IsCoherent (omega arith) 4 0 full_reached

second_leaves :
    Step 2 options leaving
      (record {
        manager = record decided { kind = closing (new_closing 5) };
        requests = [];
        inside = 0;
        decision = none;
      })
      (some told)
second_leaves = leaves_last {s = leaving} (later + 5) told _ refl refl second_leaves_told

Reach-Tells_example :
    IsCoherent 2 options leaving
    × IsCoherent 2 options (record {
      manager = record decided { kind = closing (new_closing 5) };
      requests = [];
      inside = 0;
      decision = none;
    })
    × Tells leaving (some told)
Reach-Tells_example = Reach-Tells (omega arith) 4 0 leaving_reached second_leaves

epoch_id-leave_last_example :
    5 ≡ (if any_commit false (first ∷ second ∷ []) then (4 + 1) % 2 ^ 64 else 4)
unfolding new_closing
epoch_id-leave_last_example =
    epoch_id-leave_last 2 options (omega arith) 4 0 (later + 5) told
      (record decided { kind = closing (new_closing 5) }) leaving_reached refl refl
      second_leaves_told
