-- ===== src/Executor/Examples.antt =====
-- Two ports commit an epoch one after the other.
use dozer.Common.{ℕ, ◌<◌, ◌≡◌, ◌≢◌, refl, true, false, none, some, [], ◌∷◌, get_elem?}
use dozer.Epoch.Manager.{EpochCommonInfo}
use dozer.Executor.ReceiverLoop.{
  Loop, ExecutorOperation, commit, on_commit, Epoch, open_port, new, handle,
}
use dozer.Executor.System.{
  System, Step, receives, here, next, initial, IsAligned, initial-IsAligned,
}
use dozer.Executor.Alignment.{Step-IsAligned, Reach-IsAligned, handle-on_commit}

abbrev info : EpochCommonInfo
info = record { id = 3; checkpoint_writer = none; sink_persist_queue = false; source_states = [] }

abbrev epoch : Epoch
epoch = record { common_info = info; decision_instant = 8 }

abbrev committing : ExecutorOperation ℕ
committing = commit epoch

abbrev half : System
half = record {
  loop = record {
    port_states = open_port ∷ open_port ∷ [];
    commits_received = 1;
    epoch_id = 3;
    sel = false ∷ true ∷ [];
  };
  committed = true ∷ false ∷ [];
}

abbrev full : Loop
full = record {
  port_states = open_port ∷ open_port ∷ [];
  commits_received = 0;
  epoch_id = 4;
  sel = true ∷ true ∷ [];
}

first_commits : Step {R = ℕ} (initial 2 3) none half
unfolding new handle
first_commits = receives 0 committing none half.loop refl refl

half-IsAligned : IsAligned 2 half
half-IsAligned = Step-IsAligned 2 (initial-IsAligned 2 3) first_commits

second_commits :
    Step {R = ℕ} half
      (some (on_commit epoch))
      (record { loop = full; committed = false ∷ false ∷ [] })
unfolding handle
second_commits = receives 1 committing (some (on_commit epoch)) full refl refl

Reach-IsAligned_example : IsAligned 2 (record { loop = full; committed = false ∷ false ∷ [] })
Reach-IsAligned_example = Reach-IsAligned 2 3 (next (next here first_commits) second_commits)

handle-on_commit_example :
    (committing ≡ commit epoch)
    × (epoch.common_info.id ≡ half.loop.epoch_id)
    × ((j : ℕ) → j < 2 → 1 ≢ j → get_elem? half.committed j ≡ some true)
unfolding handle
handle-on_commit_example =
    handle-on_commit 2 half half-IsAligned 1 refl committing epoch (some full) refl
