-- ===== src/Executor/ReceiverLoop.antt =====
-- `ReceiverLoop` (dozer-core/src/executor/receiver_loop.rs). `handle` is the body of the loop after an
-- operation has been received from the port at `index`: the method of the node that it calls, and
-- the loop's next state, or `none` where it returns. An error of the method, or a port without a sender,
-- ends the loop.
use dozer.Common.{
  ℕ, ◌+◌, ◌%◌, ◌^◌, Bool, true, false, Option, none, some, List, length, set, replicate, all, ◌==◌,
  if◌then◌else◌, Result, ok, err, String,
}
use dozer.Types.{OpIdentifier, OperationWithId}
use dozer.Epoch.Manager.{EpochCommonInfo}

pub data InputPortState : Type 0 where
  open_port terminated : InputPortState

pub record Epoch : Type 0 where
  pub common_info : EpochCommonInfo
  pub decision_instant : ℕ

pub data ExecutorOperation (R : Type 0) : Type 0 where
  op : OperationWithId R → ExecutorOperation R
  commit : Epoch → ExecutorOperation R
  terminate : ExecutorOperation R
  snapshotting_started : String → ExecutorOperation R
  snapshotting_done : String → Option OpIdentifier → ExecutorOperation R

-- The methods of the node.
pub data Call (R : Type 0) : Type 0 where
  on_op : ℕ → OperationWithId R → Call R
  on_commit : Epoch → Call R
  on_terminate : Call R
  on_snapshotting_started : String → Call R
  on_snapshotting_done : String → Option OpIdentifier → Call R

-- The local variables of `receiver_loop`; `sel` marks the ports it receives from.
pub record Loop : Type 0 where
  pub port_states : List InputPortState
  pub commits_received : ℕ
  pub epoch_id : ℕ
  pub sel : List Bool

-- The failed assertion on the epoch's id.
pub data Panic : Type 0 where
  wrong_epoch : Panic

unfoldable pub new : ℕ → ℕ → Loop
new receivers initial_epoch_id = record {
  port_states = replicate receivers open_port;
  commits_received = 0;
  epoch_id = initial_epoch_id;
  sel = replicate receivers true;
}

abbrev pub is_terminated : InputPortState → Bool
is_terminated open_port = false
is_terminated terminated = true

abbrev pub Handled : Type 0 → Type 0
Handled R = Result Panic (Option (Call R) × Option Loop)

receive_commit : {R : Type 0} → ℕ → Epoch → Loop → Handled R
receive_commit index epoch l =
    let sel = set l.sel index false in
    if epoch.common_info.id == l.epoch_id
    then (if l.commits_received + 1 == length l.port_states
        then ok (
          some (on_commit epoch),
          some (record l {
            epoch_id = (l.epoch_id + 1) % 2 ^ 64;
            commits_received = 0;
            sel = replicate (length l.port_states) true;
          }),
        )
        else ok (none, some (record l { commits_received = l.commits_received + 1; sel = sel })))
    else err wrong_epoch

receive_terminate : {R : Type 0} → ℕ → Loop → Handled R
receive_terminate index l =
    let port_states = set l.port_states index terminated in
    if all is_terminated port_states
    then ok (some on_terminate, none)
    else ok (none, some (record l { port_states = port_states; sel = set l.sel index false }))

unfoldable pub handle : {R : Type 0} → ℕ → ExecutorOperation R → Loop → Handled R
unfolding receive_commit receive_terminate
handle index (op o) l = ok (some (on_op index o), some l)
handle index (commit epoch) l = receive_commit index epoch l
handle index terminate l = receive_terminate index l
handle index (snapshotting_started name) l = ok (some (on_snapshotting_started name), some l)
handle index (snapshotting_done name id) l = ok (some (on_snapshotting_done name id), some l)
