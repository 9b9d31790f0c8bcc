-- ===== src/Executor/System.antt =====
-- The runs of the receiver loop, in which operations arrive from any port that it selects
-- (dozer-core/src/executor/receiver_loop.rs).
use dozer.Common.{
  ℕ, ◌≡◌, sym, Bool, true, false, Option, some, List, length, get_elem?, set, replicate, ok,
  length-replicate, ◌==◌, if◌then◌else◌,
}
use dozer.Executor.Marks.{count, get-replicate, count-replicate}
use dozer.Executor.ReceiverLoop.{Loop, ExecutorOperation, commit, Call, new, handle}

-- The loop, and the ports that have committed the current epoch.
pub record System : Type 0 where
  pub loop : Loop
  pub committed : List Bool

-- Once all ports have committed an epoch, none has committed the next one.
abbrev pub restart : List Bool → List Bool
restart bs = if count bs == length bs then replicate (length bs) false else bs

-- What has been received marks the ports, whatever the loop does with it.
abbrev pub mark : {R : Type 0} → ℕ → ExecutorOperation R → List Bool → List Bool
mark i (commit e) bs = restart (set bs i true)
mark i _ bs = bs

-- The loop receives from one of the ports that it selects.
pub data Step {R : Type 0} : System → Option (Call R) → System → Type 0 where
  receives :
      {s : System} (i : ℕ) (o : ExecutorOperation R) (c : Option (Call R)) (l : Loop)
      → get_elem? s.loop.sel i ≡ some true
      → handle i o s.loop ≡ ok (c, some l)
      → Step s c (record { loop = l; committed = mark i o s.committed })

pub data Reach (R : Type 0) (s : System) : System → Type 0 where
  here : Reach R s s
  next : {t u : System} {c : Option (Call R)} → Reach R s t → Step t c u → Reach R s u

-- A port that has committed the current epoch is not received from, and the loop's count is right.
pub record IsAligned (n : ℕ) (s : System) : Type 0 where
  pub ports : length s.loop.port_states ≡ n
  pub selected : length s.loop.sel ≡ n
  pub marks : length s.committed ≡ n
  pub waits : (i : ℕ) → get_elem? s.committed i ≡ some true → get_elem? s.loop.sel i ≡ some false
  pub counted : s.loop.commits_received ≡ count s.committed

abbrev pub initial : ℕ → ℕ → System
initial receivers epoch_id = record {
  loop = new receivers epoch_id;
  committed = replicate receivers false;
}

pub initial-IsAligned : (n epoch_id : ℕ) → IsAligned n (initial n epoch_id)
unfolding new
initial-IsAligned n epoch_id = record {
  ports = length-replicate n _;
  selected = length-replicate n _;
  marks = length-replicate n _;
  waits = λ i e. absurd (let same = get-replicate n i false true e in cc);
  counted = sym (count-replicate n);
}
