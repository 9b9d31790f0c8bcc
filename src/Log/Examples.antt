-- ===== src/Log/Examples.antt =====
-- Runs of the replication log, and its theorems at concrete logs.
use text.Mathlib.Text.{◌==◌ as str_eq}
use mathlib.Core.List.{Memᴰ}
use dozer.Common.{
  err, Result, ◌==◌, if◌then◌else◌, ℕ, ◌≡◌, refl, true, false, List, [], ◌∷◌, ◌++◌, arith, Option,
  none, some, String, All, ok, Succeeds,
}
use dozer.Log.Entry.{
  Error, persisting_thread_quit, Range, PersistedLogEntry, LogOperation, op, commit, is_commit,
}
use dozer.Types.{insert}
use dozer.Log.Watch.{Watcher, Sent, retain_watchers, trigger_watcher}
use dozer.Log.Slices.{Answers}
use dozer.Log.Invariant.{IsValid}
use dozer.Log.Name.{
  log_entry_name, parse_log_entry_name, parse_log_entry_name-log_entry_name, log_entry_name_ordered,
}
use dozer.Log.Name.Digits.{lex_lt}
use dozer.Log.Load.{Listing, new, load_persisted_log_entries_impl, last, more, last_epoch}
use dozer.Log.Load.Checks.{
  Chained, listed, filter_keys, is_early, is_late, load_persisted_log_entries_sound, IsKept,
  IsSpurious,
}
use dozer.Log.Load.Restart.{load_persisted_log_entries_restores, new-IsValid, IsStored, IsLoadable}
use dozer.Log.Write.{
  Log, PersistTask, write, persist, finish_persist, read, time_out, ends_with_commit,
}
use dozer.Log.Writing.{
  Written, Persisting, Uploaded, write-IsValid, persist-IsValid, finish_persist-IsValid,
}
use dozer.Log.Reading.{Read, TimedOut, read-IsValid, time_out-IsValid}
use dozer.Log.System.{
  System, Step, here, next, writes, persists, uploaded, IsSound, Step-IsSound, Reach-IsSound,
}

abbrev Op : Type 0
Op = LogOperation ℕ ℕ

abbrev row : Op
row = op (insert 7)

abbrev end_of_epoch : Op
end_of_epoch = commit 0 100

abbrev range_of : ℕ → ℕ → Range
range_of a b = record { start = a; end = b }

-- One epoch is stored, a row and a commit are in memory, one reader waits for more.
abbrev stored : PersistedLogEntry
stored = record { key = "0-0-2"; epoch_id = 0; range = range_of 0 2 }

abbrev waiting : Watcher
waiting = record { id = 3; request = range_of 3 5; timeout = false; sender = true }

abbrev log : Log Op
log = record {
  persisted = stored ∷ [];
  in_memory = record { start = 2; ops = row ∷ end_of_epoch ∷ []; next_persist_start = 0 };
  next_watcher_id = 4;
  watchers = waiting ∷ [];
  prefix = "log";
}

-- A join of paths that puts every name into the same directory.
abbrev join : String → List ℕ → String
join prefix name = prefix

abbrev history : List Op
history = row ∷ end_of_epoch ∷ row ∷ end_of_epoch ∷ []

log-IsValid : IsValid log [] history
log-IsValid = record {
  suffix = record { ops = refl; size = refl };
  saved = omega arith;
  uploading = omega arith;
  bounded = omega arith;
  waiting = (
    record {
      alive = refl;
      low = omega arith;
      order = omega arith;
      beyond = omega arith;
      known = omega arith;
    },
    tt,
  );
}

write_runs :
    write log row
    ≡ ok (
      5,
      record log {
        in_memory = record log.in_memory { ops = row ∷ end_of_epoch ∷ row ∷ [] };
        watchers = [];
      },
      record { to = 3; ops = end_of_epoch ∷ row ∷ [] } ∷ [],
    )
unfolding write retain_watchers trigger_watcher
write_runs = refl

write-IsValid_example : Succeeds (write log row) (Written log [] history row)
write-IsValid_example = write-IsValid log [] history log-IsValid row

persist-IsValid_example :
    Succeeds (persist join is_commit true 1 log) (Persisting log [] history join 1)
    × (persist join is_commit false 1 log ≡ err persisting_thread_quit)
persist-IsValid_example = persist-IsValid log [] history log-IsValid join is_commit 1 refl_commit
  where
    refl_commit : ends_with_commit is_commit (row ∷ end_of_epoch ∷ []) ≡ true
    refl_commit = unfold is_commit in refl

read-IsValid_example : Succeeds (read log (range_of 3 9)) (Read log [] history (range_of 3 9))
read-IsValid_example = read-IsValid log [] history log-IsValid (range_of 3 9) (omega arith)

time_out-IsValid_example : Succeeds (time_out 3 log) (TimedOut log [] history 3)
time_out-IsValid_example = time_out-IsValid log [] history log-IsValid 3

-- The same log once its two operations are on their way to the storage.
abbrev task : PersistTask Op
task = record { key = "log"; ops = row ∷ end_of_epoch ∷ []; epoch_id = 1; range = range_of 2 4 }

abbrev uploading_log : Log Op
uploading_log = record log { in_memory = record log.in_memory { next_persist_start = 2 } }

uploading_log-IsValid : IsValid uploading_log (task.range ∷ []) history
uploading_log-IsValid = record {
  suffix = record { ops = refl; size = refl };
  saved = omega arith;
  uploading = omega arith;
  bounded = omega arith;
  waiting = (
    record {
      alive = refl;
      low = omega arith;
      order = omega arith;
      beyond = omega arith;
      known = omega arith;
    },
    tt,
  );
}

finish_persist-IsValid_example :
    Succeeds
      (finish_persist task (some "0-2-4") uploading_log)
      (Uploaded uploading_log [] history "0-2-4" task)
finish_persist-IsValid_example =
    finish_persist-IsValid uploading_log task [] history "0-2-4" uploading_log-IsValid

abbrev system : System Op
system = record {
  log = log;
  uploads = [];
  objects = ("0-0-2", row ∷ end_of_epoch ∷ []) ∷ [];
  history = history;
}

system-IsSound : IsSound system
system-IsSound = record {
  valid = log-IsValid;
  tasks = tt;
  stored = ((row ∷ end_of_epoch ∷ [], Memᴰ.head refl, (omega arith, refl)), tt);
}

abbrev after_write : System Op
after_write = record {
  log = record log {
    in_memory = record log.in_memory { ops = row ∷ end_of_epoch ∷ row ∷ [] };
    watchers = [];
  };
  uploads = [];
  objects = system.objects;
  history = history ++ row ∷ [];
}

abbrev message : Sent Op
message = record { to = 3; ops = end_of_epoch ∷ row ∷ [] }

writes-Step : Step join is_commit system after_write (message ∷ [])
writes-Step = writes row 5 after_write.log (message ∷ []) write_runs

Step-IsSound_example :
    IsSound after_write × All (Answers after_write.history (waiting ∷ [])) (message ∷ [])
unfolding writes-Step
Step-IsSound_example = Step-IsSound writes-Step tt system-IsSound

-- The commit in memory is persisted, and the upload ends and overtakes the reader.
abbrev system_uploading : System Op
system_uploading = record system { log = uploading_log; uploads = task ∷ [] }

persists-Step : Step join is_commit system system_uploading []
unfolding is_commit persist
persists-Step = persists 1 task uploading_log refl refl

abbrev after_upload : System Op
after_upload = record {
  log = record uploading_log {
    persisted = stored ∷ record { key = "log"; epoch_id = 1; range = range_of 2 4 } ∷ [];
    in_memory = record { start = 4; ops = []; next_persist_start = 0 };
    watchers = [];
  };
  uploads = [];
  objects = ("log", row ∷ end_of_epoch ∷ []) ∷ system.objects;
  history = history;
}

uploaded-Step :
    Step join is_commit system_uploading after_upload
      (record { to = 3; ops = end_of_epoch ∷ [] } ∷ [])
unfolding finish_persist retain_watchers trigger_watcher
uploaded-Step =
    uploaded [] task [] after_upload.log (record { to = 3; ops = end_of_epoch ∷ [] } ∷ []) refl refl

Reach-IsSound_example : IsSound after_upload
unfolding persists-Step uploaded-Step
Reach-IsSound_example =
    Reach-IsSound system-IsSound (next (next here persists-Step) uploaded-Step) ((tt, tt), refl)

parse_log_entry_name-log_entry_name_example :
    parse_log_entry_name (log_entry_name 3 (range_of 40 57)) ≡ some (3, range_of 40 57)
parse_log_entry_name-log_entry_name_example =
    parse_log_entry_name-log_entry_name 3 (range_of 40 57) (omega arith) (omega arith) (omega arith)

log_entry_name_ordered_example :
    lex_lt (log_entry_name 9 (range_of 0 5)) (log_entry_name 10 (range_of 5 6)) ≡ true
log_entry_name_ordered_example =
    log_entry_name_ordered 9 10 (range_of 0 5) (range_of 5 6) (omega arith) (omega arith)

-- A storage with two entries of the checkpoint and one of an epoch that did not finish.
abbrev first : PersistedLogEntry
first = record { key = "a"; epoch_id = 0; range = range_of 0 2 }

abbrev second : PersistedLogEntry
second = record { key = "b"; epoch_id = 1; range = range_of 2 5 }

abbrev third : PersistedLogEntry
third = record { key = "c"; epoch_id = 2; range = range_of 5 6 }

strip : String → Option (List ℕ)
strip key =
    if str_eq key "a"
    then some (log_entry_name 0 (range_of 0 2))
    else if str_eq key "b"
    then some (log_entry_name 1 (range_of 2 5))
    else if str_eq key "c"
    then some (log_entry_name 2 (range_of 5 6))
    else none

kept : All (IsStored strip (some 1) false) (first ∷ second ∷ [])
unfolding strip
kept = (
  (record { key = refl; epoch = omega arith; start = omega arith; end = omega arith }, refl),
  ((record { key = refl; epoch = omega arith; start = omega arith; end = omega arith }, refl), tt),
)

spurious : All (IsStored strip (some 1) true) (third ∷ [])
unfolding strip
spurious =
    ((record { key = refl; epoch = omega arith; start = omega arith; end = omega arith }, refl), tt)

-- The storage cuts the keys into two pages.
abbrev listing : Listing
listing = more ("a" ∷ []) (last ("b" ∷ "c" ∷ []))

restored_entries :
    load_persisted_log_entries_impl strip (some 1) listing ≡ ok (first ∷ second ∷ [], "c" ∷ [])
restored_entries =
    load_persisted_log_entries_restores strip (some 1) (first ∷ second ∷ []) (third ∷ []) listing
      refl refl kept spurious (omega arith) refl

load_persisted_log_entries_restores_example :
    load_persisted_log_entries_impl strip (some 1) listing ≡ ok (first ∷ second ∷ [], "c" ∷ [])
load_persisted_log_entries_restores_example =
    load_persisted_log_entries_restores strip (some 1) (first ∷ second ∷ []) (third ∷ []) listing
      refl refl kept spurious (omega arith) refl

load_persisted_log_entries_sound_example :
    Chained 0 (first ∷ second ∷ [])
    × (last_epoch (first ∷ second ∷ []) ≡ some 1)
    × All (IsKept strip (some 1)) (first ∷ second ∷ [])
    × All (IsSpurious strip (some 1)) ("c" ∷ [])
    × ("a" ∷ "b" ∷ [] ≡ filter_keys (is_early strip (some 1)) (listed listing))
    × ("c" ∷ [] ≡ filter_keys (is_late strip (some 1)) (listed listing))
load_persisted_log_entries_sound_example =
    load_persisted_log_entries_sound strip (some 1) listing (first ∷ second ∷ [], "c" ∷ [])
      restored_entries

-- The five operations of the two entries, of which the last is a commit.
abbrev five : List Op
five = row ∷ history

load_entry : PersistedLogEntry → Result Error (List Op)
load_entry e =
    if e.epoch_id == 0 then ok (row ∷ row ∷ []) else ok (end_of_epoch ∷ row ∷ end_of_epoch ∷ [])

loads : All (IsLoadable load_entry five) (first ∷ second ∷ [])
unfolding load_entry
loads = ((omega arith, refl), ((omega arith, refl), tt))

new-IsValid_example : Succeeds (new strip (λ keys. ok tt) load_entry "log" (some 1) listing) λ r.
    IsValid r.0 [] five
    × (r.0.persisted ≡ first ∷ second ∷ [])
    × (r.0.prefix ≡ "log")
    × (r.0.in_memory.ops ≡ [])
    × (r.1 ≡ some 0)
new-IsValid_example =
    new-IsValid strip (λ keys. ok tt) load_entry "log" (some 1) listing (first ∷ second ∷ [])
      ("c" ∷ []) five (some 0) restored_entries refl loads refl refl
