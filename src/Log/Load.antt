-- ===== src/Log/Load.antt =====
-- Restoring the log from storage: `load_persisted_log_entries_impl`, `persisted_log_entries_end` of
-- dozer-log/src/replication/persist.rs and `Log::new` of dozer-log/src/replication/mod.rs.
pub mod Checks
pub mod Restart
use dozer.Common.{
  ℕ, ◌+◌, ◌≡◌, Bool, true, false, not, ◌&&◌, List, [], ◌∷◌, ◌++◌, Option, none, some, String, ltb,
  ◌==◌, if◌then◌else◌, get_last?, Result, ok, err, ◌>>=◌,
}
use dozer.Log.Entry.{
  Range, PersistedLogEntry, Error, epoch_id_mismatch, unrecognized_log_entry, LogOperation, commit,
  panicked, first_log_entry_not_start_from_zero, log_entry_not_consecutive,
}
use dozer.Log.Name.{parse_log_entry_name}
use dozer.Log.Write.{Log}

-- The answers of the storage to the calls of `list_objects`: pages of keys, until one comes without
-- a continuation token, or until a call fails.
pub data Listing : Type 0 where
  last : List String → Listing
  more : List String → Listing → Listing
  failed : Error → Listing

-- `Some(epoch_id) > last_epoch_id`, where nothing is below every `Some`.
abbrev pub is_after : ℕ → Option ℕ → Bool
is_after epoch_id none = true
is_after epoch_id (some last_id) = ltb last_id epoch_id

abbrev pub same_epoch : Option ℕ → Option ℕ → Bool
same_epoch none none = true
same_epoch (some a) (some b) = a == b
same_epoch none (some b) = false
same_epoch (some a) none = false

-- What the loop has collected: entries to keep and keys to remove.
abbrev pub Loaded : Type 0
Loaded = List PersistedLogEntry × List String

abbrev pub or_unrecognized : {A : Type 0} → String → Option A → Result Error A
or_unrecognized key none = err (unrecognized_log_entry key)
or_unrecognized key (some a) = ok a

-- `strip_prefix` takes the storage's prefix off a path, and belongs to a third-party crate.
module _ (strip_prefix : String → Option (List ℕ)) (last_epoch_id : Option ℕ) where
  -- The body of the loop over the objects of a page.
  unfoldable pub load_object : Loaded → String → Result Error Loaded
  load_object (result, to_remove) key = do
    name ← or_unrecognized key (strip_prefix key)
    parsed ← or_unrecognized key (parse_log_entry_name name)
    ok (
        if is_after parsed.0 last_epoch_id then (result, to_remove ++ key ∷ []) else (
          result ++ record { key = key; epoch_id = parsed.0; range = parsed.1 } ∷ [],
          to_remove,
        ))

  unfoldable pub load_page : Loaded → List String → Result Error Loaded
  load_page acc [] = ok acc
  load_page acc (key ∷ keys) = load_object acc key >>= λ next. load_page next keys

  unfoldable pub load_listing : Loaded → Listing → Result Error Loaded
  load_listing acc (last keys) = load_page acc keys
  load_listing acc (more keys listing) = load_page acc keys >>= λ next. load_listing next listing
  load_listing acc (failed e) = err e

-- The checks that follow the loop.
unfoldable pub check_consecutive : List PersistedLogEntry → Result Error (Unit {0})
check_consecutive [] = ok tt
check_consecutive (e ∷ []) = ok tt
check_consecutive (e ∷ f ∷ es) =
    let rest = check_consecutive (f ∷ es) in
    if e.range.end == f.range.start then rest else err (log_entry_not_consecutive e f)

abbrev pub last_epoch : List PersistedLogEntry → Option ℕ
last_epoch es = elim (get_last? es) [ none ↦ none | some e ↦ some e.epoch_id ]

abbrev pub check_first : List PersistedLogEntry → Result Error (Unit {0})
check_first [] = ok tt
check_first (e ∷ es) =
    if e.range.start == 0 then ok tt else err (first_log_entry_not_start_from_zero e)

unfoldable pub check_loaded : Option ℕ → Loaded → Result Error Loaded
unfolding check_consecutive
check_loaded last_epoch_id (result, to_remove) =
    if same_epoch (last_epoch result) last_epoch_id
    then (do _ ← check_first result; _ ← check_consecutive result; ok (result, to_remove))
    else err (epoch_id_mismatch last_epoch_id (last_epoch result))

-- The entries to keep and the keys to remove; `load_persisted_and_remove_spurious_log_entries` then
-- asks the storage to delete the latter.
unfoldable pub load_persisted_log_entries_impl :
    (String → Option (List ℕ)) → Option ℕ → Listing → Result Error Loaded
load_persisted_log_entries_impl strip_prefix last_epoch_id listing =
    load_listing strip_prefix last_epoch_id ([], []) listing >>= check_loaded last_epoch_id

unfoldable pub persisted_log_entries_end : List PersistedLogEntry → Option ℕ
persisted_log_entries_end persisted = elim (get_last? persisted) [
  | none ↦ none
  | some e ↦ some e.range.end
]

-- A storage is asked to delete only where there is something to delete.
abbrev pub delete_spurious :
    (List String → Result Error (Unit {0})) → List String → Result Error (Unit {0})
delete_spurious delete_objects [] = ok tt
delete_spurious delete_objects (key ∷ keys) = delete_objects (key ∷ keys)

-- The names of the argument: what takes the prefix off a path, and the storage's `delete_objects`.
unfoldable pub load_persisted_and_remove_spurious_log_entries :
    (String → Option (List ℕ))
    → (List String → Result Error (Unit {0}))
    → Option ℕ
    → Listing
    → Result Error (List PersistedLogEntry)
load_persisted_and_remove_spurious_log_entries strip_prefix delete_objects last_epoch_id listing =
    do
      loaded ← load_persisted_log_entries_impl strip_prefix last_epoch_id listing
      _ ← delete_spurious delete_objects loaded.1
      ok loaded.0

-- The log that `new` returns, next to the restored checkpoint.
unfoldable pub restored : {A : Type 0} → String → List PersistedLogEntry → Log A
unfolding persisted_log_entries_end
restored prefix persisted = record {
  persisted = persisted;
  in_memory = record {
    start = elim (persisted_log_entries_end persisted) [ none ↦ 0 | some end ↦ end ];
    ops = [];
    next_persist_start = 0;
  };
  next_watcher_id = 0;
  watchers = [];
  prefix = prefix;
}

module _ {R S : Type 0} where
  -- The last operation of an entry must be a commit.
  abbrev pub source_states_of : LogOperation R S → Result Error (Option S)
  source_states_of (commit source_states instant) = ok (some source_states)
  source_states_of _ = err panicked

  abbrev pub checkpoint_of : List (LogOperation R S) → Result Error (Option S)
  checkpoint_of ops = elim (get_last? ops) [ none ↦ ok none | some op ↦ source_states_of op ]

  abbrev pub load_last :
      (PersistedLogEntry → Result Error (List (LogOperation R S)))
      → Option PersistedLogEntry
      → Result Error (Option S)
  load_last load_entry none = ok none
  load_last load_entry (some e) = load_entry e >>= checkpoint_of

  -- `load_entry` downloads the operations of an entry and decodes them.
  abbrev pub load_checkpoint :
      (PersistedLogEntry → Result Error (List (LogOperation R S)))
      → List PersistedLogEntry
      → Result Error (Option S)
  load_checkpoint load_entry persisted = load_last load_entry (get_last? persisted)

  unfoldable pub new :
      (String → Option (List ℕ))
      → (List String → Result Error (Unit {0}))
      → (PersistedLogEntry → Result Error (List (LogOperation R S)))
      → String
      → Option ℕ
      → Listing
      → Result Error (Log (LogOperation R S) × Option S)
  new strip_prefix delete_objects load_entry prefix last_epoch_id listing = do
    persisted ←
        load_persisted_and_remove_spurious_log_entries strip_prefix delete_objects last_epoch_id
          listing
    from_checkpoint ← load_checkpoint load_entry persisted
    ok (restored prefix persisted, from_checkpoint)
