-- ===== src/Log/Load/Restart.antt =====
-- What was persisted is loaded again after a restart, and the restored log is valid
-- (dozer-log/src/replication/persist.rs, `Log::new` of dozer-log/src/replication/mod.rs).
use dozer.Common.{
  zero, suc, ◌-◌, ◌∙◌, ◌>>=◌, Result, Result-cases, Succeeds, inl, inr, get_last?, drop, min,
  take-all, length-drop, All-map, ℕ, ◌<◌, ◌≤◌, ◌^◌, ◌≡◌, refl, sym, ap, Bool, true, false, List, [],
  ◌∷◌, ◌++◌, map, arith, Option, none, some, String, length, All, ok, append_assoc, append-nil,
  subst, drop-all,
}
use dozer.Log.Entry.{Range, Error, LogOperation, PersistedLogEntry, Consecutive}
use dozer.Log.Memory.{section_of}
use dozer.Log.Name.{log_entry_name, parse_log_entry_name-log_entry_name}
use dozer.Log.Invariant.{IsValid, ranges}
use dozer.Log.Load.{
  Listing, last, more, failed, restored, delete_spurious, source_states_of, checkpoint_of,
  load_checkpoint, load_persisted_and_remove_spurious_log_entries, is_after, same_epoch, Loaded,
  load_object, load_page, load_listing, check_consecutive, check_first, last_epoch, check_loaded,
  load_persisted_log_entries_impl, new, persisted_log_entries_end,
}
use dozer.Log.Load.Checks.{Chained, listed, load_persisted_log_entries_sound}

module _ (strip_prefix : String → Option (List ℕ)) (last_id : Option ℕ) where
  -- An entry under the key that `persist` gave it, with 64-bit numbers.
  pub record IsNamed (e : PersistedLogEntry) : Type 0 where
    pub key : strip_prefix e.key ≡ some (log_entry_name e.epoch_id e.range)
    pub epoch : e.epoch_id < 2 ^ 64
    pub start : e.range.start < 2 ^ 64
    pub end : e.range.end < 2 ^ 64

  abbrev pub IsStored : Bool → PersistedLogEntry → Type 0
  IsStored late e = IsNamed e × (is_after e.epoch_id last_id ≡ late)

  abbrev keys : List PersistedLogEntry → List String
  keys = map (λ e. e.key)

  load_object-kept :
      (acc : Loaded) (e : PersistedLogEntry)
      → IsStored false e
      → load_object strip_prefix last_id acc e.key ≡ ok (acc.0 ++ e ∷ [], acc.1)
  unfolding load_object
  load_object-kept (es, rm) e (n, early) = rw n.key (
      rw (parse_log_entry_name-log_entry_name e.epoch_id e.range n.epoch n.start n.end)
        (rw early refl))

  load_object-late :
      (acc : Loaded) (e : PersistedLogEntry)
      → IsStored true e
      → load_object strip_prefix last_id acc e.key ≡ ok (acc.0, acc.1 ++ e.key ∷ [])
  unfolding load_object
  load_object-late (es, rm) e (n, late) = rw n.key (
      rw (parse_log_entry_name-log_entry_name e.epoch_id e.range n.epoch n.start n.end)
        (rw late refl))

  load_page-late :
      (es : List PersistedLogEntry) (acc : Loaded)
      → All (IsStored true) es
      → load_page strip_prefix last_id acc (keys es) ≡ ok (acc.0, acc.1 ++ keys es)
  unfolding load_page
  load_page-late [] acc h = rw (append-nil acc.1) refl
  load_page-late (e ∷ es) acc (s, h) =
      rw (load_object-late acc e s, load_page-late es (acc.0, acc.1 ++ e.key ∷ []) h)
        (ap (λ r. ok (acc.0, r)) (append_assoc acc.1 _ _))

  load_page-kept :
      (es late : List PersistedLogEntry) (acc : Loaded)
      → All (IsStored false) es
      → All (IsStored true) late
      → load_page strip_prefix last_id acc (keys es ++ keys late)
        ≡ ok (acc.0 ++ es, acc.1 ++ keys late)
  unfolding load_page
  load_page-kept [] late acc h k = rw (append-nil acc.0) (load_page-late late acc k)
  load_page-kept (e ∷ es) late acc (s, h) k =
      rw (load_object-kept acc e s, load_page-kept es late (acc.0 ++ e ∷ [], acc.1) h k)
        (ap (λ r. ok (r, acc.1 ++ keys late)) (append_assoc acc.0 _ _))

same_epoch_self : (o : Option ℕ) → same_epoch o o ≡ true
same_epoch_self none = refl
same_epoch_self (some n) = ground arith

check_consecutive-ok :
    (a : ℕ) (es : List PersistedLogEntry) → Chained a es → check_consecutive es ≡ ok tt
unfolding check_consecutive
check_consecutive-ok a [] h = refl
check_consecutive-ok a (e ∷ []) h = refl
check_consecutive-ok a (e ∷ f ∷ es) (s, (t, h)) =
    rw (check_consecutive-ok e.range.end (f ∷ es) (t, h)) (ground (arith, t))

check_first-ok : (es : List PersistedLogEntry) → Chained 0 es → check_first es ≡ ok tt
check_first-ok [] h = refl
check_first-ok (e ∷ es) (s, h) = ground (arith, s)

load_page-append :
    (strip_prefix : String → Option (List ℕ)) (last_id : Option ℕ) (acc : Loaded)
    (xs ys : List String)
    → load_page strip_prefix last_id acc (xs ++ ys)
      ≡ (load_page strip_prefix last_id acc xs >>= λ next. load_page strip_prefix last_id next ys)
unfolding load_page
load_page-append strip_prefix last_id acc [] ys = refl
load_page-append strip_prefix last_id acc (x ∷ xs) ys =
    elim (Result-cases (load_object strip_prefix last_id acc x)) [
      | inl (next, e) ↦ rw e (load_page-append strip_prefix last_id next xs ys)
      | inr (bad, e) ↦ rw e refl
    ]

-- No call of `list_objects` fails.
abbrev pub is_complete : Listing → Bool
is_complete (last keys) = true
is_complete (more keys listing) = is_complete listing
is_complete (failed e) = false

-- How the storage cuts a listing into pages does not matter.
load_listing-listed :
    (strip_prefix : String → Option (List ℕ)) (last_id : Option ℕ) (acc : Loaded)
    (listing : Listing)
    → is_complete listing ≡ true
    → load_listing strip_prefix last_id acc listing
      ≡ load_page strip_prefix last_id acc (listed listing)
unfolding load_listing
load_listing-listed strip_prefix last_id acc (last keys) c = refl
load_listing-listed strip_prefix last_id acc (failed e) c = absurd (cc)
load_listing-listed strip_prefix last_id acc (more keys listing) c =
    elim (Result-cases (load_page strip_prefix last_id acc keys)) [
      | inl (next, e) ↦
          rw (e, load_page-append strip_prefix last_id acc keys (listed listing), e)
            (load_listing-listed strip_prefix last_id next listing c)
      | inr (bad, e) ↦
          rw (e, load_page-append strip_prefix last_id acc keys (listed listing), e) refl
    ]

-- Entries that `persist` named, consecutive from zero and ending in the epoch of the checkpoint, are
-- loaded as they were, and the entries of later epochs behind them are handed over for removal,
-- however the storage cuts the listing of their keys into pages, if none of its calls fails.
pub load_persisted_log_entries_restores :
    (strip_prefix : String → Option (List ℕ)) (last_id : Option ℕ)
    (es late : List PersistedLogEntry) (listing : Listing)
    → is_complete listing ≡ true
    → listed listing ≡ map (λ e. e.key) es ++ map (λ e. e.key) late
    → All (IsStored strip_prefix last_id false) es
    → All (IsStored strip_prefix last_id true) late
    → Chained 0 es
    → last_epoch es ≡ last_id
    → load_persisted_log_entries_impl strip_prefix last_id listing ≡ ok (es, map (λ e. e.key) late)
unfolding load_persisted_log_entries_impl check_loaded
load_persisted_log_entries_restores strip_prefix last_id es late listing whole keys h k chain
      epoch =
    rw
      (
        load_listing-listed strip_prefix last_id ([], []) listing whole,
        keys,
        load_page-kept strip_prefix last_id es late ([], []) h k,
      )
      (rw (epoch, same_epoch_self last_id, check_first-ok es chain, check_consecutive-ok 0 es chain)
        refl)

abbrev last_end : ℕ → List PersistedLogEntry → ℕ
last_end a [] = a
last_end a (e ∷ es) = last_end e.range.end es

persisted_log_entries_end-some :
    (a : ℕ) (e : PersistedLogEntry) (es : List PersistedLogEntry)
    → persisted_log_entries_end (e ∷ es) ≡ some (last_end a (e ∷ es))
unfolding persisted_log_entries_end
persisted_log_entries_end-some a e [] = refl
persisted_log_entries_end-some a e (f ∷ es) = persisted_log_entries_end-some e.range.end f es

restored-start :
    (A : Type 0) (prefix : String) (es : List PersistedLogEntry)
    → (restored {A = A} prefix es).in_memory.start ≡ last_end 0 es
unfolding restored
restored-start A prefix [] = refl
restored-start A prefix (e ∷ es) = rw (persisted_log_entries_end-some 0 e es, restored) refl

Chained-Consecutive :
    (a : ℕ) (es : List PersistedLogEntry)
    → Chained a es
    → All (λ e. e.range.start ≤ e.range.end) es
    → Consecutive a (ranges es) (last_end a es)
Chained-Consecutive a [] h k = refl
Chained-Consecutive a (e ∷ es) (s, h) (le, k) =
    (s, omega arith, Chained-Consecutive e.range.end es h k)

restored-IsValid :
    {A : Type 0} (prefix : String) (es : List PersistedLogEntry) (h : List A)
    → Chained 0 es
    → All (λ e. e.range.start < e.range.end) es
    → length h ≡ last_end 0 es
    → IsValid (restored prefix es) [] h
unfolding restored
restored-IsValid {A} prefix es h chain order size =
    let start = restored-start A prefix es in
    record {
      suffix = record {
        ops = sym (drop-all _ h (omega (arith, size, start)));
        size = omega (arith, size, start);
      };
      saved =
          subst (Consecutive 0 (ranges es)) (sym start)
            (Chained-Consecutive 0 es chain (All-map (λ e k. omega (arith, k)) es order));
      uploading = omega arith;
      bounded = omega arith;
      waiting = tt;
    }

get_last-drop :
    {A : Type 0} (n : ℕ) (xs : List A) → n < length xs → get_last? (drop n xs) ≡ get_last? xs
get_last-drop zero xs h = refl
get_last-drop (suc n) [] h = refl
get_last-drop (suc n) (x ∷ []) h = absurd (omega arith)
get_last-drop (suc n) (x ∷ y ∷ xs) h = get_last-drop n (y ∷ xs) (omega arith)

last_entry :
    (P : PersistedLogEntry → Type 0) (a : ℕ) (e : PersistedLogEntry) (es : List PersistedLogEntry)
    → All P (e ∷ es)
    → (x : PersistedLogEntry) × (get_last? (e ∷ es) ≡ some x)
      × P x
      × (x.range.end ≡ last_end a (e ∷ es))
last_entry P a e [] (k, ks) = (e, refl, k, refl)
last_entry P a e (f ∷ es) (k, ks) = last_entry P e.range.end f es ks

module _ {R S : Type 0} where
  -- The storage returns the part of the history that the entry stands for, which is not empty.
  abbrev pub IsLoadable :
      (PersistedLogEntry → Result Error (List (LogOperation R S)))
      → List (LogOperation R S)
      → PersistedLogEntry
      → Type 0
  IsLoadable load_entry h e =
      (e.range.start < e.range.end) × (load_entry e ≡ ok (section_of h e.range))

  checkpoint_of-section :
      (h : List (LogOperation R S)) (r : Range)
      → r.start < r.end
      → r.end ≡ length h
      → checkpoint_of (section_of h r) ≡ checkpoint_of h
  checkpoint_of-section h r order end =
      let whole : section_of h r ≡ drop r.start h =
        take-all (min r.end (length h) - r.start) (drop r.start h)
          (omega (arith, end, length-drop {0} r.start h)) in
      ap checkpoint_of whole
      ∙ ap (λ o. elim o [ none ↦ ok none | some op ↦ source_states_of op ])
          (get_last-drop r.start h (omega (arith, order, end)))

  load_checkpoint-history :
      (load_entry : PersistedLogEntry → Result Error (List (LogOperation R S)))
      (es : List PersistedLogEntry) (h : List (LogOperation R S))
      → All (IsLoadable load_entry h) es
      → length h ≡ last_end 0 es
      → load_checkpoint load_entry es ≡ checkpoint_of h
  load_checkpoint-history load_entry [] [] k size = refl
  load_checkpoint-history load_entry [] (x ∷ h) k size = absurd (omega (arith, size))
  load_checkpoint-history load_entry (e ∷ es) h k size =
      let (x, newest, (order, loads), end) = last_entry (IsLoadable load_entry h) 0 e es k in
      rw (newest, loads) (checkpoint_of-section h x.range order (end ∙ sym size))

  -- Where the entries can be loaded, the spurious ones can be deleted, no entry is empty, the
  -- entries end with the history `h` of operations, each can be loaded as its part of `h`, and `h` is
  -- empty or ends with a commit, the log is restored: it is valid over exactly the operations `h`,
  -- with nothing in memory, and the checkpoint is what the last operation of `h` committed.
  pub new-IsValid :
      (strip_prefix : String → Option (List ℕ))
      (delete_objects : List String → Result Error (Unit {0}))
      (load_entry : PersistedLogEntry → Result Error (List (LogOperation R S))) (prefix : String)
      (last_id : Option ℕ) (listing : Listing) (es : List PersistedLogEntry)
      (to_remove : List String) (h : List (LogOperation R S)) (checkpoint : Option S)
      → load_persisted_log_entries_impl strip_prefix last_id listing ≡ ok (es, to_remove)
      → delete_spurious delete_objects to_remove ≡ ok tt
      → All (IsLoadable load_entry h) es
      → length h ≡ last_end 0 es
      → checkpoint_of h ≡ ok checkpoint
      → Succeeds (new strip_prefix delete_objects load_entry prefix last_id listing) λ r.
        IsValid r.0 [] h
        × (r.0.persisted ≡ es)
        × (r.0.prefix ≡ prefix)
        × (r.0.in_memory.ops ≡ [])
        × (r.1 ≡ checkpoint)
  unfolding new load_persisted_and_remove_spurious_log_entries restored
  new-IsValid strip_prefix delete_objects load_entry prefix last_id listing es to_remove h
        checkpoint loaded deleted k size ends =
      (
        (restored prefix es, checkpoint),
        rw (loaded, deleted, load_checkpoint-history load_entry es h k size, ends) refl,
        (
          restored-IsValid prefix es h
              (load_persisted_log_entries_sound strip_prefix last_id listing _ loaded).0
              (All-map (λ e l. l.0) es k) size,
          refl,
          refl,
          refl,
          refl,
        ),
      )
