-- ===== src/Cache/Storage.antt =====
-- LMDB databases (the crate `lmdb`, an interface here) and the typed wrappers around them:
-- dozer-storage/src/lmdb_map.rs, lmdb_set.rs and lmdb_counter.rs. What can fail in the storage
-- itself (a full disk, a lost file) is not modelled: every call of the interface succeeds.
pub mod Laws
pub mod InMemory
use dozer.Common.{
  ℕ, suc, ◌+◌, ◌%◌, ◌^◌, ◌<◌, ◌≡◌, ◌≢◌, ◌↔◌, Bool, true, false, Option, none, some, if◌then◌else◌,
  List,
}

-- One database of a transaction: a map from keys to values, with the documented effect of `put` with
-- and without flags and of `del`. `same` compares keys, which LMDB does on their encodings.
pub record Database (K V : Type 0) : Type 1 where
  pub Db : Type 0
  pub same : K → K → Bool
  pub same_iff : (a b : K) → (same a b ≡ true) ↔ (a ≡ b)
  pub find : Db → K → Option V
  pub put : Db → K → V → Db
  pub del : Db → K → Db
  pub entries : Db → ℕ
  pub find-put :
      (db : Db) (k j : K) (v : V) → find (put db k v) j ≡ (if same k j then some v else find db j)
  pub find-del : (db : Db) (k j : K) → find (del db k) j ≡ (if same k j then none else find db j)
  pub entries-put :
      (db : Db) (k : K) (v : V)
      → entries (put db k v) ≡ elim (find db k) [ none ↦ suc (entries db) | some _ ↦ entries db ]
  pub entries-del :
      (db : Db) (k : K)
      → entries db
        ≡ elim (find db k) [ none ↦ entries (del db k) | some _ ↦ suc (entries (del db k)) ]

module _ {K V : Type 0} (d : Database K V) where
  open d use {Db, find, put, del, entries}

  unfoldable pub count : Db → ℕ
  count db = entries db

  unfoldable pub get : Db → K → Option V
  get db k = find db k

  -- `WriteFlags::NO_OVERWRITE`: returns whether the key was inserted.
  unfoldable pub insert : Db → K → V → Db × Bool
  insert db k v = elim (find db k) [ none ↦ (put db k v, true) | some _ ↦ (db, false) ]

  unfoldable pub insert_overwrite : Db → K → V → Db
  insert_overwrite db k v = put db k v

  -- Returns whether the key was removed.
  unfoldable pub remove : Db → K → Db × Bool
  remove db k = elim (find db k) [ none ↦ (db, false) | some _ ↦ (del db k, true) ]

-- `LmdbCounter`: an optional value that counts from zero.
abbrev pub Counter : Type 0
Counter = Option ℕ

abbrev pub load : Counter → ℕ
load none = 0
load (some n) = n

-- The old value and the new counter.
abbrev pub fetch_add : Counter → ℕ → ℕ × Counter
fetch_add c value = (load c, some ((load c + value) % 2 ^ 64))

-- A database that keeps several sorted values for a key, as `LmdbMultimap` uses it. `put_dup` and
-- `del_dup` also tell whether they changed anything.
pub record DupDatabase (K V : Type 0) : Type 1 where
  pub Db : Type 0
  pub dups : Db → K → List V
  pub put_dup : Db → K → V → Db × Bool
  pub del_dup : Db → K → V → Db × Bool
  pub entries : Db → ℕ
