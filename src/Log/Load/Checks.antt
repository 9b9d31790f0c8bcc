-- ===== src/Log/Load/Checks.antt =====
-- What a successful load guarantees (dozer-log/src/replication/persist.rs).
use dozer.Common.{
  Bool, not, ap, ◌∙◌, append-nil, append_assoc, ℕ, ◌≡◌, refl, sym, true, false, List, [], ◌∷◌, ◌++◌,
  arith, Option, none, some, String, All, All-append, ok, ok-injective, >>=-Succeeds, Bool-cases,
  inl, inr, subst, if◌then◌else◌,
}
use dozer.Log.Entry.{Range, PersistedLogEntry}
use dozer.Log.Name.{parse_log_entry_name}
use dozer.Log.Load.{
  Listing, last, more, failed, is_after, same_epoch, Loaded, or_unrecognized, load_object,
  load_page, load_listing, check_consecutive, check_first, last_epoch, check_loaded,
  load_persisted_log_entries_impl,
}

-- Each range starts where the one before it ended, the first at `a`.
abbrev pub Chained : ℕ → List PersistedLogEntry → Type 0
Chained a [] = Unit
Chained a (e ∷ es) = (e.range.start ≡ a) × Chained e.range.end es

-- The keys of all pages, in order.
abbrev pub listed : Listing → List String
listed (last keys) = keys
listed (more keys listing) = keys ++ listed listing
listed (failed e) = []

-- The keys that pass a test, in order.
abbrev pub filter_keys : (String → Bool) → List String → List String
filter_keys p [] = []
filter_keys p (k ∷ ks) = if p k then k ∷ filter_keys p ks else filter_keys p ks

filter_keys-append :
    (p : String → Bool) (xs ys : List String)
    → filter_keys p (xs ++ ys) ≡ filter_keys p xs ++ filter_keys p ys
filter_keys-append p [] ys = refl
filter_keys-append p (x ∷ xs) ys = elim (Bool-cases (p x)) [
  | inl t ↦ rw (t, filter_keys-append p xs ys) refl
  | inr f ↦ rw (f, filter_keys-append p xs ys) refl
]

abbrev pub keys_of : List PersistedLogEntry → List String
keys_of [] = []
keys_of (e ∷ es) = e.key ∷ keys_of es

keys_of-append :
    (es : List PersistedLogEntry) (e : PersistedLogEntry)
    → keys_of (es ++ e ∷ []) ≡ keys_of es ++ e.key ∷ []
keys_of-append [] e = refl
keys_of-append (x ∷ es) e = ap (λ r. x.key ∷ r) (keys_of-append es e)

check_consecutive-Chained :
    (e : PersistedLogEntry) (es : List PersistedLogEntry)
    → check_consecutive (e ∷ es) ≡ ok tt
    → Chained e.range.start (e ∷ es)
unfolding check_consecutive
check_consecutive-Chained e [] h = (refl, tt)
check_consecutive-Chained e (f ∷ es) h =
    let (link, rest) = parts in (refl, (link, (check_consecutive-Chained f es rest).1))
  where
    parts : (f.range.start ≡ e.range.end) × (check_consecutive (f ∷ es) ≡ ok tt)
    parts = ground (arith, h)

same_epoch-eq : (a b : Option ℕ) → same_epoch a b ≡ true → a ≡ b
same_epoch-eq none none h = refl
same_epoch-eq (some a) (some b) h = ground (arith, h)
same_epoch-eq none (some b) h = cc
same_epoch-eq (some a) none h = cc

check_loaded-parts :
    (last_id : Option ℕ) (es : List PersistedLogEntry) (rm : List String) (out : Loaded)
    → check_loaded last_id (es, rm) ≡ ok out
    → (out ≡ (es, rm))
      × (same_epoch (last_epoch es) last_id ≡ true)
      × (check_first es ≡ ok tt)
      × (check_consecutive es ≡ ok tt)
unfolding check_loaded
check_loaded-parts last_id [] rm out h = ground (arith, h)
check_loaded-parts last_id (e ∷ es) rm out h = ground (arith, h)

checks-Chained :
    (es : List PersistedLogEntry)
    → check_first es ≡ ok tt
    → check_consecutive es ≡ ok tt
    → Chained 0 es
checks-Chained [] h k = tt
checks-Chained (e ∷ es) h k = (ground (arith, h), (check_consecutive-Chained e es k).1)

check_loaded-Chained :
    (last_id : Option ℕ) (acc out : Loaded)
    → check_loaded last_id acc ≡ ok out
    → (out ≡ acc) × Chained 0 out.0 × (last_epoch out.0 ≡ last_id)
check_loaded-Chained last_id (es, rm) out h =
    let (same, epoch, first, links) = check_loaded-parts last_id es rm out h in
    (
      same,
      subst (λ (x : Loaded). Chained 0 x.0) (sym same) (checks-Chained es first links),
      subst (λ (x : Loaded). last_epoch x.0 ≡ last_id) (sym same) (same_epoch-eq _ _ epoch),
    )

module _ (strip_prefix : String → Option (List ℕ)) (last_id : Option ℕ) where
  -- A kept entry is what its key says, and its epoch is not after the last one.
  abbrev pub IsKept : PersistedLogEntry → Type 0
  IsKept e =
      (name : List ℕ) × (strip_prefix e.key ≡ some name)
      × (parse_log_entry_name name ≡ some (e.epoch_id, e.range))
      × (is_after e.epoch_id last_id ≡ false)

  -- A removed key names an entry of a later epoch.
  abbrev pub IsSpurious : String → Type 0
  IsSpurious key =
      (name : List ℕ) × (parsed : ℕ × Range) × (strip_prefix key ≡ some name)
      × (parse_log_entry_name name ≡ some parsed)
      × (is_after parsed.0 last_id ≡ true)

  abbrev pub parsed_is_late : Option (ℕ × Range) → Bool
  parsed_is_late none = false
  parsed_is_late (some parsed) = is_after parsed.0 last_id

  abbrev pub name_is_late : Option (List ℕ) → Bool
  name_is_late none = false
  name_is_late (some name) = parsed_is_late (parse_log_entry_name name)

  -- The key has the name of an epoch after the last one.
  abbrev pub is_late : String → Bool
  is_late key = name_is_late (strip_prefix key)

  is_late-key :
      (key : String) (name : List ℕ) (parsed : ℕ × Range)
      → strip_prefix key ≡ some name
      → parse_log_entry_name name ≡ some parsed
      → is_late key ≡ is_after parsed.0 last_id
  is_late-key key name parsed stripped read = rw (stripped, read) refl

  abbrev pub is_early : String → Bool
  is_early key = not (is_late key)

  abbrev Sorted : Loaded → Type 0
  Sorted acc = All IsKept acc.0 × All IsSpurious acc.1

  or_unrecognized-ok :
      {A : Type 0} (key : String) (o : Option A) {a : A} → or_unrecognized key o ≡ ok a → o ≡ some a
  or_unrecognized-ok key none h = cc
  or_unrecognized-ok key (some b) h = cc

  place : Loaded → String → ℕ × Range → Loaded
  place (es, rm) key parsed =
      if is_after parsed.0 last_id
      then (es, rm ++ key ∷ [])
      else (es ++ record { key = key; epoch_id = parsed.0; range = parsed.1 } ∷ [], rm)

  place-Sorted :
      (acc : Loaded) (key : String) (name : List ℕ) (parsed : ℕ × Range)
      → strip_prefix key ≡ some name
      → parse_log_entry_name name ≡ some parsed
      → Sorted acc
      → Sorted (place acc key parsed)
        × (keys_of (place acc key parsed).0 ≡ keys_of acc.0 ++ filter_keys is_early (key ∷ []))
        × ((place acc key parsed).1 ≡ acc.1 ++ filter_keys is_late (key ∷ []))
  unfolding place
  place-Sorted (es, rm) key name parsed stripped read (k, r) =
      elim (Bool-cases (is_after parsed.0 last_id)) [
        | inl late ↦
            rw (late, is_late-key key name parsed stripped read ∙ late)
              (
                (k, All-append IsSpurious rm _ r ((name, parsed, stripped, read, late), tt)),
                sym (append-nil (keys_of es)),
                refl,
              )
        | inr early ↦
            rw (early, is_late-key key name parsed stripped read ∙ early)
              (
                (All-append IsKept es _ k ((name, stripped, read, early), tt), r),
                keys_of-append es _,
                sym (append-nil rm),
              )
      ]

  load_object-place :
      (acc : Loaded) (key : String) (out : Loaded)
      → load_object strip_prefix last_id acc key ≡ ok out
      → (name : List ℕ) × (parsed : ℕ × Range) × (strip_prefix key ≡ some name)
        × (parse_log_entry_name name ≡ some parsed)
        × (out ≡ place acc key parsed)
  unfolding load_object place
  load_object-place (es, rm) key out h =
      let (name, en, h1) = >>=-Succeeds (or_unrecognized key (strip_prefix key)) _ h in
      let (parsed, ep, h2) = >>=-Succeeds (or_unrecognized key (parse_log_entry_name name)) _ h1 in
      (
        name,
        parsed,
        or_unrecognized-ok key _ en,
        or_unrecognized-ok key _ ep,
        ok-injective (sym h2),
      )

  abbrev Grows : Loaded → List String → Loaded → Type 0
  Grows acc keys out =
      Sorted out
      × (keys_of out.0 ≡ keys_of acc.0 ++ filter_keys is_early keys)
      × (out.1 ≡ acc.1 ++ filter_keys is_late keys)

  Grows-append :
      (acc next out : Loaded) (xs ys : List String)
      → Grows acc xs next
      → Grows next ys out
      → Grows acc (xs ++ ys) out
  Grows-append acc next out xs ys (s, kept, late) (s', kept', late') = (
    s',
    kept'
        ∙ ap (λ r. r ++ filter_keys is_early ys) kept
        ∙ append_assoc (keys_of acc.0) _ _
        ∙ ap (λ r. keys_of acc.0 ++ r) (sym (filter_keys-append is_early xs ys)),
    late'
        ∙ ap (λ r. r ++ filter_keys is_late ys) late
        ∙ append_assoc acc.1 _ _
        ∙ ap (λ r. acc.1 ++ r) (sym (filter_keys-append is_late xs ys)),
  )

  load_page-Sorted :
      (acc : Loaded) (keys : List String) (out : Loaded)
      → load_page strip_prefix last_id acc keys ≡ ok out
      → Sorted acc
      → Grows acc keys out
  unfolding load_page
  load_page-Sorted acc [] out h s =
      subst (Grows acc []) (ok-injective h)
        (s, sym (append-nil (keys_of acc.0)), sym (append-nil acc.1))
  load_page-Sorted acc (key ∷ keys) out h s =
      let (next, e, h') = >>=-Succeeds (load_object strip_prefix last_id acc key) _ h in
      let (name, parsed, stripped, read, placed) = load_object-place acc key next e in
      let one : Grows acc (key ∷ []) next =
        subst (Grows acc (key ∷ [])) (sym placed)
          (place-Sorted acc key name parsed stripped read s) in
      Grows-append acc next out (key ∷ []) keys one (load_page-Sorted next keys out h' one.0)

  load_listing-Sorted :
      (acc : Loaded) (listing : Listing) (out : Loaded)
      → load_listing strip_prefix last_id acc listing ≡ ok out
      → Sorted acc
      → Grows acc (listed listing) out
  unfolding load_listing
  load_listing-Sorted acc (last keys) out h s = load_page-Sorted acc keys out h s
  load_listing-Sorted acc (failed e) out h s = cc
  load_listing-Sorted acc (more keys listing) out h s =
      let (next, e, h') = >>=-Succeeds (load_page strip_prefix last_id acc keys) _ h in
      let page = load_page-Sorted acc keys next e s in
      Grows-append acc next out keys (listed listing) page
        (load_listing-Sorted next listing out h' page.0)

  -- A load that succeeds returns entries that follow one another from zero, each of them what its
  -- key says and of no epoch after the last one, which is the epoch of the last entry. The keys to
  -- remove are those of later epochs. The kept entries have exactly the listed keys that are not of
  -- a later epoch, and the keys to remove are exactly the others, both in the order of the listing.
  pub load_persisted_log_entries_sound :
      (listing : Listing) (out : Loaded)
      → load_persisted_log_entries_impl strip_prefix last_id listing ≡ ok out
      → Chained 0 out.0
        × (last_epoch out.0 ≡ last_id)
        × All IsKept out.0
        × All IsSpurious out.1
        × (keys_of out.0 ≡ filter_keys is_early (listed listing))
        × (out.1 ≡ filter_keys is_late (listed listing))
  unfolding load_persisted_log_entries_impl
  load_persisted_log_entries_sound listing out h =
      let (acc, e, h') = >>=-Succeeds (load_listing strip_prefix last_id ([], []) listing) _ h in
      let ((kept, spurious), early, late) = load_listing-Sorted ([], []) listing acc e (tt, tt) in
      let (same, chain, epoch) = check_loaded-Chained last_id acc out h' in
      (
        chain,
        epoch,
        subst (λ (x : Loaded). All IsKept x.0) (sym same) kept,
        subst (λ (x : Loaded). All IsSpurious x.1) (sym same) spurious,
        ap (λ (x : Loaded). keys_of x.0) same ∙ early,
        ap (λ (x : Loaded). x.1) same ∙ late,
      )
