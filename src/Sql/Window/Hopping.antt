-- ===== src/Sql/Window/Hopping.antt =====
-- The windows that a record falls into (dozer-sql/src/window/operator.rs).
use dozer.Common.{
  ℕ, zero, suc, ◌+◌, ◌-◌, ◌<◌, ◌≤◌, ◌≡◌, refl, ap, Bool, true, false, ◌||◌, some, List, [], ◌∷◌,
  length, All, ltb, ◌==◌, ok, Succeeds, arith,
}
use dozer.Sql.Window.Operator.{Clock, timestamp, other, Window, hop_loop, hop_windows}

-- The duration of a number of hops.
abbrev pub hops : ℕ → ℕ → ℕ
hops zero hop_size = 0
hops (suc n) hop_size = hop_size + hops n hop_size

hops_enough : (n hop_size : ℕ) → 0 < hop_size → n ≤ hops n hop_size
hops_enough zero hop_size h = omega arith
hops_enough (suc n) hop_size h = omega (arith, hops_enough n hop_size h)

module _ {F : Type 0} where
  abbrev windows : ℕ → ℕ → ℕ → ℕ → List (Window F)
  windows zero current hop_size interval = []
  windows (suc n) current hop_size interval =
      (timestamp current, timestamp (current + interval))
      ∷ windows n (current + hop_size) hop_size interval

  -- A window starts at the instant.
  abbrev starts : ℕ → Window F → Bool
  starts s (timestamp t, end) = s == t
  starts s (other f, end) = false

  abbrev pub has_start : ℕ → List (Window F) → Bool
  has_start s [] = false
  has_start s (w ∷ ws) = starts s w || has_start s ws

  -- The window has the interval's length, it starts a number of hops before `truncated`, and the
  -- instant lies in it.
  abbrev pub Covers : ℕ → ℕ → ℕ → ℕ → Window F → Type 0
  Covers instant truncated hop_size interval w =
      (s : ℕ) × (n : ℕ) × (w ≡ (timestamp s, timestamp (s + interval)))
      × (s + hops n hop_size ≡ truncated)
      × (s ≤ instant)
      × (instant < s + interval)

module _ (F : Type 0) where
  windows-Covers :
      (instant truncated n current hop_size interval : ℕ)
      → current + hops n hop_size ≡ truncated + hop_size
      → truncated ≤ instant
      → instant < current + interval
      → All
          (Covers instant truncated hop_size interval)
          (windows {F = F} n current hop_size interval)
  windows-Covers instant truncated zero current hop_size interval e low high = tt
  windows-Covers instant truncated (suc n) current hop_size interval e low high = (
    (current, n, refl, omega arith, omega arith, high),
    windows-Covers instant truncated n (current + hop_size) hop_size interval (omega arith) low
        (omega arith),
  )

  length-windows :
      (n current hop_size interval : ℕ) → length (windows {F = F} n current hop_size interval) ≡ n
  length-windows zero current hop_size interval = refl
  length-windows (suc n) current hop_size interval =
      ap suc (length-windows n (current + hop_size) hop_size interval)

  has_start-windows :
      (i n current s hop_size interval : ℕ)
      → i < n
      → s ≡ current + hops i hop_size
      → has_start s (windows {F = F} n current hop_size interval) ≡ true
  has_start-windows i zero current s hop_size interval h e = absurd (omega arith)
  has_start-windows zero (suc n) current s hop_size interval h e = ground arith
  has_start-windows (suc i) (suc n) current s hop_size interval h e = ground (
    arith,
    has_start-windows i n (current + hop_size) s hop_size interval (omega arith) (omega arith),
  )

hops_split :
    (j k hop_size : ℕ)
    → 0 < hop_size
    → hops j hop_size < hops (suc k) hop_size
    → (i : ℕ) × (hops i hop_size + hops j hop_size ≡ hops k hop_size) × (i < suc k)
hops_split zero k hop_size pos h = (k, omega arith, omega arith)
hops_split (suc j) zero hop_size pos h = absurd (omega arith)
hops_split (suc j) (suc k) hop_size pos h =
    let (i, e, l) = hops_split j k hop_size pos (omega arith) in (i, omega arith, omega arith)

module _ {F : Type 0} (clock : Clock) where
  open clock use {last_instant, duration_trunc}

  hop_loop-windows :
      (n fuel current limit hop_size interval : ℕ)
      → n < fuel
      → 0 < hop_size
      → limit ≡ current + hops n hop_size
      → limit + interval ≤ last_instant
      → hop_loop {F = F} clock fuel current limit hop_size interval
        ≡ ok (windows {F = F} n current hop_size interval)
  unfolding hop_loop
  hop_loop-windows n zero current limit hop_size interval enough pos e fits = absurd (omega arith)
  hop_loop-windows zero (suc fuel) current limit hop_size interval enough pos e fits =
      let stop : ltb current limit ≡ false = ground arith in rw stop refl
  hop_loop-windows (suc n) (suc fuel) current limit hop_size interval enough pos e fits =
      let going : ltb current limit ≡ true = ground arith in
      let room : ltb last_instant (current + interval) ≡ false = ground arith in
      let next : ltb last_instant (current + hop_size) ≡ false = ground arith in
      let later =
        hop_loop-windows n fuel (current + hop_size) limit hop_size interval (omega arith) pos
          (omega arith) fits in
      rw (going, room, next, later) refl

  -- Where hops last a nanosecond or more, the interval is a number of hops, and the instants between are
  -- representable, the loop ends, and the windows of an instant are as many as the interval has
  -- hops: every window covers the instant, and every window that covers it is among them.
  pub hop_windows-Covers :
      (instant truncated n hop_size : ℕ)
      → 0 < hop_size
      → duration_trunc instant hop_size ≡ some truncated
      → truncated ≤ instant
      → instant < truncated + hop_size
      → hops (suc n) hop_size ≤ truncated
      → truncated + hop_size + hops (suc n) hop_size ≤ last_instant
      → let interval = hops (suc n) hop_size in
        Succeeds (hop_windows {F = F} clock (timestamp instant) hop_size interval) (λ ws.
          (length ws ≡ suc n)
          × All (Covers instant truncated hop_size interval) ws
          × ((s j : ℕ)
              → s + hops j hop_size ≡ truncated
              → instant < s + interval
              → has_start s ws ≡ true))
  unfolding hop_windows
  hop_windows-Covers instant truncated n hop_size pos e low high early late =
      let interval = hops (suc n) hop_size in
      let start = truncated - interval + hop_size in
      let not_early : ltb truncated interval ≡ false = ground arith in
      let fits : ltb last_instant start ≡ false = ground arith in
      let limit : ltb last_instant (start + interval) ≡ false = ground arith in
      (
        windows (suc n) start hop_size interval,
        rw (e, not_early, fits, limit)
            (hop_loop-windows (suc n) (suc interval) start (start + interval) hop_size interval
              (omega (arith, hops_enough (suc n) hop_size pos)) pos refl (omega arith)),
        (
          length-windows F (suc n) start hop_size interval,
          windows-Covers F instant truncated (suc n) start hop_size interval (omega arith) low
              (omega arith),
          (λ s j before covers.
              let (i, split, few) = hops_split j n hop_size pos (omega arith) in
              has_start-windows F i (suc n) start s hop_size interval few (omega arith)),
        ),
      )
