-- ===== src/Log/Slices.antt =====
-- What is read from the memory is what was written to the log, and a part of the memory that is in
-- range can be copied without a panic.
use mathlib.Core.List.{Memᴰ}
use dozer.Common.{
  ℕ, ◌+◌, ◌-◌, ◌≤◌, ◌<◌, ◌≡◌, refl, ap, Bool, true, false, List, [], ◌∷◌, arith, length, drop,
  length-drop, length-take, drop-drop, min, ok, Succeeds, Bool-cases, inl, inr, All, All-map, ◌⊎◌,
  ◌≢◌, ◌++◌, ◌∙◌, ◌==◌,
}
use dozer.Log.Entry.{Range}
use dozer.Log.Memory
use dozer.Log.Memory.{InMemoryLog, clone_range, section_of}
use dozer.Log.Watch.{Watcher, Sent, trigger_watcher, retain_watchers, expire_watcher}

-- The memory holds the end of all the operations `h` that were ever written.
pub record IsSuffix {A : Type 0} (m : InMemoryLog A) (h : List A) : Type 0 where
  pub ops : m.ops ≡ drop m.start h
  pub size : Memory.end m ≡ length h

-- A message carries operations that its watcher asked for, from the start of the request on.
abbrev pub Answers : {A : Type 0} → List A → List Watcher → Sent A → Type 0
Answers h ws s =
    (w : Watcher) × Memᴰ w ws
    × (s.to ≡ w.id)
    × (s.ops ≡ section_of h w.request)
    × (0 < length s.ops)

module _ {A : Type 0} (m : InMemoryLog A) (h : List A) where
  -- What becomes of a watcher: one that passes the test is answered, and the others are kept.
  abbrev pub Settled : (Watcher → Bool) → List Watcher × List (Sent A) → Watcher → Type 0
  Settled test r w =
      ((test w ≡ true) × Memᴰ (record { to = w.id; ops = section_of h w.request }) r.1)
      ⊎ ((test w ≡ false) × Memᴰ w r.0)

  -- What a timeout does to the first watcher with the id, if there is one: it is answered if the first
  -- operation that it asked for is in memory, and it is marked otherwise. The others are kept.
  abbrev pub Expired : ℕ → List Watcher → List Watcher × List (Sent A) → Type 0
  Expired id ws r =
      (All (λ w. w.id ≢ id) ws × (r.0 ≡ ws) × (r.1 ≡ []))
      ⊎ ((before : List Watcher) × (w : Watcher) × (after : List Watcher) × (ws
            ≡ before ++ w ∷ after)
          × All (λ x. x.id ≢ id) before
          × (w.id ≡ id)
          × (((w.request.start < Memory.end m)
                × (r.0 ≡ before ++ after)
                × (r.1 ≡ record { to = w.id; ops = section_of h w.request } ∷ []))
              ⊎ ((Memory.end m ≤ w.request.start)
                  × (r.0 ≡ before ++ record w { timeout = true } ∷ after)
                  × (r.1 ≡ []))))

  Expired-cons :
      (id : ℕ) (x : Watcher) (ws : List Watcher) (r : List Watcher × List (Sent A))
      → x.id ≢ id
      → Expired id ws r
      → Expired id (x ∷ ws) (x ∷ r.0, r.1)
  Expired-cons id x ws r ne (inl (others, kept, none_sent)) =
      inl ((ne, others), ap (λ l. x ∷ l) kept, none_sent)
  Expired-cons id x ws r ne (inr (before, w, after, parts, others, same, outcome)) = inr (
    x ∷ before,
    w,
    after,
    ap (λ l. x ∷ l) parts,
    (ne, others),
    same,
    elim outcome [
      | inl (there, kept, sent) ↦ inl (there, ap (λ l. x ∷ l) kept, sent)
      | inr (away, kept, sent) ↦ inr (away, ap (λ l. x ∷ l) kept, sent)
    ],
  )

module _ {A : Type 0} (m : InMemoryLog A) (h : List A) (suffix : IsSuffix m h) where
  pub clone_range-section :
      (r : Range)
      → m.start ≤ r.start
      → r.start ≤ r.end
      → r.end ≤ Memory.end m
      → clone_range m r ≡ ok (section_of h r)
  unfolding clone_range
  clone_range-section r low order high =
      let sub : r.start - m.start + m.start ≡ r.start = omega arith in
      let parts : drop (r.start - m.start) m.ops ≡ drop r.start h =
        ap (drop (r.start - m.start)) suffix.ops ∙ drop-drop _ _ _ h sub in
      let count : r.end - m.start - (r.start - m.start) ≡ min r.end (length h) - r.start =
        omega (arith, suffix.size) in
      ground (arith, parts, count)

  pub length-section_of : (r : Range) → r.end ≤ length h → length (section_of h r) ≡ r.end - r.start
  length-section_of r high = omega (
    arith,
    length-take {0} (min r.end (length h) - r.start) (drop r.start h),
    length-drop {0} r.start h,
  )

  section_of-nonempty :
      (r : Range) → r.start < r.end → r.start < Memory.end m → 0 < length (section_of h r)
  section_of-nonempty r order inside = omega (
    arith,
    suffix.size,
    length-take {0} (min r.end (length h) - r.start) (drop r.start h),
    length-drop {0} r.start h,
  )

  -- A watcher whose first operation is there is answered with what it asked for.
  pub trigger_watcher-section :
      (w : Watcher)
      → w.sender ≡ true
      → m.start ≤ w.request.start
      → w.request.start < w.request.end
      → w.request.start < Memory.end m
      → (trigger_watcher w m ≡ ok (record { to = w.id; ops = section_of h w.request }))
        × (0 < length (section_of h w.request))
  unfolding trigger_watcher
  trigger_watcher-section w alive low order inside =
      let cut : Range = record w.request { end = min w.request.end (Memory.end m) } in
      let copied : clone_range m cut ≡ ok (section_of h cut) =
        clone_range-section cut low (omega arith) (omega arith) in
      let same : min cut.end (length h) - cut.start
          ≡ min w.request.end (length h) - w.request.start =
        omega (arith, suffix.size) in
      (rw (alive, copied, same) refl, section_of-nonempty w.request order inside)

  -- What a watcher must satisfy to be handled without a panic: those that pass the test can be
  -- answered, and the others keep what `Q` says.
  abbrev Handled : (Watcher → Bool) → (Watcher → Type 0) → Watcher → Type 0
  Handled test Q w =
      (w.sender ≡ true)
      × (m.start ≤ w.request.start)
      × (w.request.start < w.request.end)
      × (test w ≡ true → w.request.start < Memory.end m)
      × (test w ≡ false → Q w)

  pub retain_watchers_lem :
      (test : Watcher → Bool) (Q : Watcher → Type 0) (ws : List Watcher)
      → All (Handled test Q) ws
      → Succeeds (retain_watchers test m ws) λ r.
        All Q r.0
        × All (Answers h ws) r.1
        × (length r.0 + length r.1 ≡ length ws)
        × All (Settled m h test r) ws
  unfolding retain_watchers
  retain_watchers_lem test Q [] k = (([], []), refl, (tt, tt, omega arith, tt))
  retain_watchers_lem test Q (w ∷ ws) (a, k) =
      let (r, e, (kept, sent, size, settled)) = retain_watchers_lem test Q ws k in
      let later : All (Answers h (w ∷ ws)) r.1 =
        All-map (λ s b. (b.0, Memᴰ.tail b.1, b.2, b.3, b.4)) r.1 sent in
      elim (Bool-cases (test w)) [
        | inl t ↦
            let (fired, some_ops) = trigger_watcher-section w a.0 a.1 a.2 (a.3 t) in
            (
              (r.0, record { to = w.id; ops = section_of h w.request } ∷ r.1),
              rw (t, fired, e) refl,
              (
                kept,
                ((w, Memᴰ.head refl, refl, refl, some_ops), later),
                omega arith,
                (
                  inl (t, Memᴰ.head refl),
                  All-map
                      (λ x o. elim o [
                        | inl (yes_test, sent_to) ↦ inl (yes_test, Memᴰ.tail sent_to)
                        | inr stays ↦ inr stays
                      ])
                      ws settled,
                ),
              ),
            )
        | inr f ↦ (
          (w ∷ r.0, r.1),
          rw (f, e) refl,
          (
            (a.4 f, kept),
            later,
            omega arith,
            (
              inr (f, Memᴰ.head refl),
              All-map
                  (λ x o. elim o [
                    | inl answered ↦ inl answered
                    | inr (no_test, stays) ↦ inr (no_test, Memᴰ.tail stays)
                  ])
                  ws settled,
            ),
          ),
        )
      ]

  pub expire_watcher_lem :
      (id : ℕ) (Q : Watcher → Type 0) (ws : List Watcher)
      → All Q ws
      → ((w : Watcher)
          → Q w
          → (w.sender ≡ true)
            × (m.start ≤ w.request.start)
            × (w.request.start < w.request.end)
            × Q (record w { timeout = true }))
      → Succeeds
          (expire_watcher id m ws)
          λ r. All Q r.0 × All (Answers h ws) r.1 × Expired m h id ws r
  unfolding expire_watcher
  expire_watcher_lem id Q [] k keep = (([], []), refl, (tt, tt, inl (tt, refl, refl)))
  expire_watcher_lem id Q (w ∷ ws) (q, k) keep =
      let (r, e, (kept, sent, expired)) = expire_watcher_lem id Q ws k keep in
      let (alive, low, order, marked) = keep w q in
      let later : All (Answers h (w ∷ ws)) r.1 =
        All-map (λ s b. (b.0, Memᴰ.tail b.1, b.2, b.3, b.4)) r.1 sent in
      elim (Bool-cases (w.id == id)) [
        | inl t ↦ elim (Bool-cases (Memory.contains m w.request.start)) [
          | inl there ↦
              let (fired, some_ops) =
                trigger_watcher-section w alive low order (ground (arith, there)) in
              (
                (ws, record { to = w.id; ops = section_of h w.request } ∷ []),
                rw (t, there, fired) refl,
                (
                  k,
                  ((w, Memᴰ.head refl, refl, refl, some_ops), tt),
                  inr (
                    [],
                    w,
                    ws,
                    refl,
                    tt,
                    ground (arith, t),
                    inl (ground (arith, there), refl, refl),
                  ),
                ),
              )
          | inr away ↦ (
            (record w { timeout = true } ∷ ws, []),
            rw (t, away) refl,
            (
              (marked, k),
              tt,
              inr (
                [],
                w,
                ws,
                refl,
                tt,
                ground (arith, t),
                inr (ground (arith, away, low), refl, refl),
              ),
            ),
          )
        ]
        | inr f ↦ (
          (w ∷ r.0, r.1),
          rw (f, e) refl,
          ((q, kept), later, Expired-cons m h id w ws r (λ q. ground (arith, f, q)) expired),
        )
      ]
