-- ===== src/Executor/Alignment.antt =====
-- Epochs are aligned across the ports of a node (dozer-core/src/executor/receiver_loop.rs).
use dozer.Common.{
  ℕ, ◌+◌, ◌%◌, ◌^◌, ◌<◌, ◌≡◌, ◌≢◌, refl, sym, ◌∙◌, subst, ap, Bool, true, false, Option, none, some,
  List, length, get_elem?, set, replicate, all, ◌==◌, arith, ok, Bool-cases, inl, inr, ok-injective,
  length-replicate,
}
use dozer.Executor.Marks.{
  get-replicate, count-replicate, length-set, count-set, get-set_ne, set-known, get-some,
  get-lt-length, count-rest, count,
}
use dozer.Executor.ReceiverLoop.{
  Loop, ExecutorOperation, op, commit, terminate, snapshotting_started, snapshotting_done, Call,
  on_commit, on_terminate, Epoch, terminated, is_terminated, handle,
}
use dozer.Executor.System.{
  System, Step, receives, mark, restart, Reach, here, next, IsAligned, initial, initial-IsAligned,
}

module _ (n : ℕ) (s : System) (v : IsAligned n s) (i : ℕ)
    (ready : get_elem? s.loop.sel i ≡ some true) where
  has_not_committed : get_elem? s.committed i ≡ some false
  has_not_committed =
      let (b, e) =
        get-some s.committed i
          (omega (arith, get-lt-length s.loop.sel i true ready, v.selected, v.marks)) in
      elim (Bool-cases b) [
        | inl t ↦ absurd (let stopped = v.waits i (e ∙ ap some t) in cc)
        | inr f ↦ e ∙ ap some f
      ]

  waits_after_set :
      (bs : List Bool)
      → ((j : ℕ) → i ≢ j → get_elem? bs j ≡ some true → get_elem? s.committed j ≡ some true)
      → (j : ℕ) → get_elem? bs j ≡ some true
      → get_elem? (set s.loop.sel i false) j ≡ some false
  waits_after_set bs old j e = elim (Bool-cases (i == j)) [
    | inl t ↦
        let same : i ≡ j = ground (arith, t) in
        subst (λ k. get_elem? (set s.loop.sel i false) k ≡ some false) same
          (set-known s.loop.sel i false true ready)
    | inr f ↦
        let ne : i ≢ j = λ q. ground (arith, f, q) in
        get-set_ne s.loop.sel i j false ne ∙ v.waits j (old j ne e)
  ]

  abbrev fresh : ℕ → Loop
  fresh epoch_id = record {
    port_states = s.loop.port_states;
    commits_received = 0;
    epoch_id = epoch_id;
    sel = replicate (length s.loop.port_states) true;
  }

  fresh-IsAligned :
      (epoch_id : ℕ)
      → IsAligned n (record {
        loop = fresh epoch_id;
        committed = replicate (length (set s.committed i true)) false;
      })
  fresh-IsAligned epoch_id = record {
    ports = v.ports;
    selected = length-replicate _ _ ∙ v.ports;
    marks = length-replicate _ _ ∙ length-set s.committed i true ∙ v.marks;
    waits = λ j e. absurd (let same = get-replicate _ j false true e in cc);
    counted = sym (count-replicate _);
  }

  terminated-IsAligned : IsAligned n (record {
    loop = record s.loop {
      port_states = set s.loop.port_states i terminated;
      sel = set s.loop.sel i false;
    };
    committed = s.committed;
  })
  terminated-IsAligned = record {
    ports = length-set s.loop.port_states i terminated ∙ v.ports;
    selected = length-set s.loop.sel i false ∙ v.selected;
    marks = v.marks;
    waits = waits_after_set s.committed (λ j ne e. e);
    counted = v.counted;
  }

  committed-IsAligned : IsAligned n (record {
    loop = record s.loop {
      commits_received = s.loop.commits_received + 1;
      sel = set s.loop.sel i false;
    };
    committed = set s.committed i true;
  })
  committed-IsAligned = record {
    ports = v.ports;
    selected = length-set s.loop.sel i false ∙ v.selected;
    marks = length-set s.committed i true ∙ v.marks;
    waits =
        waits_after_set (set s.committed i true)
          (λ j ne e. sym (get-set_ne s.committed i j true ne) ∙ e);
    counted = omega (arith, v.counted, count-set s.committed i has_not_committed);
  }

  restart-last :
      s.loop.commits_received + 1 ≡ length s.loop.port_states
      → restart (set s.committed i true) ≡ replicate (length (set s.committed i true)) false
  restart-last full =
      let marked = count-set s.committed i has_not_committed in
      let all_ports : count (set s.committed i true) ≡ length (set s.committed i true) =
        omega (arith, marked, length-set s.committed i true, full, v.counted, v.ports, v.marks) in
      ground (arith, all_ports)

  restart-earlier :
      s.loop.commits_received + 1 ≢ length s.loop.port_states
      → restart (set s.committed i true) ≡ set s.committed i true
  restart-earlier more =
      let marked = count-set s.committed i has_not_committed in
      let some_port : count (set s.committed i true) ≢ length (set s.committed i true) = λ e.
        more
          (omega (arith, e, marked, length-set s.committed i true, v.counted, v.ports, v.marks)) in
      ground (arith, some_port)

  module _ {R : Type 0} where
    abbrev Keeps : ExecutorOperation R → Option (Call R) × Option Loop → Type 0
    Keeps o (c, none) = Unit {0}
    Keeps o (c, some l) = IsAligned n (record { loop = l; committed = mark i o s.committed })

    keeps :
        (o : ExecutorOperation R) (out out' : Option (Call R) × Option Loop)
        → handle i o s.loop ≡ ok out
        → Keeps o out
        → handle i o s.loop ≡ ok out'
        → Keeps o out'
    keeps o out out' e k e' = subst (Keeps o) (ok-injective (sym e ∙ e')) k

    handle-Keeps :
        (o : ExecutorOperation R) (out : Option (Call R) × Option Loop)
        → handle i o s.loop ≡ ok out
        → Keeps o out
    unfolding handle
    handle-Keeps (op x) out e = keeps (op x) _ out refl v e
    handle-Keeps (snapshotting_started x) out e = keeps (snapshotting_started x) _ out refl v e
    handle-Keeps (snapshotting_done x y) out e = keeps (snapshotting_done x y) _ out refl v e
    handle-Keeps terminate out e =
        elim (Bool-cases (all is_terminated (set s.loop.port_states i terminated))) [
          | inl t ↦ keeps terminate (some on_terminate, none) out (ground (arith, t)) tt e
          | inr f ↦
              keeps terminate
                (
                  none,
                  some (record s.loop {
                    port_states = set s.loop.port_states i terminated;
                    sel = set s.loop.sel i false;
                  }),
                )
                out (ground (arith, f)) terminated-IsAligned e
        ]
    handle-Keeps (commit ep) out e = elim (Bool-cases (ep.common_info.id == s.loop.epoch_id)) [
      | inr f ↦ absurd (ground (arith, f, e))
      | inl t ↦ elim (Bool-cases (s.loop.commits_received + 1 == length s.loop.port_states)) [
        | inl full ↦
            keeps (commit ep) (some (on_commit ep), some (fresh ((s.loop.epoch_id + 1) % 2 ^ 64)))
              out (ground (arith, t, full))
              (subst
                (λ bs.
                  IsAligned n
                    (record { loop = fresh ((s.loop.epoch_id + 1) % 2 ^ 64); committed = bs }))
                (sym (restart-last (ground (arith, full)))) (fresh-IsAligned _))
              e
        | inr more ↦
            keeps (commit ep)
              (
                none,
                some (record s.loop {
                  commits_received = s.loop.commits_received + 1;
                  sel = set s.loop.sel i false;
                }),
              )
              out (ground (arith, t, more))
              (subst
                (λ bs. IsAligned n (record {
                  loop = record s.loop {
                    commits_received = s.loop.commits_received + 1;
                    sel = set s.loop.sel i false;
                  };
                  committed = bs;
                }))
                (sym (restart-earlier (λ q. ground (arith, more, q)))) committed-IsAligned)
              e
      ]
    ]

    -- In an aligned state, where the loop calls `on_commit` on receiving from a selected port, it
    -- has just received the commit of the current epoch, and every other port has committed that
    -- epoch before.
    pub handle-on_commit :
        (o : ExecutorOperation R) (e : Epoch) (rest : Option Loop)
        → handle i o s.loop ≡ ok (some (on_commit e), rest)
        → (o ≡ commit e)
          × (e.common_info.id ≡ s.loop.epoch_id)
          × ((j : ℕ) → j < n → i ≢ j → get_elem? s.committed j ≡ some true)
    unfolding handle
    handle-on_commit (op x) e rest h = absurd (cc)
    handle-on_commit (snapshotting_started x) e rest h = absurd (cc)
    handle-on_commit (snapshotting_done x y) e rest h = absurd (cc)
    handle-on_commit terminate e rest h = absurd (ground (arith, h))
    handle-on_commit (commit ep) e rest h =
        let (id, (full, same)) : (ep.common_info.id ≡ s.loop.epoch_id)
            × ((s.loop.commits_received + 1 ≡ length s.loop.port_states) × (ep ≡ e)) =
          ground (arith, h) in
        (
          ap commit same,
          ap (λ (x : Epoch). x.common_info.id) (sym same) ∙ id,
          (λ j below ne.
              count-rest s.committed i j has_not_committed
                (omega (arith, full, v.counted, v.ports, v.marks)) ne
                (omega (arith, below, v.marks))),
        )

-- Every step of the loop from an aligned state leads to an aligned state: a port that has
-- committed the current epoch is not selected, and the count of commits is the number of those
-- ports.
pub Step-IsAligned :
    {R : Type 0} (n : ℕ) {s t : System} {c : Option (Call R)}
    → IsAligned n s
    → Step s c t
    → IsAligned n t
Step-IsAligned n {s} v (receives i o c l ready h) = handle-Keeps n s v i ready o (c, some l) h

-- However operations arrive at a node, a port from which the commit of the current epoch has been
-- received is not selected before that commit has been received from all ports, and the loop's
-- count is the number of those ports.
pub Reach-IsAligned :
    {R : Type 0} (n epoch_id : ℕ) {t : System} → Reach R (initial n epoch_id) t → IsAligned n t
Reach-IsAligned n epoch_id here = initial-IsAligned n epoch_id
Reach-IsAligned n epoch_id (next r step) = Step-IsAligned n (Reach-IsAligned n epoch_id r) step
