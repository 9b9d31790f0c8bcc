-- ===== src/Sql/Join/Contents.antt =====
-- What a join promises (dozer-sql/src/product/join/operator/mod.rs): the rows of the join of two
-- tables, as the sum of a measure of their values, and how it changes with a row of either table.
use dozer.Common.{
  ℕ, ◌+◌, ◌≡◌, sym, ap, ◌∙◌, fun_ext, List, [], ◌∷◌, ◌++◌, ◌==◌, arith, if◌then◌else◌, Bool-cases,
  inl, inr,
}
use dozer.Sql.Join.Kinds.{JoinType}
use dozer.Sql.Join.HashMap.{sum, other_way}
use dozer.Sql.Join.Table.{Platform, Record, RecordKey, same_key, JoinMap}
use dozer.Sql.Join.Operator.{JoinOperator}
use dozer.Sql.Join.Measures.{weigh, total, at_key, same_key_iff}

module _ (platform : Platform) where
  open platform use {Field}

  -- The pairs of rows with the same join key.
  abbrev pub pairs :
      (Record platform → Record platform → ℕ) → JoinMap platform → JoinMap platform → ℕ
  pairs g own other = total platform (λ k r. total platform (at_key platform k (g r)) other) own

  -- How many rows have the join key.
  abbrev pub count : RecordKey platform → JoinMap platform → ℕ
  count k m = total platform (at_key platform k (λ r. 1)) m

  -- The rows for whose join key the other table has no row.
  abbrev pub unmatched : (Record platform → ℕ) → JoinMap platform → JoinMap platform → ℕ
  unmatched d own other = total platform (λ k r. if count k other == 0 then d r else 0) own

  abbrev pub defaults : JoinType → (List Field → ℕ) → JoinOperator platform → ℕ
  defaults JoinType.inner w op = 0
  defaults JoinType.left_outer w op =
      unmatched (λ l. w (l.values ++ op.right.default_record.values)) op.left.map op.right.map
  defaults JoinType.right_outer w op =
      unmatched (λ r. w (op.left.default_record.values ++ r.values)) op.right.map op.left.map

  -- The rows of the join of the two tables; an outer join has the unmatched rows as well, with the
  -- other table's default row.
  unfoldable pub contents : (List Field → ℕ) → JoinOperator platform → ℕ
  contents w op =
      pairs (λ l r. w (l.values ++ r.values)) op.left.map op.right.map + defaults op.join_type w op

  -- A map has one row more than another.
  abbrev pub Adds :
      RecordKey platform → Record platform → JoinMap platform → JoinMap platform → Type 0
  Adds k r small big =
      (f : RecordKey platform → Record platform → ℕ)
      → total platform f big ≡ f k r + total platform f small

  weigh-add :
      (g h : Record platform → ℕ) (rs : List (Record platform))
      → weigh (λ r. g r + h r) rs ≡ weigh g rs + weigh h rs
  weigh-add g h [] = omega arith
  weigh-add g h (r ∷ rs) = omega (arith, weigh-add g h rs)

  sum-add :
      (g h : Record platform → ℕ) (inner : List (ℕ × List (Record platform)))
      → sum (λ p rs. weigh (λ r. g r + h r) rs) inner
        ≡ sum (λ p rs. weigh g rs) inner + sum (λ p rs. weigh h rs) inner
  sum-add g h [] = omega arith
  sum-add g h ((p, rs) ∷ inner) = omega (arith, weigh-add g h rs, sum-add g h inner)

  total-add :
      (f g : RecordKey platform → Record platform → ℕ) (m : JoinMap platform)
      → total platform (λ k r. f k r + g k r) m ≡ total platform f m + total platform g m
  total-add f g [] = omega arith
  total-add f g ((k, inner) ∷ m) = omega (arith, sum-add (f k) (g k) inner, total-add f g m)

  total_alike :
      (f g : RecordKey platform → Record platform → ℕ) (m : JoinMap platform)
      → ((k : RecordKey platform) (r : Record platform) → f k r ≡ g k r)
      → total platform f m ≡ total platform g m
  total_alike f g m e = ap (λ h. total platform h m) (fun_ext (λ k. fun_ext (e k)))

  same_key-sym : (j k : RecordKey platform) → same_key platform j k ≡ same_key platform k j
  same_key-sym j k = elim (Bool-cases (same_key platform j k)) [
    | inl q ↦ q ∙ sym ((same_key_iff platform k j).1 (sym ((same_key_iff platform j k).0 q)))
    | inr q ↦ q ∙ sym (other_way (same_key platform) (same_key_iff platform) j k q)
  ]

  pub pairs_own :
      (g : Record platform → Record platform → ℕ) (k : RecordKey platform) (r : Record platform)
      (small big other : JoinMap platform)
      → Adds k r small big
      → pairs g big other ≡ total platform (at_key platform k (g r)) other + pairs g small other
  pairs_own g k r small big other adds =
      adds (λ k r. total platform (at_key platform k (g r)) other)

  pub pairs_other :
      (g : Record platform → Record platform → ℕ) (k : RecordKey platform) (r : Record platform)
      (own small big : JoinMap platform)
      → Adds k r small big
      → pairs g own big ≡ total platform (at_key platform k (λ l. g l r)) own + pairs g own small
  pairs_other g k r own small big adds =
      total_alike (λ j l. total platform (at_key platform j (g l)) big)
        (λ j l. at_key platform k (λ l. g l r) j l + total platform (at_key platform j (g l)) small)
        own
        (λ j l.
          adds (at_key platform j (g l))
          ∙ ap (λ b. (if b then g l r else 0) + total platform (at_key platform j (g l)) small)
              (same_key-sym j k))
      ∙ total-add (at_key platform k (λ l. g l r))
          (λ j l. total platform (at_key platform j (g l)) small) own

  pub unmatched_own :
      (d : Record platform → ℕ) (k : RecordKey platform) (r : Record platform)
      (small big other : JoinMap platform)
      → Adds k r small big
      → unmatched d big other ≡ (if count k other == 0 then d r else 0) + unmatched d small other
  unmatched_own d k r small big other adds = adds (λ k r. if count k other == 0 then d r else 0)

  -- The first row with a key takes away the default rows of the other table's rows with the key.
  pub unmatched_other :
      (d : Record platform → ℕ) (k : RecordKey platform) (r : Record platform)
      (own small big : JoinMap platform)
      → Adds k r small big
      → unmatched d own small
        ≡ unmatched d own big
          + (if count k small == 0 then total platform (at_key platform k d) own else 0)
  unmatched_other d k r own small big adds = elim (Bool-cases (count k small == 0)) [
    | inl q ↦
        total_alike (λ j l. if count j small == 0 then d l else 0)
          (λ j l. (if count j big == 0 then d l else 0) + at_key platform k d j l) own
          (λ j l. elim (Bool-cases (same_key platform k j)) [
            | inl s ↦
                let at_j : count j small ≡ count k small =
                  ap (λ i. count i small) (sym ((same_key_iff platform k j).0 s)) in
                let more = adds (at_key platform j (λ r. 1)) in
                ground (arith, q, s, at_j, more, same_key-sym j k)
            | inr s ↦
                let more = adds (at_key platform j (λ r. 1)) in
                ground (arith, s, more, same_key-sym j k)
          ])
        ∙ total-add (λ j l. if count j big == 0 then d l else 0) (at_key platform k d) own
        ∙ ground (arith, q)
    | inr q ↦
        total_alike (λ j l. if count j small == 0 then d l else 0)
          (λ j l. if count j big == 0 then d l else 0) own
          (λ j l. elim (Bool-cases (same_key platform k j)) [
            | inl s ↦
                let at_j : count j small ≡ count k small =
                  ap (λ i. count i small) (sym ((same_key_iff platform k j).0 s)) in
                let more = adds (at_key platform j (λ r. 1)) in
                ground (arith, q, s, at_j, more, same_key-sym j k)
            | inr s ↦
                let more = adds (at_key platform j (λ r. 1)) in
                ground (arith, s, more, same_key-sym j k)
          ])
        ∙ ground (arith, q)
  ]
