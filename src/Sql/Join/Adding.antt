-- ===== src/Sql/Join/Adding.antt =====
-- What a row more in one table adds to the join is what the operator puts out
-- (dozer-sql/src/product/join/operator/mod.rs).
use dozer.Common.{ℕ, ◌+◌, ◌≡◌, List, ◌++◌, ◌==◌, arith}
use dozer.Sql.Join.Kinds.{JoinBranch, JoinType, JoinAction}
use dozer.Sql.Join.Table.{Platform, Record, RecordKey, JoinTable}
use dozer.Sql.Join.Operator.{JoinOperator, need_to_act_on_default_record, join_by}
use dozer.Sql.Join.Validity
use dozer.Sql.Join.Validity.{insert_record-IsValid, remove_record-IsValid}
use dozer.Sql.Join.Contents.{
  contents, Adds, count, pairs_own, pairs_other, unmatched_own, unmatched_other,
}
use dozer.Sql.Join.Outputs.{opposite, emitted, emitted-inner_join, emitted-outer_join}

module _ (platform : Platform) where
  open platform use {Field}

  abbrev pub make :
      JoinType → JoinBranch → JoinTable platform → JoinTable platform → JoinOperator platform
  make type JoinBranch.left own other = record { join_type = type; left = own; right = other }
  make type JoinBranch.right own other = record { join_type = type; left = other; right = own }

  module _ (w : List Field → ℕ) (action : JoinAction) (k : RecordKey platform) (r : Record platform)
      (now small big other : JoinTable platform)
      (need : need_to_act_on_default_record platform action k now
        ≡ (count platform k small.map == 0))
      (default_small : small.default_record ≡ now.default_record)
      (default_big : big.default_record ≡ now.default_record)
      (adds : Adds platform k r small.map big.map)
      (valid : Validity.IsValid platform other.map) where
    -- What a row more in one table adds to the join is what is put out.
    pub join_by_adds :
        (type : JoinType) (branch : JoinBranch)
        → let out = join_by platform type branch (make type branch now other) action k r in
          contents platform w (make type branch big other)
            + emitted platform w (opposite action) out
          ≡ contents platform w (make type branch small other) + emitted platform w action out
    unfolding join_by contents
    join_by_adds JoinType.inner JoinBranch.left =
        let out =
          emitted-inner_join platform w (make JoinType.inner JoinBranch.left now other) action k r
            JoinBranch.left valid in
        omega (
          arith,
          out.0,
          out.2,
          pairs_own platform (λ l r. w (l.values ++ r.values)) k r small.map big.map other.map adds,
        )
    join_by_adds JoinType.inner JoinBranch.right =
        let out =
          emitted-inner_join platform w (make JoinType.inner JoinBranch.right now other) action k r
            JoinBranch.right valid in
        omega (
          arith,
          out.0,
          out.2,
          pairs_other platform (λ l r. w (l.values ++ r.values)) k r other.map small.map big.map
              adds,
        )
    join_by_adds JoinType.left_outer JoinBranch.left =
        let out =
          emitted-inner_join platform w (make JoinType.left_outer JoinBranch.left now other) action
            k r JoinBranch.left valid in
        omega (
          arith,
          out.1,
          out.3,
          pairs_own platform (λ l r. w (l.values ++ r.values)) k r small.map big.map other.map adds,
          unmatched_own platform (λ l. w (l.values ++ other.default_record.values)) k r small.map
              big.map other.map adds,
        )
    join_by_adds JoinType.left_outer JoinBranch.right =
        let out =
          emitted-outer_join platform w (make JoinType.left_outer JoinBranch.right now other) action
            k r JoinBranch.right valid need in
        rw (default_small, default_big)
          (omega (
            arith,
            out.0,
            out.1,
            pairs_other platform (λ l r. w (l.values ++ r.values)) k r other.map small.map big.map
                adds,
            unmatched_other platform (λ l. w (l.values ++ now.default_record.values)) k r other.map
                small.map big.map adds,
          ))
    join_by_adds JoinType.right_outer JoinBranch.left =
        let out =
          emitted-outer_join platform w (make JoinType.right_outer JoinBranch.left now other) action
            k r JoinBranch.left valid need in
        rw (default_small, default_big)
          (omega (
            arith,
            out.0,
            out.1,
            pairs_own platform (λ l r. w (l.values ++ r.values)) k r small.map big.map other.map
                adds,
            unmatched_other platform (λ r. w (now.default_record.values ++ r.values)) k r other.map
                small.map big.map adds,
          ))
    join_by_adds JoinType.right_outer JoinBranch.right =
        let out =
          emitted-inner_join platform w (make JoinType.right_outer JoinBranch.right now other)
            action k r JoinBranch.right valid in
        omega (
          arith,
          out.1,
          out.3,
          pairs_other platform (λ l r. w (l.values ++ r.values)) k r other.map small.map big.map
              adds,
          unmatched_own platform (λ r. w (other.default_record.values ++ r.values)) k r small.map
              big.map other.map adds,
        )
