-- ===== src/Sql/Join/Operator.antt =====
-- `JoinOperator` (dozer-sql/src/product/join/operator/mod.rs).
use dozer.Common.{
  ℕ, Bool, true, false, Option, none, some, List, [], ◌∷◌, ◌++◌, length, take, ◌==◌, if◌then◌else◌,
  Result, ok, ◌>>=◌,
}
use mathlib.Core.List.{map}
use dozer.Sql.Join.Kinds.{JoinBranch, JoinType, JoinAction}
use dozer.Sql.Join.Table
use dozer.Sql.Join.Table.{
  Platform, JoinError, Lifetime, Record, RecordKey, JoinTable, get_matching_records,
}
use dozer.Sql.Join.Eviction

module _ (platform : Platform) where
  open platform use {Field, Timestamp, is_after}

  pub record JoinOperator : Type 0 where
    pub join_type : JoinType
    pub left : JoinTable platform
    pub right : JoinTable platform

  -- Without a checkpoint: for each input the number of its fields, its primary index and the indexes
  -- of its join key.
  unfoldable pub new : JoinType → ℕ × List ℕ × List ℕ → ℕ × List ℕ × List ℕ → Bool → JoinOperator
  new join_type (left_fields, left_primary, left_indexes)
        (right_fields, right_primary, right_indexes) enable_probabilistic_optimizations =
      let accurate_keys = if enable_probabilistic_optimizations then false else true in
      record {
        join_type = join_type;
        left = Table.new platform left_fields left_primary left_indexes accurate_keys;
        right = Table.new platform right_fields right_primary right_indexes accurate_keys;
      }

  abbrev join_lifetimes :
      Option (Lifetime platform) → Option (Lifetime platform) → Option (Lifetime platform)
  join_lifetimes (some l) (some m) = if is_after l.reference m.reference then some l else some m
  join_lifetimes (some l) none = some l
  join_lifetimes none m = m

  abbrev pub join_values : JoinBranch → List Field → List Field → List Field
  join_values JoinBranch.left vs ws = vs ++ ws
  join_values JoinBranch.right vs ws = ws ++ vs

  abbrev pub create_join_records_fn :
      Record platform → JoinBranch → Record platform → Record platform
  create_join_records_fn r branch matching = record {
    values = join_values branch r.values matching.values;
    lifetime = join_lifetimes r.lifetime matching.lifetime;
  }

  abbrev pub Change : Type 0
  Change = JoinAction × Record platform

  abbrev pub own_table : JoinOperator → JoinBranch → JoinTable platform
  own_table op JoinBranch.left = op.left
  own_table op JoinBranch.right = op.right

  abbrev pub other_table : JoinOperator → JoinBranch → JoinTable platform
  other_table op JoinBranch.left = op.right
  other_table op JoinBranch.right = op.left

  unfoldable pub inner_join :
      JoinOperator
      → JoinAction
      → RecordKey platform
      → Record platform
      → JoinBranch
      → Bool
      → List Change
  inner_join op action join_key r branch default_if_no_match =
      map (λ matching. (action, create_join_records_fn r branch matching))
        (get_matching_records platform (other_table op branch) join_key default_if_no_match)

  unfoldable pub need_to_act_on_default_record :
      JoinAction → RecordKey platform → JoinTable platform → Bool
  need_to_act_on_default_record JoinAction.insert join_key t =
      length (take 2 (get_matching_records platform t join_key false)) == 1
  need_to_act_on_default_record JoinAction.delete join_key t =
      length (take 1 (get_matching_records platform t join_key false)) == 0

  abbrev pub outer_output : Bool → JoinAction → Record platform → Record platform → List Change
  outer_output true JoinAction.insert joined default_joined =
      (JoinAction.delete, default_joined) ∷ (JoinAction.insert, joined) ∷ []
  outer_output true JoinAction.delete joined default_joined =
      (JoinAction.delete, joined) ∷ (JoinAction.insert, default_joined) ∷ []
  outer_output false action joined default_joined = (action, joined) ∷ []

  unfoldable pub outer_outputs :
      Bool
      → JoinAction
      → Record platform
      → Record platform
      → JoinBranch
      → List (Record platform)
      → List Change
  outer_outputs need action r default_record branch [] = []
  outer_outputs need action r default_record branch (matching ∷ ms) =
      outer_output need action (create_join_records_fn r branch matching)
        (create_join_records_fn default_record branch matching)
      ++ outer_outputs need action r default_record branch ms

  unfoldable pub outer_join :
      JoinOperator → JoinAction → RecordKey platform → Record platform → JoinBranch → List Change
  outer_join op action join_key r branch =
      outer_outputs (need_to_act_on_default_record action join_key (own_table op branch)) action r
        (own_table op branch).default_record branch
        (get_matching_records platform (other_table op branch) join_key false)

  unfoldable pub join_by :
      JoinType
      → JoinBranch
      → JoinOperator
      → JoinAction
      → RecordKey platform
      → Record platform
      → List Change
  join_by JoinType.inner branch op action key r = inner_join op action key r branch false
  join_by JoinType.left_outer JoinBranch.left op action key r =
      inner_join op action key r JoinBranch.left true
  join_by JoinType.left_outer JoinBranch.right op action key r =
      outer_join op action key r JoinBranch.right
  join_by JoinType.right_outer JoinBranch.left op action key r =
      outer_join op action key r JoinBranch.left
  join_by JoinType.right_outer JoinBranch.right op action key r =
      inner_join op action key r JoinBranch.right true

  unfoldable pub join :
      JoinOperator → JoinAction → RecordKey platform → Record platform → JoinBranch → List Change
  join op action join_key r branch = join_by op.join_type branch op action join_key r

  abbrev pub with_own_table : JoinOperator → JoinBranch → JoinTable platform → JoinOperator
  with_own_table op JoinBranch.left t = record op { left = t }
  with_own_table op JoinBranch.right t = record op { right = t }

  abbrev pub Joined : Type 0
  Joined = Result JoinError (JoinOperator × List Change)

  unfoldable pub delete : JoinOperator → JoinBranch → Record platform → Record platform → Joined
  delete op from old old_decoded = do
    (join_key, t) ← Table.remove platform (own_table op from) old_decoded
    let op' = with_own_table op from t
    ok (op', join op' JoinAction.delete join_key old from)

  unfoldable pub insert : JoinOperator → JoinBranch → Record platform → Record platform → Joined
  insert op from new new_decoded = do
    (join_key, t) ← Table.insert platform (own_table op from) new new_decoded
    let op' = with_own_table op from t
    ok (op', join op' JoinAction.insert join_key new from)

  unfoldable pub evict_index : Timestamp → JoinOperator → JoinOperator
  evict_index now op = record op {
    left = Eviction.evict_index platform now op.left;
    right = Eviction.evict_index platform now op.right;
  }
