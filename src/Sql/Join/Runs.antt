-- ===== src/Sql/Join/Runs.antt =====
-- A sequence of operations on the two inputs of a join (dozer-sql/src/product/join/processor.rs).
use dozer.Common.{ℕ, ◌+◌, ◌≡◌, refl, Bool, false, none, List, [], ◌∷◌, arith}
use dozer.Types.{OperationWithId}
use dozer.Sql.Join.Kinds.{JoinBranch, JoinType}
use dozer.Sql.Join.Table
use dozer.Sql.Join.Table.{Platform, Record}
use dozer.Sql.Join.Operator
use dozer.Sql.Join.Operator.{JoinOperator}
use dozer.Sql.Join.Processor.{Processed, then_process, process}
use dozer.Sql.Join.Columns.{Side, joined, IsKeyed, contents-joined}
use dozer.Sql.Join.Contents.{contents}
use dozer.Sql.Join.Joining.{IsValid}
use dozer.Sql.Join.Processing.{
  sent_inserts, sent_deletes, sent_inserts-append, sent_deletes-append, Follows, Accepts,
  process-Follows,
}

module _ (platform : Platform) where
  open platform use {Field}

  abbrev pub Input : Type 0
  Input = JoinBranch × OperationWithId (Record platform)

  abbrev port_of : JoinBranch → ℕ
  port_of JoinBranch.left = 0
  port_of JoinBranch.right = 1

  unfoldable pub process_all : List Input → JoinOperator platform → Processed platform
  process_all [] op = record { operator = op; sent = []; failed = none }
  process_all ((from, o) ∷ inputs) op =
      then_process platform (process platform (port_of from) o op) (λ op'. process_all inputs op')

  -- Every operation is accepted when its turn comes.
  abbrev pub AcceptsAll : List Input → JoinOperator platform → Type 0
  AcceptsAll [] op = Unit
  AcceptsAll ((from, o) ∷ inputs) op =
      Accepts platform from o.op op
      × AcceptsAll inputs (process platform (port_of from) o op).operator

  process_port-Follows :
      (from : JoinBranch) (o : OperationWithId (Record platform)) (op : JoinOperator platform)
      → Accepts platform from o.op op
      → IsValid platform op
      → Follows platform op (process platform (port_of from) o op)
  process_port-Follows JoinBranch.left o op = process-Follows platform 0 JoinBranch.left o op refl
  process_port-Follows JoinBranch.right o op = process-Follows platform 1 JoinBranch.right o op refl

  process_all-Follows :
      (inputs : List Input) (op : JoinOperator platform)
      → AcceptsAll inputs op
      → IsValid platform op
      → Follows platform op (process_all inputs op)
  unfolding process_all then_process
  process_all-Follows [] op accepts v = (refl, v, (λ w. refl), (λ type left right q. q))
  process_all-Follows ((from, o) ∷ inputs) op (accepts, later) v =
      let p = process platform (port_of from) o op in
      let (e, v', j, k) = process_port-Follows from o op accepts v in
      let (e', v'', j', k') = process_all-Follows inputs p.operator later v' in
      let q = process_all inputs p.operator in
      rw e (
        e',
        v'',
        (λ w. omega (
          arith,
          j w,
          j' w,
          sent_inserts-append platform w p.sent q.sent,
          sent_deletes-append platform w p.sent q.sent,
        )),
        (λ type left right x. k' type left right (k type left right x)),
      )

  contents-new :
      (w : List Field → ℕ) (type : JoinType) (left right : ℕ × List ℕ × List ℕ)
      (probabilistic : Bool)
      → contents platform w (Operator.new platform type left right probabilistic) ≡ 0
  unfolding contents Operator.new Table.new
  contents-new w JoinType.inner left right probabilistic = refl
  contents-new w JoinType.left_outer left right probabilistic = refl
  contents-new w JoinType.right_outer left right probabilistic = refl

  new-IsValid :
      (type : JoinType) (left right : ℕ × List ℕ × List ℕ) (probabilistic : Bool)
      → IsValid platform (Operator.new platform type left right probabilistic)
  unfolding Operator.new Table.new
  new-IsValid type left right probabilistic = ((tt, tt), (tt, tt))

  new-IsKeyed :
      (type : JoinType) (left right : Side)
      → IsKeyed platform type left right (Operator.new platform type left right false)
  unfolding Operator.new Table.new
  new-IsKeyed type left right = record {
    type = refl;
    left = record { indexes = refl; accurate_keys = refl; default_record = refl; keys = refl };
    right = record { indexes = refl; accurate_keys = refl; default_record = refl; keys = refl };
  }

  -- From a new operator with accurate keys on, while the operations on the inputs have records without lifetimes and with
  -- their key fields, and delete only records that are the newest under their keys, what has been sent
  -- adds up to the inner or outer join of the records of the two tables as they stand: the pairs with
  -- equal join columns, and for an outer join the records without a partner, next to nulls.
  pub process_all-Joins :
      (type : JoinType) (left right : Side) (inputs : List Input)
      → AcceptsAll inputs (Operator.new platform type left right false)
      → let p = process_all inputs (Operator.new platform type left right false) in
        (p.failed ≡ none)
        × ((w : List Field → ℕ)
            → sent_inserts platform w p.sent
              ≡ joined platform type left right w p.operator.left.map p.operator.right.map
                + sent_deletes platform w p.sent)
  process_all-Joins type left right inputs accepts =
      let op = Operator.new platform type left right false in
      let (e, v, j, keeps) =
        process_all-Follows inputs op accepts (new-IsValid type left right false) in
      let keyed = keeps type left right (new-IsKeyed type left right) in
      (
        e,
        (λ w. omega (
          arith,
          j w,
          contents-new w type left right false,
          contents-joined platform type left right (process_all inputs op).operator keyed w,
        )),
      )
