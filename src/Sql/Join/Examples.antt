-- ===== src/Sql/Join/Examples.antt =====
-- Joins of small tables, with fields that are numbers.
use dozer.Common.{ℕ, ◌+◌, ◌≡◌, refl, true, false, none, some, List, [], ◌∷◌, ◌==◌, ==_iff, leb, ltb}
use dozer.Types.{Operation}
use dozer.Sql.Join.Kinds.{JoinBranch, JoinType}
use dozer.Sql.Join.HashMap
use dozer.Sql.Join.Table
use dozer.Sql.Join.Table.{Platform, Record, accurate}
use dozer.Sql.Join.Operator
use dozer.Sql.Join.Operator.{JoinOperator}
use dozer.Sql.Join.Processor
use dozer.Sql.Join.Processor.{process}
use dozer.Sql.Join.Columns.{joined}
use dozer.Sql.Join.Joining.{IsValid}
use dozer.Sql.Join.Processing.{sent_inserts, sent_deletes}
use dozer.Sql.Join.Soundness.{process-IsValid}
use dozer.Sql.Join.Runs.{Input, process_all, process_all-Joins}

abbrev hash_of : List ℕ → ℕ
hash_of [] = 0
hash_of (x ∷ xs) = x + hash_of xs

abbrev push : {K : Type 0} → ℕ → K → List (ℕ × List K) → List (ℕ × List K)
push instant k [] = (instant, k ∷ []) ∷ []
push instant k (e ∷ es) = e ∷ push instant k es

abbrev platform : Platform
platform = record {
  Field = ℕ;
  null = 0;
  same_field = ◌==◌;
  same_field_iff = ==_iff;
  get_record_hash = hash_of;
  Timestamp = ℕ;
  is_before_or_at = leb;
  is_after = λ a b. ltb b a;
  checked_add_signed = λ a n. some (a + n);
  LinkedHashMap = λ K. List (ℕ × List K);
  new = [];
  entry_push = push;
  iter = λ m. m;
  remove = HashMap.remove ◌==◌;
}

abbrev row : ℕ → ℕ → Record platform
row a b = record { values = a ∷ b ∷ []; lifetime = none }

-- Tables of two columns with the first as join key; the left one has it as its primary key as well.
abbrev operator : JoinOperator platform
operator = record {
  join_type = JoinType.left_outer;
  left = Table.new platform 2 (0 ∷ []) (0 ∷ []) true;
  right = Table.new platform 2 [] (0 ∷ []) true;
}

abbrev input : JoinBranch → Operation (Record platform) → Input platform
input from o = (from, record { id = none; op = o })

abbrev inputs : List (Input platform)
inputs =
    input JoinBranch.left (Operation.insert (row 1 10))
    ∷ input JoinBranch.right (Operation.batch_insert (row 1 20 ∷ row 1 21 ∷ []))
    ∷ input JoinBranch.right (Operation.delete (row 1 20))
    ∷ input JoinBranch.left (Operation.update (row 1 10) (row 2 11))
    ∷ []

process-IsValid_example :
    IsValid platform
      (process platform 0
        (record { id = none; op = Operation.insert (row 1 10) })
        operator).operator
unfolding Table.new
process-IsValid_example =
    process-IsValid platform 0 (record { id = none; op = Operation.insert (row 1 10) }) operator
      ((tt, tt), (tt, tt))

process_all-Joins_example :
    let p =
      process_all platform inputs
        (Operator.new platform JoinType.left_outer (2, 0 ∷ [], 0 ∷ []) (2, [], 0 ∷ []) false) in
    (p.failed ≡ none)
    × ((w : List ℕ → ℕ)
        → sent_inserts platform w p.sent
          ≡ joined platform JoinType.left_outer
              (2, 0 ∷ [], 0 ∷ [])
              (2, [], 0 ∷ [])
              w
              p.operator.left.map
              p.operator.right.map
            + sent_deletes platform w p.sent)
unfolding process_all process Processor.process_from Processor.process_insert
    Processor.process_delete Processor.process_update Processor.process_batch Processor.then_process
    Operator.new Operator.insert Operator.delete Table.new Table.insert Table.remove Table.remove_at
    Table.get_join_key Table.get_record_key_fields Table.get_record_key_hash Table.note_lifetime
    Table.insert_record Table.remove_record_using_primary_key
process_all-Joins_example =
    process_all-Joins platform JoinType.left_outer (2, 0 ∷ [], 0 ∷ []) (2, [], 0 ∷ []) inputs
      (
        (
          refl,
          record {
            join_key = accurate (1 ∷ []);
            primary_key = 1;
            lifetime_map = [];
            has_join_key = refl;
            has_primary_key = refl;
            has_instant = refl;
          },
        ),
        (
          (
            (
              refl,
              record {
                join_key = accurate (1 ∷ []);
                primary_key = 21;
                lifetime_map = [];
                has_join_key = refl;
                has_primary_key = refl;
                has_instant = refl;
              },
            ),
            (
              (
                refl,
                record {
                  join_key = accurate (1 ∷ []);
                  primary_key = 22;
                  lifetime_map = [];
                  has_join_key = refl;
                  has_primary_key = refl;
                  has_instant = refl;
                },
              ),
              tt,
            ),
          ),
          (
            (
              refl,
              record {
                join_key = accurate (1 ∷ []);
                primary_key = 21;
                has_join_key = refl;
                has_primary_key = refl;
                is_stored = refl;
              },
            ),
            (
              (
                (
                  refl,
                  record {
                    join_key = accurate (1 ∷ []);
                    primary_key = 1;
                    has_join_key = refl;
                    has_primary_key = refl;
                    is_stored = refl;
                  },
                ),
                (
                  refl,
                  record {
                    join_key = accurate (2 ∷ []);
                    primary_key = 2;
                    lifetime_map = [];
                    has_join_key = refl;
                    has_primary_key = refl;
                    has_instant = refl;
                  },
                ),
              ),
              tt,
            ),
          ),
        ),
      )
