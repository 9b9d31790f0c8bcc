-- ===== src/Log/Name.antt =====
-- Names of persisted entries: `log_entry_name` and `parse_log_entry_name` of
-- dozer-log/src/replication/persist.rs, over the bytes of the name.
pub mod Digits
use dozer.Common.{
  ℕ, suc, ◌+◌, ◌-◌, ◌≤◌, ◌<◌, ◌^◌, ◌≡◌, ◌≢◌, refl, Bool, true, List, [], ◌∷◌, ◌++◌, Option, none,
  some, arith, ◌==◌, if◌then◌else◌, All, All-map, append_assoc,
}
use dozer.Log.Entry.{Range}
use Digits.{
  digits, parse_u64, parse_u64-digits, IsDigit, digits-IsDigit, u64_mod, lex_lt, lex_lt-digits,
}

-- `name.split('-')`, as the list of the pieces.
cons_head : ℕ → List (List ℕ) → List (List ℕ)
cons_head c [] = (c ∷ []) ∷ []
cons_head c (piece ∷ pieces) = (c ∷ piece) ∷ pieces

split : List ℕ → List (List ℕ)
unfolding cons_head
split [] = [] ∷ []
split (c ∷ cs) = let rest = split cs in if c == b'-' then [] ∷ rest else cons_head c rest

-- Option's `?`.
infixl 5 ◌>>=◌
abbrev ◌>>=◌ : {A B : Type 0} → Option A → (A → Option B) → Option B
none >>= f = none
some a >>= f = f a

parse_pieces : List (List ℕ) → Option (ℕ × Range)
parse_pieces (e ∷ s ∷ t ∷ []) = do
  epoch_id ← parse_u64 e
  start ← parse_u64 s
  end ← parse_u64 t
  some (epoch_id, record { start = start; end = end })
parse_pieces _ = none

unfoldable pub parse_log_entry_name : List ℕ → Option (ℕ × Range)
unfolding split parse_pieces
parse_log_entry_name name = parse_pieces (split name)

-- `format!("{:020}-{:020}-{:020}", ..)`: a 64-bit number has at most 20 digits.
unfoldable pub log_entry_name : ℕ → Range → List ℕ
log_entry_name epoch_id range =
    digits 20 epoch_id ++ b'-' ∷ (digits 20 range.start ++ b'-' ∷ digits 20 range.end)

split-append : (xs ys : List ℕ) → All IsDigit xs → split (xs ++ b'-' ∷ ys) ≡ xs ∷ split ys
unfolding split
split-append [] ys h = refl
split-append (x ∷ xs) ys h = rw (split-append xs ys h.1) (ground (arith, h.0))

split_digits : (xs : List ℕ) → All IsDigit xs → split xs ≡ xs ∷ []
unfolding split
split_digits [] h = refl
split_digits (x ∷ xs) h = rw (split_digits xs h.1) (ground (arith, h.0))

-- A name that was written for 64-bit numbers is read back as those numbers.
pub parse_log_entry_name-log_entry_name :
    (epoch_id : ℕ) (range : Range)
    → epoch_id < 2 ^ 64
    → range.start < 2 ^ 64
    → range.end < 2 ^ 64
    → parse_log_entry_name (log_entry_name epoch_id range) ≡ some (epoch_id, range)
unfolding parse_log_entry_name log_entry_name
parse_log_entry_name-log_entry_name epoch_id range he hs ht =
    rw (split-append (digits 20 epoch_id) _ (digits-IsDigit 20 epoch_id)) (
      rw (split-append (digits 20 range.start) _ (digits-IsDigit 20 range.start)) (
        rw (split_digits (digits 20 range.end) (digits-IsDigit 20 range.end)) (
          rw (parse_u64-digits 20 epoch_id (omega arith) (omega arith) he) (
            rw (parse_u64-digits 20 range.start (omega arith) (omega arith) hs)
              (rw (parse_u64-digits 20 range.end (omega arith) (omega arith) ht) refl)))))

-- In the order of bytes, the name of an entry of an earlier epoch comes before that of a later one.
pub log_entry_name_ordered :
    (a b : ℕ) (r s : Range)
    → a < b
    → b < 2 ^ 64
    → lex_lt (log_entry_name a r) (log_entry_name b s) ≡ true
unfolding log_entry_name
log_entry_name_ordered a b r s h k = lex_lt-digits 20 a b _ _ h (omega arith)
