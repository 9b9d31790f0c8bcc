-- ===== src/Types/Identifiers.antt =====
-- The bytes of an operation's identifier (dozer-types/src/node.rs).
use native.Mathlib.Nat.{pow-suc}
use dozer.Common.{
  ℕ, zero, suc, ◌+◌, ◌*◌, ◌/◌, ◌%◌, ◌^◌, ◌<◌, ◌≡◌, refl, List, [], ◌∷◌, ◌++◌, length, take, drop,
  length-append, append_assoc, append-nil, take-append, drop-append, drop-all, arith, sym, ◌∙◌, ap,
}
use dozer.Types.{OpIdentifier}

-- The last `w` bytes of a number, the highest first.
unfoldable pub to_be_bytes : ℕ → ℕ → List ℕ
to_be_bytes zero n = []
to_be_bytes (suc w) n = to_be_bytes w (n / 256) ++ n % 256 ∷ []

unfoldable pub from_be_bytes : ℕ → List ℕ → ℕ
from_be_bytes acc [] = acc
from_be_bytes acc (b ∷ bytes) = from_be_bytes (acc * 256 + b) bytes

unfoldable pub to_bytes : OpIdentifier → List ℕ
to_bytes id = to_be_bytes 8 id.txid ++ to_be_bytes 8 id.seq_in_tx

-- The argument has 16 bytes.
unfoldable pub from_bytes : List ℕ → OpIdentifier
from_bytes bytes = record {
  txid = from_be_bytes 0 (take 8 bytes);
  seq_in_tx = from_be_bytes 0 (take 8 (drop 8 bytes));
}

length-to_be_bytes : (w n : ℕ) → length (to_be_bytes w n) ≡ w
unfolding to_be_bytes
length-to_be_bytes zero n = refl
length-to_be_bytes (suc w) n = omega (
  arith,
  length-append {0} (to_be_bytes w (n / 256)) (n % 256 ∷ []),
  length-to_be_bytes w (n / 256),
)

fits_below : (w n : ℕ) → n < 256 ^ suc w → n / 256 < 256 ^ w
fits_below w n h = let h' : n < 256 ^ w * 256 = rw pow-suc at h in omega arith

read_number :
    (w n : ℕ) (rest : List ℕ)
    → n < 256 ^ w
    → from_be_bytes 0 (to_be_bytes w n ++ rest) ≡ from_be_bytes n rest
unfolding to_be_bytes
read_number zero n rest h = let none_left : 0 ≡ n = omega arith in rw none_left refl
read_number (suc w) n rest h = rw append_assoc (
    rw (read_number w (n / 256) (n % 256 ∷ rest) (fits_below w n h))
      (unfold from_be_bytes in let sum : n / 256 * 256 + n % 256 ≡ n = omega arith in rw sum refl))

read_8 :
    (n : ℕ) (rest : List ℕ) → n < 2 ^ 64 → from_be_bytes 0 (take 8 (to_be_bytes 8 n ++ rest)) ≡ n
unfolding from_be_bytes
read_8 n rest h =
    ap (from_be_bytes 0) (
      take-append 8 (to_be_bytes 8 n) rest (omega (arith, length-to_be_bytes 8 n))
      ∙ take_all 8 (to_be_bytes 8 n) (length-to_be_bytes 8 n)
      ∙ sym (append-nil (to_be_bytes 8 n)))
    ∙ read_number 8 n [] h
  where
    take_all : (w : ℕ) (xs : List ℕ) → length xs ≡ w → take w xs ≡ xs
    take_all zero [] e = refl
    take_all (suc w) [] e = absurd (omega arith)
    take_all zero (x ∷ xs) e = absurd (omega arith)
    take_all (suc w) (x ∷ xs) e = ap (λ r. x ∷ r) (take_all w xs (omega arith))

-- An identifier of two 64-bit numbers is read back from its 16 bytes.
pub from_bytes-to_bytes_of_id :
    (id : OpIdentifier)
    → id.txid < 2 ^ 64
    → id.seq_in_tx < 2 ^ 64
    → (length (to_bytes id) ≡ 16) × (from_bytes (to_bytes id) ≡ id)
unfolding to_bytes from_bytes
from_bytes-to_bytes_of_id id low high =
    let first = length-to_be_bytes 8 id.txid in
    let rest = to_be_bytes 8 id.seq_in_tx in
    let dropped : drop 8 (to_be_bytes 8 id.txid ++ rest) ≡ rest =
      drop-append 8 (to_be_bytes 8 id.txid) rest (omega (arith, first))
      ∙ ap (λ xs. xs ++ rest) (drop-all 8 (to_be_bytes 8 id.txid) (omega (arith, first))) in
    let second : from_be_bytes 0 (take 8 rest) ≡ id.seq_in_tx =
      ap (λ xs. from_be_bytes 0 (take 8 xs)) (sym (append-nil rest))
      ∙ read_8 id.seq_in_tx [] high in
    (
      omega (
        arith,
        length-append {0} (to_be_bytes 8 id.txid) rest,
        first,
        length-to_be_bytes 8 id.seq_in_tx,
      ),
      (λ i. record {
        txid = read_8 id.txid rest low i;
        seq_in_tx = (ap (λ xs. from_be_bytes 0 (take 8 xs)) dropped ∙ second) i;
      }),
    )
