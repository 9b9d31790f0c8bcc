-- ===== src/Types/Handles.antt =====
-- The bytes of a node's handle (dozer-types/src/node.rs). A string's bytes and `from_utf8` are a
-- parameter; `none` stands for a panic.
use dozer.Common.{
  ℕ, ◌+◌, ◌*◌, ◌/◌, ◌%◌, ◌^◌, ◌<◌, ◌≡◌, refl, Option, none, some, List, [], ◌∷◌, ◌++◌, length,
  get_elem?, take, drop, leb, ◌==◌, if◌then◌else◌, arith, String, ap,
}
use dozer.Types.{NodeHandle}

pub record Utf8 : Type 0 where
  pub as_bytes : String → List ℕ
  pub from_utf8 : List ℕ → Option String

infixl 5 ◌>>=◌
abbrev ◌>>=◌ : {A B : Type 0} → Option A → (A → Option B) → Option B
none >>= f = none
some a >>= f = f a

-- `to_le_bytes` and `from_le_bytes` of 16-bit numbers.
abbrev to_le_bytes : ℕ → List ℕ
to_le_bytes n = n % 256 ∷ n / 256 % 256 ∷ []

abbrev read_u16 : List ℕ → ℕ → Option ℕ
read_u16 bytes at = do
  low ← get_elem? bytes at
  high ← get_elem? bytes (at + 1)
  some (low + 256 * high)

abbrev slice : List ℕ → ℕ → ℕ → Option (List ℕ)
slice bytes from len =
    if leb (from + len) (length bytes) then some (take len (drop from bytes)) else none

take-length : (xs : List ℕ) → take (length xs) xs ≡ xs
take-length [] = refl
take-length (x ∷ xs) = ap (λ r. x ∷ r) (take-length xs)

module _ (utf8 : Utf8) where
  open utf8 use {as_bytes, from_utf8}

  namespace_bytes : Option ℕ → List ℕ
  namespace_bytes none = 0 ∷ []
  namespace_bytes (some ns) = 1 ∷ to_le_bytes ns

  unfoldable pub to_bytes : NodeHandle → List ℕ
  unfolding namespace_bytes
  to_bytes handle =
      let id_buf = as_bytes handle.id in
      namespace_bytes handle.ns ++ to_le_bytes (length id_buf % 2 ^ 16) ++ id_buf

  with_namespace : List ℕ → Option NodeHandle
  with_namespace buffer = do
    ns ← read_u16 buffer 1
    id_len ← read_u16 buffer 3
    id_buf ← slice buffer 5 id_len
    id ← from_utf8 id_buf
    some (record { ns = some ns; id = id })

  without_namespace : List ℕ → Option NodeHandle
  without_namespace buffer = do
    id_len ← read_u16 buffer 1
    id_buf ← slice buffer 3 id_len
    id ← from_utf8 id_buf
    some (record { ns = none; id = id })

  unfoldable pub from_bytes : List ℕ → Option NodeHandle
  unfolding with_namespace without_namespace
  from_bytes [] = none
  from_bytes (tag ∷ rest) =
      if tag == 1 then with_namespace (tag ∷ rest) else without_namespace (tag ∷ rest)

  -- A namespace is a 16-bit number.
  abbrev pub IsHandle : NodeHandle → Type 0
  IsHandle handle = (ns : ℕ) → handle.ns ≡ some ns → ns < 2 ^ 16

  read_back :
      (ns : Option ℕ) (id : String)
      → IsHandle (record { ns = ns; id = id })
      → length (as_bytes id) < 2 ^ 16
      → from_utf8 (as_bytes id) ≡ some id
      → from_bytes (to_bytes (record { ns = ns; id = id })) ≡ some (record { ns = ns; id = id })
  unfolding from_bytes to_bytes
  read_back none id valid short text =
      let len = length (as_bytes id) in
      let whole : len % 2 ^ 16 ≡ len = omega arith in
      let all_read : len % 256 + 256 * (len / 256 % 256) ≡ len = omega arith in
      rw (whole, all_read) (ground (arith, take-length (as_bytes id), text))
  read_back (some ns) id valid short text =
      let len = length (as_bytes id) in
      let fits = valid ns refl in
      let whole : len % 2 ^ 16 ≡ len = omega arith in
      let all_read : len % 256 + 256 * (len / 256 % 256) ≡ len = omega arith in
      let ns_read : ns % 256 + 256 * (ns / 256 % 256) ≡ ns = omega arith in
      rw (whole, all_read, ns_read) (ground (arith, take-length (as_bytes id), text))

  -- A handle whose namespace has 16 bits and whose name has less than 2^16 bytes, from which UTF-8 gives
  -- back the name, is read back from its bytes.
  pub from_bytes-to_bytes :
      (handle : NodeHandle)
      → IsHandle handle
      → length (as_bytes handle.id) < 2 ^ 16
      → from_utf8 (as_bytes handle.id) ≡ some handle.id
      → from_bytes (to_bytes handle) ≡ some handle
  from_bytes-to_bytes handle valid short text = read_back handle.ns handle.id valid short text
