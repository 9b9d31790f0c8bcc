-- ===== src/Types/Examples.antt =====
-- The bytes of a handle and of an identifier.
use dozer.Common.{
  ℕ, ◌≡◌, refl, Option, none, some, List, [], ◌∷◌, length, ◌==◌, if◌then◌else◌, arith, String,
}
use dozer.Types.{NodeHandle, OpIdentifier}
use dozer.Types.Identifiers
use dozer.Types.Handles.{Utf8, to_bytes, from_bytes, from_bytes-to_bytes}

abbrev text_of : List ℕ → Option String
text_of [] = some ""
text_of (b ∷ bs) = if b == 97 then some "a" else none

-- One name of one letter.
abbrev utf8 : Utf8
utf8 = record { as_bytes = λ s. 97 ∷ []; from_utf8 = text_of }

abbrev handle : NodeHandle
handle = record { ns = some 300; id = "a" }

bytes : to_bytes utf8 handle ≡ 1 ∷ 44 ∷ 1 ∷ 1 ∷ 0 ∷ 97 ∷ []
unfolding to_bytes
bytes = refl

from_bytes-to_bytes_example : from_bytes utf8 (to_bytes utf8 handle) ≡ some handle
from_bytes-to_bytes_example =
    from_bytes-to_bytes utf8 handle (λ ns e. ground (arith, e)) (omega arith) refl

abbrev identifier : OpIdentifier
identifier = record { txid = 258; seq_in_tx = 3 }

from_bytes-to_bytes_of_id_example :
    (length (Identifiers.to_bytes identifier) ≡ 16)
    × (Identifiers.from_bytes (Identifiers.to_bytes identifier) ≡ identifier)
from_bytes-to_bytes_of_id_example =
    Identifiers.from_bytes-to_bytes_of_id identifier (omega arith) (omega arith)
