-- ===== src/Cache/Key.antt =====
-- Keys of records: `get_primary_key` of dozer-cache/src/cache/index/mod.rs.
use dozer.Common.{ℕ, List, [], ◌∷◌, ◌++◌, Option, none, some, get_elem?}

-- `key.join("#")`.
unfoldable pub join : List (List ℕ) → List ℕ
join [] = []
join (k ∷ []) = k
join (k ∷ j ∷ ks) = k ++ b'#' ∷ join (j ∷ ks)

-- The values at the given indexes; `none` stands for the panic of an index out of range.
unfoldable pub pick {ℓ} : {A : Type ℓ} → List ℕ → List A → Option (List A)
pick [] values = some []
pick (i ∷ is) values = elim (get_elem? values i) [
  | none ↦ none
  | some v ↦ elim (pick is values) [ none ↦ none | some vs ↦ some (v ∷ vs) ]
]

abbrev map_bytes {ℓ} : {F : Type ℓ} → (F → List ℕ) → List F → List (List ℕ)
map_bytes encode [] = []
map_bytes encode (v ∷ vs) = encode v ∷ map_bytes encode vs

-- `encode` is the encoding of a field.
unfoldable pub get_primary_key {ℓ} : {F : Type ℓ} → (F → List ℕ) → List ℕ → List F → Option (List ℕ)
unfolding pick join
get_primary_key encode primary_index values = elim (pick primary_index values) [
  | none ↦ none
  | some vs ↦ some (join (map_bytes encode vs))
]
