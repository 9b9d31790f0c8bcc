-- ===== src/Types/SourceStates.antt =====
-- `SourceStates`: a hash map from a source's handle to its state (dozer-types/src/node.rs).
use text.Mathlib.Text.{◌==◌ as str_eq}
use dozer.Common.{
  ℕ, Bool, true, false, ◌&&◌, Option, none, some, List, [], ◌∷◌, ◌==◌, if◌then◌else◌,
}
use dozer.Types.{NodeHandle, SourceState, non_restartable}

abbrev same_ns : Option ℕ → Option ℕ → Bool
same_ns none none = true
same_ns (some a) (some b) = a == b
same_ns none (some b) = false
same_ns (some a) none = false

abbrev pub same_handle : NodeHandle → NodeHandle → Bool
same_handle a b = same_ns a.ns b.ns && str_eq a.id b.id

abbrev pub SourceStates : Type 0
SourceStates = List (NodeHandle × SourceState)

-- `HashMap::insert`: the value of a key that is there already is replaced.
unfoldable pub insert : NodeHandle → SourceState → SourceStates → SourceStates
insert k v [] = (k, v) ∷ []
insert k v ((j, w) ∷ m) =
    let rest = insert k v m in if same_handle j k then (k, v) ∷ m else (j, w) ∷ rest

unfoldable pub get : NodeHandle → SourceStates → Option SourceState
get k [] = none
get k ((j, w) ∷ m) = let rest = get k m in if same_handle j k then some w else rest

abbrev pub is_non_restartable : SourceState → Bool
is_non_restartable non_restartable = true
is_non_restartable _ = false
