-- ===== src/Sql/Join/Eviction.antt =====
-- The eviction of records whose lifetime has ended (dozer-sql/src/product/join/operator/table.rs).
use dozer.Common.{List, [], ◌∷◌, if◌then◌else◌}
use dozer.Sql.Join.Table.{Platform, JoinMap, IndexKey, JoinTable, remove_record_using_primary_key}

module _ (platform : Platform) where
  open platform use {Timestamp, LinkedHashMap}

  unfoldable pub remove_all : List (IndexKey platform) → JoinMap platform → JoinMap platform
  remove_all [] m = m
  remove_all ((join_key, primary_key) ∷ keys) m =
      remove_all keys (remove_record_using_primary_key platform join_key primary_key m)

  -- The loop over the instants up to the first that is later than `now`: the keys to remove and the
  -- map without the records.
  unfoldable pub evict_until :
      Timestamp
      → List (Timestamp × List (IndexKey platform))
      → JoinMap platform
      → List Timestamp × JoinMap platform
  evict_until now [] m = ([], m)
  evict_until now ((instant, keys) ∷ entries) m =
      let (instants, m') = evict_until now entries (remove_all keys m) in
      if platform.is_before_or_at instant now then (instant ∷ instants, m') else ([], m)

  abbrev remove_instants :
      List Timestamp → LinkedHashMap (IndexKey platform) → LinkedHashMap (IndexKey platform)
  remove_instants [] m = m
  remove_instants (instant ∷ instants) m = remove_instants instants (platform.remove instant m)

  unfoldable pub evict_index : Timestamp → JoinTable platform → JoinTable platform
  evict_index now t =
      let (instants, m) = evict_until now (platform.iter t.lifetime_map) t.map in
      record t { map = m; lifetime_map = remove_instants instants t.lifetime_map }
