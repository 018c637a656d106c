-- ===== src/Metrics/Memory.antt =====
-- What the metrics show of the memory that the store uses.
use lite_store.Base.{ℕ, ◌+◌, ◌≡◌, arith, [], ◌∷◌, length, ite}
use lite_store.Base.Text.{Text, text_key}
use lite_store.Base.Dict.{Dict, lookup}
use lite_store.Router.{Hashing}
use lite_store.Metrics.{
  MetricsCollector, count_of, count_up, count_of-count_up, key_prefix, prefix_totals,
  observe_store_snapshot,
}

-- the bytes of the keys with this prefix and of their values
unfoldable pub prefix_bytes : Hashing → Text → Dict Text Text → ℕ
prefix_bytes h prefix [] = 0
prefix_bytes h prefix ((key, value) ∷ data_items) =
    let rest = prefix_bytes h prefix data_items in
    ite (text_key.decide (key_prefix key) prefix)
      (length (h.encode key) + length (h.encode value) + rest) rest

totals_of :
    (h : Hashing) (prefix : Text) (totals : Dict Text ℕ) (data_items : Dict Text Text)
    → count_of prefix (prefix_totals h totals data_items)
      ≡ count_of prefix totals + prefix_bytes h prefix data_items
unfolding prefix_totals prefix_bytes
totals_of h prefix totals [] = omega arith
totals_of h prefix totals ((key, value) ∷ data_items) =
    let size = length (h.encode key) + length (h.encode value) in
    ground (
      arith,
      count_of-count_up (key_prefix key) prefix size totals,
      totals_of h prefix (count_up (key_prefix key) size totals) data_items,
    )

-- After a snapshot of the store, whatever the metrics showed before: the memory of each prefix is the
-- sum of the bytes of the keys with that prefix and of their values in the snapshot.
pub observe_store_snapshot-bytes :
    (h : Hashing) (m : MetricsCollector) (data_items : Dict Text Text) (prefix : Text)
    → count_of prefix (observe_store_snapshot h m data_items).memory_by_prefix_bytes
      ≡ prefix_bytes h prefix data_items
unfolding observe_store_snapshot count_of lookup
observe_store_snapshot-bytes h m data_items prefix = omega (arith, totals_of h prefix [] data_items)
