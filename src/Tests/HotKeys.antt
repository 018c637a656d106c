-- ===== src/Tests/HotKeys.antt =====
-- The tracker of frequent keys and the metrics on concrete keys and commands.
use lite_store.Base.{
  false, ◌+◌, ◌*◌, ◌-◌, ◌≤◌, ◌≡◌, refl, arith, none, some, List, [], ◌∷◌, ◌++◌, length,
}
use lite_store.Base.Text.{Text, text, text_key, Text-discrete}
use lite_store.Base.Dict.{Dict, lookup, insert}
use lite_store.Clock.{Time}
use lite_store.CountMin.TopK.{top_k, TopKTracker, make_tracker, record_estimated}
use lite_store.CountMin.TopK.Tracking.{IsTracking, recorded, record_estimated-IsTracking}
use lite_store.CountMin.TopK.Eviction.{Contests, record_estimated-Contests}
use lite_store.CountMin.TopK.Counts.{Tracks, made-Tracks, recorded-Tracks}
use lite_store.CountMin.TopK.Ranking.{IsRanking, top_k-IsRanking}
use lite_store.Metrics.{Floats, make_metrics, latency_buckets, count_of, observe_store_snapshot}
use lite_store.Metrics.Buckets.{IsIncreasing}
use lite_store.Metrics.Histogram.{Observation, ran, looked}
use lite_store.Metrics.Rendered.{Renders, render_prometheus-Renders}
use lite_store.Metrics.Rendering.{escape_label_value}
use lite_store.Metrics.Labels.{read_value, read_value-escape}
use lite_store.Metrics.Memory.{prefix_bytes, observe_store_snapshot-bytes}
use lite_store.Tests.Servers.{hashing, set_request}

abbrev keys : List Text
keys = text "a" ∷ text "b" ∷ text "a" ∷ []

recorded-Tracks_example :
    (t : TopKTracker) × (recorded hashing (make_tracker 1 16 2) keys ≡ some t)
    × Tracks hashing 1 16 2 keys t
recorded-Tracks_example = recorded-Tracks hashing 1 16 2 (omega arith) (omega arith) keys

-- A tracker for one key that has one.
abbrev full_tracker : TopKTracker
full_tracker = record_estimated (make_tracker 1 16 2) (text "a") 1

full_tracker-IsTracking : IsTracking full_tracker
full_tracker-IsTracking =
    record_estimated-IsTracking (make_tracker 1 16 2) (text "a") 1
      (made-Tracks hashing 1 16 2).tracking

not_tracked : lookup (text "b") full_tracker.tracked ≡ none
unfolding record_estimated lookup insert Text-discrete
not_tracked = refl

no_room : full_tracker.k ≤ length full_tracker.tracked
unfolding record_estimated lookup insert Text-discrete
no_room = omega arith

record_estimated-Contests_example :
    Contests full_tracker (text "b") 2 (record_estimated full_tracker (text "b") 2)
record_estimated-Contests_example =
    record_estimated-Contests full_tracker (text "b") 2 full_tracker-IsTracking not_tracked no_room

top_k-IsRanking_example : IsRanking (top_k full_tracker) full_tracker.tracked
top_k-IsRanking_example = top_k-IsRanking full_tracker

-- Floats as numbers of milliseconds.
abbrev pub floats : Floats
floats = record { literal = milliseconds; add = λ a b. a + b; str = λ a. [] }
  where
    milliseconds : Text → Time
    milliseconds (a ∷ _ ∷ b ∷ []) = (a - 48) * 1000 + (b - 48) * 100
    milliseconds (a ∷ _ ∷ b ∷ c ∷ []) = (a - 48) * 1000 + (b - 48) * 100 + (c - 48) * 10
    milliseconds (a ∷ _ ∷ b ∷ c ∷ d ∷ []) =
        (a - 48) * 1000 + (b - 48) * 100 + (c - 48) * 10 + (d - 48)
    milliseconds _ = 0

buckets-IsIncreasing : IsIncreasing (latency_buckets floats)
unfolding latency_buckets
buckets-IsIncreasing = ground arith

abbrev observations : List Observation
observations = ran set_request 7 ∷ looked ((text "k", text "v") ∷ []) ∷ ran set_request 2000 ∷ []

render_prometheus-Renders_example : Renders floats hashing observations
render_prometheus-Renders_example =
    render_prometheus-Renders floats hashing buckets-IsIncreasing observations

read_value-escape_example :
    read_value false (escape_label_value (text "a\"b\\") ++ 34 ∷ text "} 1")
    ≡ some (text "a\"b\\", text "} 1")
read_value-escape_example = read_value-escape (text "a\"b\\") (text "} 1")

abbrev data_items : Dict Text Text
data_items = (text "user:1", text "x") ∷ (text "plain", text "y") ∷ (text "user:2", text "zz") ∷ []

observe_store_snapshot-bytes_example :
    count_of
      (text "user")
      (observe_store_snapshot hashing make_metrics data_items).memory_by_prefix_bytes
    ≡ prefix_bytes hashing (text "user") data_items
observe_store_snapshot-bytes_example =
    observe_store_snapshot-bytes hashing make_metrics data_items (text "user")
