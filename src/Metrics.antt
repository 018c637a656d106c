-- ===== src/Metrics.antt =====
-- The metrics of src/metrics.py. A call under the lock is one step.
pub mod Rendering
pub mod Buckets
pub mod Histogram
pub mod Labels
pub mod Memory
pub mod Rendered
use lite_store.Base.{
  ℕ, ◌+◌, ◌-◌, ◌≡◌, arith, ite, Bool, true, false, Option, none, some, List, [], ◌∷◌, map, length,
  ◌==◌, leb, if◌then◌else◌, take, or_else, ℤ, pos, negsuc,
}
use lite_store.Base.Text.{Text, text, text_key}
use lite_store.Base.Dict.{Dict, Key, lookup, insert, lookup-insert}
use lite_store.Clock.{Time}
use lite_store.Types.{command_value, CommandRequest}
use lite_store.Router.{Hashing}
use lite_store.CountMin.TopK.{TopKTracker, make_tracker, record_key, top_k}
use native.Mathlib.Decide.{ℕ_discrete}

-- The arithmetic of floats that the metrics use.
pub record Floats : Type 0 where
  -- the float of a decimal literal
  pub literal : Text → Time
  -- a + b
  pub add : Time → Time → Time
  -- str(a)
  pub str : Time → Text

instance abbrev pub bucket_key : Key Time
bucket_key = record { decide = ℕ_discrete }

module _ {K : Type 0} ⦃key : Key K⦄ where
  unfoldable pub count_of : K → Dict K ℕ → ℕ
  count_of k counter = or_else (lookup k counter) 0

  -- counter[k] += n
  unfoldable pub count_up : K → ℕ → Dict K ℕ → Dict K ℕ
  unfolding count_of
  count_up k n counter = insert k (count_of k counter + n) counter

  pub count_of-count_up :
      (k j : K) (n : ℕ) (counter : Dict K ℕ)
      → count_of j (count_up k n counter)
        ≡ ite (key.decide k j) (count_of k counter + n) (count_of j counter)
  unfolding count_up
  count_of-count_up k j n counter =
      ground (arith, lookup-insert k j (or_else (lookup k counter) 0 + n) counter)

pub record HotKeyEntry : Type 0 where
  pub key : Text
  pub count : ℕ

pub record MetricsCollector : Type 0 where
  pub throughput_total : ℕ
  pub throughput_by_command : Dict Text ℕ
  pub latency_sum_by_command : Dict Text Time
  pub latency_count_by_command : Dict Text ℕ
  pub latency_bucket_counts : Dict Text (Dict Time ℕ)
  pub hot_key_tracker : TopKTracker
  pub memory_by_prefix_bytes : Dict Text ℕ

-- MetricsCollector()
abbrev pub make_metrics : MetricsCollector
make_metrics = record {
  throughput_total = 0;
  throughput_by_command = [];
  latency_sum_by_command = [];
  latency_count_by_command = [];
  latency_bucket_counts = [];
  hot_key_tracker = make_tracker 100 2048 4;
  memory_by_prefix_bytes = [];
}

-- the loop of `_observe_latency_bucket`
unfoldable pub count_bucket : List Time → Time → Dict Time ℕ → Dict Time ℕ
unfolding count_up
count_bucket [] duration_seconds bucket_counts = bucket_counts
count_bucket (bucket ∷ buckets) duration_seconds bucket_counts =
    let later = count_bucket buckets duration_seconds bucket_counts in
    if leb duration_seconds bucket then count_up bucket 1 bucket_counts else later

-- key.partition(":"), the text before the separator, and whether that is there
unfoldable pub partition : Text → Text × Bool
partition [] = ([], false)
partition (c ∷ s) =
    let (before, there) = partition s in if c == b':' then ([], true) else (c ∷ before, there)

-- _key_prefix
unfoldable pub key_prefix : Text → Text
unfolding partition
key_prefix key =
    let (prefix, separator) = partition key in if separator then prefix else text "default"

-- the loop of `observe_store_snapshot`, on the items in their order
unfoldable pub prefix_totals : Hashing → Dict Text ℕ → Dict Text Text → Dict Text ℕ
unfolding count_up key_prefix
prefix_totals h totals [] = totals
prefix_totals h totals ((key, value) ∷ data_items) =
    prefix_totals h
      (count_up (key_prefix key) (length (h.encode key) + length (h.encode value)) totals)
      data_items

unfoldable pub observe_store_snapshot :
    Hashing → MetricsCollector → Dict Text Text → MetricsCollector
unfolding prefix_totals
observe_store_snapshot h m data_items = record m {
  memory_by_prefix_bytes = prefix_totals h [] data_items;
}

-- list[:limit]
abbrev pub slice_to {ℓ} : {A : Type ℓ} → ℤ → List A → List A
slice_to (pos n) entries = take n entries
slice_to (negsuc n) entries = take (length entries - n - 1) entries

unfoldable pub hot_keys : MetricsCollector → ℤ → List HotKeyEntry
unfolding top_k
hot_keys m limit =
    map (λ entry. record { key = entry.0; count = entry.1 })
      (slice_to limit (top_k m.hot_key_tracker))

-- the last `if` of `observe_command`; `none` for the ValueError of the tracker
unfoldable pub observe_key : Hashing → TopKTracker → List Text → Option TopKTracker
unfolding record_key
observe_key h tracker [] = some tracker
observe_key h tracker (key ∷ _) = record_key h tracker key

module _ (f : Floats) where
  -- _LATENCY_BUCKETS
  unfoldable pub latency_buckets : List Time
  latency_buckets = map f.literal (
      text "0.001"
      ∷ text "0.005"
      ∷ text "0.01"
      ∷ text "0.05"
      ∷ text "0.1"
      ∷ text "0.5"
      ∷ text "1.0"
      ∷ text "5.0"
      ∷ [])

  -- _observe_latency_bucket
  unfoldable pub observe_latency_bucket :
      Dict Text (Dict Time ℕ) → Text → Time → Dict Text (Dict Time ℕ)
  unfolding count_bucket latency_buckets
  observe_latency_bucket counts command_name duration_seconds =
      insert command_name
        (count_bucket latency_buckets duration_seconds (or_else (lookup command_name counts) []))
        counts

  -- the statements of `observe_command` before its last `if`, and the tracker after that
  unfoldable pub count_command : MetricsCollector → Text → Time → TopKTracker → MetricsCollector
  unfolding observe_latency_bucket count_up
  count_command m command_name duration_seconds tracker = record {
    throughput_total = m.throughput_total + 1;
    throughput_by_command = count_up command_name 1 m.throughput_by_command;
    latency_sum_by_command =
        insert command_name
          (f.add (or_else (lookup command_name m.latency_sum_by_command) (f.literal (text "0.0")))
            duration_seconds)
          m.latency_sum_by_command;
    latency_count_by_command = count_up command_name 1 m.latency_count_by_command;
    latency_bucket_counts =
        observe_latency_bucket m.latency_bucket_counts command_name duration_seconds;
    hot_key_tracker = tracker;
    memory_by_prefix_bytes = m.memory_by_prefix_bytes;
  }

  -- `observe_command`, by what its tracker does
  unfoldable pub observe_tracked :
      MetricsCollector → Text → Time → Option TopKTracker → Option MetricsCollector
  unfolding count_command
  observe_tracked m command_name duration_seconds none = none
  observe_tracked m command_name duration_seconds (some tracker) =
      some (count_command m command_name duration_seconds tracker)

  unfoldable pub observe_command :
      Hashing → MetricsCollector → CommandRequest → Time → Option MetricsCollector
  unfolding observe_key observe_tracked
  observe_command h m request duration_seconds =
      observe_tracked m (command_value request.command) duration_seconds
        (observe_key h m.hot_key_tracker request.args)
