-- ===== src/Metrics/Histogram.antt =====
-- What the counters of the metrics say of the commands that were observed.
use mathlib.Core.Logic.{if_pos, if_neg}
use lite_store.Base.{
  ℕ, ◌+◌, ◌≡◌, ◌≢◌, ◌∙◌, sym, refl, ap, arith, Option, none, some, List, [], ◌∷◌, length, leb, take,
  ◌++◌, if◌then◌else◌, ite, or_else, All, All-weaken,
}
use lite_store.Base.Text.{Text, text, text_key}
use lite_store.Base.Dict.{Dict, lookup, insert, lookup-insert, lookup-nil, All-insert}
use lite_store.Clock.{Time}
use lite_store.Types.{command_value, CommandRequest}
use lite_store.Router.{Hashing}
use lite_store.CountMin.TopK.{TopKTracker}
use lite_store.CountMin.TopK.Counts.{Tracks, made-Tracks, record_key-Tracks}
use lite_store.CountMin.Bounds.{occurrences}
use lite_store.Metrics.Rendering.{cumulate}
use lite_store.Metrics.Buckets.{IsIncreasing, bump, counted_step}
use lite_store.Metrics.{
  Floats, bucket_key, MetricsCollector, make_metrics, count_of, count_up, count_of-count_up,
  latency_buckets, observe_command, count_command, observe_latency_bucket, observe_key,
  observe_store_snapshot,
}

abbrev pub HasSum : Dict Text Time → Text → Type 0
HasSum sums name = (t : Time) × (lookup name sums ≡ some t)

-- What the metrics are told: a command with its duration, or the contents of the store.
pub data Observation : Type 0 where
  ran : CommandRequest → Time → Observation
  looked : Dict Text Text → Observation

-- the names of the commands, the last one first
unfoldable pub names : List Observation → List Text
names [] = []
names (ran request duration ∷ events) = command_value request.command ∷ names events
names (looked data_items ∷ events) = names events

-- the first arguments, the last one first
unfoldable pub first_args : List Observation → List Text
first_args [] = []
first_args (ran request duration ∷ events) = take 1 request.args ++ first_args events
first_args (looked data_items ∷ events) = first_args events

-- how many runs of a command took at most this long
unfoldable pub within : Text → Time → List Observation → ℕ
within name bucket [] = 0
within name bucket (ran request duration ∷ events) =
    let before = within name bucket events in
    ite (text_key.decide (command_value request.command) name)
      (if leb duration bucket then before + 1 else before) before
within name bucket (looked data_items ∷ events) = within name bucket events

unfoldable pub bounded : Text → List Time → List Observation → List (Time × ℕ)
unfolding within
bounded name [] events = []
bounded name (bucket ∷ buckets) events =
    (bucket, within name bucket events) ∷ bounded name buckets events

module _ (f : Floats) (h : Hashing) where
  -- the sum of the durations of a command; `none` if it did not run
  unfoldable pub summed : Text → List Observation → Option Time
  summed name [] = none
  summed name (ran request duration ∷ events) =
      let before = summed name events in
      ite (text_key.decide (command_value request.command) name)
        (some (f.add (or_else before (f.literal (text "0.0"))) duration)) before
  summed name (looked data_items ∷ events) = summed name events

  unfoldable pub observe : MetricsCollector → Observation → Option MetricsCollector
  observe m (ran request duration) = observe_command f h m request duration
  observe m (looked data_items) = some (observe_store_snapshot h m data_items)

  -- the metrics after these observations, the last one first; `none` once a call has raised
  unfoldable pub observed : List Observation → Option MetricsCollector
  unfolding observe
  observed [] = some make_metrics
  observed (event ∷ events) = elim (observed events) [ none ↦ none | some m ↦ observe m event ]

  -- What the collector has to show after these observations.
  pub record Shows (events : List Observation) (m : MetricsCollector) : Type 0 where
    pub total : m.throughput_total ≡ length (names events)
    pub requests :
        (name : Text) → count_of name m.throughput_by_command ≡ occurrences name (names events)
    pub latencies :
        (name : Text) → count_of name m.latency_count_by_command ≡ occurrences name (names events)
    pub seconds : (name : Text) → lookup name m.latency_sum_by_command ≡ summed name events
    pub histogram :
        (name : Text)
        → cumulate 0 (latency_buckets f) (or_else (lookup name m.latency_bucket_counts) [])
          ≡ bounded name (latency_buckets f) events
    pub sums : All (λ entry. HasSum m.latency_sum_by_command entry.0) m.latency_count_by_command
    pub hot : Tracks h 100 2048 4 (first_args events) m.hot_key_tracker

  nothing_bounded : (name : Text) (bs : List Time) → cumulate 0 bs [] ≡ bounded name bs []
  unfolding cumulate bounded count_of lookup
  nothing_bounded name [] = refl
  nothing_bounded name (b ∷ bs) = ap (λ l. (b, 0) ∷ l) (nothing_bounded name bs)

  made-Shows : Shows [] make_metrics
  made-Shows =
      unfold occurrences names summed first_args in
      record {
        total = refl;
        requests = λ name. unfold count_of lookup in refl;
        latencies = λ name. unfold count_of lookup in refl;
        seconds = λ name. lookup-nil name;
        histogram = λ name. unfold lookup in nothing_bounded name (latency_buckets f);
        sums = tt;
        hot = made-Tracks h 100 2048 4;
      }

  bounded_ran :
      (name : Text) (bs : List Time) (request : CommandRequest) (d : Time)
      (events : List Observation)
      → command_value request.command ≡ name
      → bounded name bs (ran request d ∷ events) ≡ bump d (bounded name bs events)
  unfolding bounded bump
  bounded_ran name [] request d events same = refl
  bounded_ran name (b ∷ bs) request d events same =
      ground (arith, bounded_ran name bs request d events same)

  bounded_looked :
      (name : Text) (bs : List Time) (data_items : Dict Text Text) (events : List Observation)
      → bounded name bs (looked data_items ∷ events) ≡ bounded name bs events
  unfolding bounded
  bounded_looked name [] data_items events = refl
  bounded_looked name (b ∷ bs) data_items events =
      ap (λ l. (b, within name b events) ∷ l) (bounded_looked name bs data_items events)

  bounded_other :
      (name : Text) (bs : List Time) (request : CommandRequest) (d : Time)
      (events : List Observation)
      → command_value request.command ≢ name
      → bounded name bs (ran request d ∷ events) ≡ bounded name bs events
  unfolding bounded
  bounded_other name [] request d events other = refl
  bounded_other name (b ∷ bs) request d events other =
      ground (arith, bounded_other name bs request d events other)

  module _ (event_before : List Observation) (m : MetricsCollector) (s : Shows event_before m) where
    key_observed :
        (args : List Text)
        → (t : TopKTracker) × (observe_key h m.hot_key_tracker args ≡ some t)
          × Tracks h 100 2048 4 (take 1 args ++ first_args event_before) t
    unfolding observe_key
    key_observed [] = (m.hot_key_tracker, refl, s.hot)
    key_observed (key ∷ args) =
        record_key-Tracks h 100 2048 4 (first_args event_before) key m.hot_key_tracker s.hot
          (omega arith) (omega arith)

    sum_kept :
        (name command_name : Text) (t : Time)
        → HasSum m.latency_sum_by_command name
        → HasSum (insert command_name t m.latency_sum_by_command) name
    sum_kept name command_name t (u, had) = elim (text_key.decide command_name name) [
      | yes e ↦
          (t, rw (lookup-insert command_name name t m.latency_sum_by_command, if_pos _ e) refl)
      | no e ↦ (u, rw (lookup-insert command_name name t m.latency_sum_by_command, if_neg _ e) had)
    ]

    sums_counted :
        (command_name : Text) (t : Time)
        → All
            (λ entry. HasSum (insert command_name t m.latency_sum_by_command) entry.0)
            (count_up command_name 1 m.latency_count_by_command)
    unfolding count_up
    sums_counted command_name t =
        All-insert (HasSum (insert command_name t m.latency_sum_by_command)) command_name _
          m.latency_count_by_command
          (t, ground (arith, lookup-insert command_name command_name t m.latency_sum_by_command))
          (All-weaken {P = λ entry. HasSum m.latency_sum_by_command entry.0}
            m.latency_count_by_command (λ entry had. sum_kept entry.0 command_name t had) s.sums)

    observe-Shows :
        (event : Observation)
        → IsIncreasing (latency_buckets f)
        → (m' : MetricsCollector) × (observe m event ≡ some m') × Shows (event ∷ event_before) m'
    unfolding observe
    observe-Shows (looked data_items) inc = (
      observe_store_snapshot h m data_items,
      refl,
      unfold observe_store_snapshot names first_args summed in
          record {
            total = s.total;
            requests = s.requests;
            latencies = s.latencies;
            seconds = s.seconds;
            histogram = λ name.
                unfold observe_store_snapshot in
                s.histogram name
                ∙ sym (bounded_looked name (latency_buckets f) data_items event_before);
            sums = s.sums;
            hot = s.hot;
          },
    )
    observe-Shows (ran request d) inc =
        let (t, kept, hot) = key_observed request.args in
        (
          count_command f m (command_value request.command) d t,
          unfold observe_command in rw kept refl,
          unfold count_command names first_args summed occurrences in
              record {
                total = omega (arith, s.total);
                requests = λ name. ground (
                  arith,
                  count_of-count_up (command_value request.command) name 1 m.throughput_by_command,
                  s.requests name,
                  s.requests (command_value request.command),
                );
                latencies = λ name. ground (
                  arith,
                  count_of-count_up (command_value request.command) name 1
                      m.latency_count_by_command,
                  s.latencies name,
                  s.latencies (command_value request.command),
                );
                seconds = λ name. ground (
                  arith,
                  lookup-insert (command_value request.command) name
                      (f.add
                        (or_else (lookup (command_value request.command) m.latency_sum_by_command)
                          (f.literal (text "0.0")))
                        d)
                      m.latency_sum_by_command,
                  s.seconds name,
                  s.seconds (command_value request.command),
                );
                histogram = λ name.
                    unfold observe_latency_bucket in
                    counted_step (latency_buckets f) inc d name (command_value request.command)
                      m.latency_bucket_counts _ _ (s.histogram name)
                      (bounded_ran name (latency_buckets f) request d event_before)
                      (bounded_other name (latency_buckets f) request d event_before);
                sums = sums_counted (command_value request.command) _;
                hot = hot;
              },
        )

  pub observed-Shows :
      IsIncreasing (latency_buckets f)
      → (events : List Observation)
      → (m : MetricsCollector) × (observed events ≡ some m) × Shows events m
  unfolding observed
  observed-Shows inc [] = (make_metrics, refl, made-Shows)
  observed-Shows inc (event ∷ events) =
      let before = observed-Shows inc events in
      let step = observe-Shows events before.0 before.2 event inc in
      (step.0, rw before.1 step.1, step.2)
