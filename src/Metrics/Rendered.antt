-- ===== src/Metrics/Rendered.antt =====
-- The text of the metrics: that it is written, and what it has for a command.
use lite_store.Base.{
  ℕ, ◌≡◌, refl, some, List, [], ◌∷◌, ◌++◌, map, All, All-map_of, if◌then◌else◌, Bool, true, false,
}
use lite_store.Base.Text.{Text, text_key, text_leb}
use lite_store.Clock.{Time}
use lite_store.Router.{Hashing}
use lite_store.CountMin.Bounds.{occurrences}
use lite_store.Metrics.{Floats, MetricsCollector, latency_buckets}
use lite_store.Metrics.Rendering.{
  insert_text, sort_texts, histogram_lines, command_lines, before_lines, latency_lines,
  render_lines, render_prometheus,
}
use lite_store.Metrics.Buckets.{IsIncreasing}
use lite_store.Metrics.Histogram.{
  Observation, observed, observed-Shows, Shows, bounded, HasSum, names, summed,
}

module _ (P : Text → Type 0) where
  All-insert_text : (s : Text) (texts : List Text) → P s → All P texts → All P (insert_text s texts)
  unfolding insert_text
  All-insert_text s [] p h = (p, tt)
  All-insert_text s (t ∷ texts) p h =
      either (text_leb s t) (s ∷ t ∷ texts) (t ∷ insert_text s texts) (p, h)
        (h.0, All-insert_text s texts p h.1)
    where
      either : (b : Bool) (x y : List Text) → All P x → All P y → All P (if b then x else y)
      either true x y hx hy = hx
      either false x y hx hy = hy

  All-sort_texts : (texts : List Text) → All P texts → All P (sort_texts texts)
  unfolding sort_texts
  All-sort_texts [] h = tt
  All-sort_texts (s ∷ texts) h = All-insert_text s (sort_texts texts) h.0 (All-sort_texts texts h.1)

module _ (f : Floats) (m : MetricsCollector) where
  histogram_written :
      (name : Text) (counts : List (Time × ℕ)) (n : ℕ) (t : Time)
      → (l : List Text) × (histogram_lines f name counts n (some t) ≡ some l)
  unfolding histogram_lines
  histogram_written name counts n t = (_, refl)

  command_lines_written :
      (name : Text)
      → HasSum m.latency_sum_by_command name
      → (l : List Text) × (command_lines f m name ≡ some l)
  unfolding command_lines
  command_lines_written name (t, e) = rw e (histogram_written name _ _ t)

  latency_lines_written :
      (l : List Text)
      → All (HasSum m.latency_sum_by_command) l
      → (lines : List Text) × (latency_lines f m l ≡ some lines)
  unfolding latency_lines before_lines
  latency_lines_written [] h = ([], refl)
  latency_lines_written (name ∷ l) h =
      let first = command_lines_written name h.0 in
      let later = latency_lines_written l h.1 in (first.0 ++ later.0, rw (first.1, later.1) refl)

  lines_rendered : (lines : List Text) → (body : Text) × (render_lines f m (some lines) ≡ some body)
  unfolding render_lines
  lines_rendered lines = (_, refl)

-- The collector after these observations, its text, and what it writes of each command.
pub record Renders (f : Floats) (h : Hashing) (events : List Observation) : Type 0 where
  pub collector : MetricsCollector
  pub body : Text
  pub reached : observed f h events ≡ some collector
  pub shows : Shows f h events collector
  pub rendered : render_prometheus f collector ≡ some body
  pub of_command :
      (name : Text)
      → command_lines f collector name
        ≡ histogram_lines f name
            (bounded name (latency_buckets f) events)
            (occurrences name (names events))
            (summed f h name events)

-- Whatever commands run for whatever times, and whatever snapshots of the store come between them: no
-- call of the collector raises. Its totals are the numbers of runs, its sums the sums of their
-- durations, its tracker has what the tracker promises for the first arguments, and
-- `render_prometheus` returns a text, in which a command has for each bucket the number of its runs
-- that took at most so long. The floats of the buckets are assumed to increase.
pub render_prometheus-Renders :
    (f : Floats) (h : Hashing)
    → IsIncreasing (latency_buckets f)
    → (events : List Observation) → Renders f h events
unfolding render_prometheus
render_prometheus-Renders f h inc events =
    let (m, reached, shows) = observed-Shows f h inc events in
    let keys = map (λ entry. entry.0) m.latency_count_by_command in
    let (lines, written) = latency_lines_written f m (sort_texts keys) (
      All-sort_texts (HasSum m.latency_sum_by_command) keys (
        All-map_of (HasSum m.latency_sum_by_command) (λ entry. entry.0) m.latency_count_by_command
          shows.sums)) in
    let (body, rendered) = lines_rendered f m lines in
    record {
      collector = m;
      body = body;
      reached = reached;
      shows = shows;
      rendered = rw written rendered;
      of_command = λ name.
          unfold command_lines in
          rw (shows.histogram name, shows.latencies name, shows.seconds name) refl;
    }
