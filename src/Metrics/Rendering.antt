-- ===== src/Metrics/Rendering.antt =====
-- What `render_prometheus` of src/metrics.py writes.
use lite_store.Base.{
  ℕ, ◌+◌, Option, none, some, List, [], ◌∷◌, ◌++◌, map, ◌==◌, if◌then◌else◌, or_else,
}
use lite_store.Base.Text.{Text, text, text_key, text_leb, decimal}
use lite_store.Base.Dict.{Dict, lookup}
use lite_store.Clock.{Time}
use lite_store.CountMin.TopK.{top_k}
use lite_store.Metrics.{Floats, bucket_key, MetricsCollector, count_of, latency_buckets}

-- s.replace(old, new), for a text `old` of one character
unfoldable pub replace : ℕ → Text → Text → Text
replace old new [] = []
replace old new (c ∷ s) = if c == old then new ++ replace old new s else c ∷ replace old new s

-- _escape_label_value; the characters are the line feed, the quote and the backslash
unfoldable pub escape_label_value : Text → Text
unfolding replace
escape_label_value value =
    replace 10 (text "\\n") (replace 34 (text "\\\"") (replace 92 (text "\\\\") value))

unfoldable pub insert_text : Text → List Text → List Text
unfolding text_leb
insert_text s [] = s ∷ []
insert_text s (t ∷ texts) = if text_leb s t then s ∷ t ∷ texts else t ∷ insert_text s texts

-- sorted(texts)
unfoldable pub sort_texts : List Text → List Text
unfolding insert_text
sort_texts [] = []
sort_texts (s ∷ texts) = insert_text s (sort_texts texts)

-- sorted(d)
abbrev pub sorted_keys : {V : Type 0} → List (Text × V) → List Text
sorted_keys d = sort_texts (map (λ entry. entry.0) d)

-- separator.join(texts)
unfoldable pub join : Text → List Text → Text
join separator [] = []
join separator (s ∷ []) = s
join separator (s ∷ t ∷ texts) = s ++ separator ++ join separator (t ∷ texts)

-- the loop over the buckets, which shows each with the sum of the counts to it
unfoldable pub cumulate : ℕ → List Time → Dict Time ℕ → List (Time × ℕ)
unfolding count_of
cumulate cumulative [] bucket_counts = []
cumulate cumulative (bucket ∷ buckets) bucket_counts =
    let cumulative' = cumulative + count_of bucket bucket_counts in
    (bucket, cumulative') ∷ cumulate cumulative' buckets bucket_counts

abbrev pub request_line : Text → ℕ → Text
request_line command_name count =
    text "litestore_command_requests_total{command=\""
    ++ command_name
    ++ text "\"} "
    ++ decimal count

abbrev pub hot_key_line : Text × ℕ → Text
hot_key_line (key, count) =
    text "litestore_hot_key_access_total{key=\""
    ++ escape_label_value key
    ++ text "\"} "
    ++ decimal count

abbrev pub memory_line : Text → ℕ → Text
memory_line prefix total =
    text "litestore_memory_by_prefix_bytes{prefix=\""
    ++ escape_label_value prefix
    ++ text "\"} "
    ++ decimal total

module _ (f : Floats) where
  abbrev pub bucket_line : Text → Time × ℕ → Text
  bucket_line command_name (bucket, cumulative) =
      text "litestore_command_latency_seconds_bucket{command=\""
      ++ command_name
      ++ text "\",le=\""
      ++ f.str bucket
      ++ text "\"} "
      ++ decimal cumulative

  -- the lines of one command, by its cumulative counts and its sum; `none` for a KeyError
  unfoldable pub histogram_lines : Text → List (Time × ℕ) → ℕ → Option Time → Option (List Text)
  histogram_lines command_name counts total_count none = none
  histogram_lines command_name counts total_count (some seconds) = some (
      map (bucket_line command_name) counts
      ++ (text "litestore_command_latency_seconds_bucket{command=\""
          ++ command_name
          ++ text "\",le=\"+Inf\"} "
          ++ decimal total_count)
        ∷ (text "litestore_command_latency_seconds_count{command=\""
            ++ command_name
            ++ text "\"} "
            ++ decimal total_count)
        ∷ (text "litestore_command_latency_seconds_sum{command=\""
            ++ command_name
            ++ text "\"} "
            ++ f.str seconds)
        ∷ [])

  module _ (m : MetricsCollector) where
    unfoldable pub command_lines : Text → Option (List Text)
    unfolding histogram_lines cumulate
    command_lines command_name =
        histogram_lines command_name
          (cumulate 0 (latency_buckets f)
            (or_else (lookup command_name m.latency_bucket_counts) []))
          (count_of command_name m.latency_count_by_command)
          (lookup command_name m.latency_sum_by_command)

    -- the lines of one command before those of the later ones
    unfoldable pub before_lines : Option (List Text) → Option (List Text) → Option (List Text)
    before_lines (some first) (some later) = some (first ++ later)
    before_lines _ _ = none

    -- the loop over the commands
    unfoldable pub latency_lines : List Text → Option (List Text)
    unfolding command_lines before_lines
    latency_lines [] = some []
    latency_lines (command_name ∷ command_names) =
        before_lines (command_lines command_name) (latency_lines command_names)

    -- `render_prometheus`, by the lines of the latencies
    unfoldable pub render_lines : Option (List Text) → Option Text
    unfolding join sort_texts escape_label_value top_k
    render_lines none = none
    render_lines (some latency) = some (
        join (10 ∷ []) (
          text "# HELP litestore_commands_total Total number of executed commands."
            ∷ text "# TYPE litestore_commands_total counter"
            ∷ (text "litestore_commands_total " ++ decimal m.throughput_total)
            ∷ text "# HELP litestore_command_requests_total Total requests by command."
            ∷ text "# TYPE litestore_command_requests_total counter"
            ∷ map (λ name. request_line name (count_of name m.throughput_by_command))
                (sorted_keys m.throughput_by_command)
          ++ text "# HELP litestore_command_latency_seconds Command latency by command."
            ∷ text "# TYPE litestore_command_latency_seconds histogram"
            ∷ latency
          ++ text "# HELP litestore_hot_key_access_total Access count by key."
            ∷ text "# TYPE litestore_hot_key_access_total gauge"
            ∷ map hot_key_line (top_k m.hot_key_tracker)
          ++ text "# HELP litestore_memory_by_prefix_bytes Approximate memory used by key prefix."
            ∷ text "# TYPE litestore_memory_by_prefix_bytes gauge"
            ∷ map (λ prefix. memory_line prefix (count_of prefix m.memory_by_prefix_bytes))
                (sorted_keys m.memory_by_prefix_bytes))
        ++ 10 ∷ [])

    unfoldable pub render_prometheus : Option Text
    unfolding latency_lines render_lines
    render_prometheus = render_lines (latency_lines (sorted_keys m.latency_count_by_command))
