-- ===== src/Config.antt =====
-- The configuration of src/config.py.
use lite_store.Base.{Bool, true, ℤ, pos}
use lite_store.Base.Text.{Text, text}
use lite_store.Clock.{Time}
use lite_store.Metrics.{Floats}

-- `aof_path` is the text of the path.
pub record LiteStoreConfig : Type 0 where
  pub host : Text
  pub port : ℤ
  pub metrics_host : Text
  pub metrics_port : ℤ
  pub worker_count : ℤ
  pub aof_path : Text
  pub metrics_refresh_interval_seconds : Time
  pub use_multiprocessing : Bool

-- LiteStoreConfig()
abbrev pub default_config : Floats → LiteStoreConfig
default_config f = record {
  host = text "127.0.0.1";
  port = pos 6379;
  metrics_host = text "127.0.0.1";
  metrics_port = pos 9100;
  worker_count = pos 4;
  aof_path = text "data/litestore.aof";
  metrics_refresh_interval_seconds = f.literal (text "5.0");
  use_multiprocessing = true;
}
