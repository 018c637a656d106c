-- ===== src/Tests/Programs.antt =====
-- The whole program on the default configuration.
use lite_store.Base.Text.{Text}
use lite_store.Store.{MemoryStore}
use lite_store.Main.{Runtime}
use lite_store.Main.Runs.{Runs}
use lite_store.Tests.Servers.{json_text}

-- A log with one record.
abbrev files : Text → Text
files path = json_text

abbrev serve : Runtime MemoryStore → Runtime MemoryStore
serve rt = rt
