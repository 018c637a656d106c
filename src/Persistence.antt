-- ===== src/Persistence.antt =====
-- The append-only log of src/persistence.py.
--
-- The file is its text, with the lines that were appended and not yet synced to the disk: `unsynced`.
-- What the file had when it was opened may not be on the disk either, and is not among them. Reading a
-- file line by line ends a line at each line feed or carriage return. `json.dumps` and `json.loads`
-- are parameters; errors of the operating system are not modelled.
pub mod Durability
pub mod Replay
use lite_store.Base.{
  ℕ, zero, suc, ◌+◌, ◌≡◌, Bool, true, false, not, ◌||◌, ◌&&◌, Option, none, some, List, [], ◌∷◌,
  ◌++◌, ite, length, leb, ltb, ◌==◌, if◌then◌else◌, ℤ, pos, negsuc, ltb_ℤ, next,
}
use lite_store.Base.Text.{Text, text, Text-discrete, text_key, strip}
use lite_store.Types.{
  CommandName, command_value, CommandRequest, PersistRecord, FsyncPolicy, never, always, every_n,
}

-- A JSON value, as `json.loads` builds it. A number that is no integer has no content here, since
-- the program only refuses it.
mutual
  pub data Json : Type 0 where
    null : Json
    bool : Bool → Json
    int : ℤ → Json
    float : Json
    str : Text → Json
    array : Items → Json
    object : Fields → Json

  pub data Items : Type 0 where
    nil : Items
    cons : Json → Items → Items

  pub data Fields : Type 0 where
    end : Fields
    field : Text → Json → Fields → Fields

pub record JsonLib : Type 0 where
  -- json.dumps(value, ensure_ascii=True)
  pub dumps : Json → Text
  -- json.loads(text), with `none` for JSONDecodeError
  pub loads : Text → Option Json

-- data.get(name); the keys of a loaded object are distinct
unfoldable pub get_field : Text → Fields → Option Json
get_field name end = none
get_field name (field key value fields) =
    ite (Text-discrete key name) (some value) (get_field name fields)

-- isinstance(value, int); a `bool` of Python is an int
abbrev pub as_int : Option Json → Option ℤ
as_int (some (int n)) = some n
as_int (some (bool true)) = some (pos 1)
as_int (some (bool false)) = some (pos 0)
as_int _ = none

abbrev pub as_str : Option Json → Option Text
as_str (some (str s)) = some s
as_str _ = none

-- all(isinstance(item, str) for item in items)
unfoldable pub as_strs : Items → Option (List Text)
as_strs nil = some []
as_strs (cons (str s) items) = elim (as_strs items) [ none ↦ none | some l ↦ some (s ∷ l) ]
as_strs (cons _ items) = none

unfoldable pub as_args : Option Json → Option (List Text)
unfolding as_strs
as_args (some (array items)) = as_strs items
as_args _ = none

-- CommandName(raw), with `none` for its ValueError
unfoldable pub command_of : List CommandName → Text → Option CommandName
command_of [] raw = none
command_of (name ∷ names) raw =
    ite (Text-discrete (command_value name) raw) (some name) (command_of names raw)

abbrev pub all_commands : List CommandName
all_commands =
    CommandName.ping ∷ CommandName.set ∷ CommandName.get ∷ CommandName.del ∷ CommandName.expire
    ∷ CommandName.ttl ∷ CommandName.mget ∷ CommandName.keys ∷ CommandName.flushall ∷ []

abbrev pub bare_request : CommandName → List Text → CommandRequest
bare_request name args = record { command = name; args = args; request_id = none; client_id = none }

-- the tests of `_parse_record_line` on the three fields, in their order
abbrev pub record_of : Option ℤ → Option CommandName → Option (List Text) → Option PersistRecord
record_of (some n) (some name) (some args) =
    some (record { sequence = n; request = bare_request name args })
record_of _ _ _ = none

unfoldable pub record_of_json : Json → Option PersistRecord
unfolding get_field as_args command_of
record_of_json (object fields) =
    record_of (as_int (get_field (text "sequence") fields))
      (elim (as_str (get_field (text "command") fields)) [
        | none ↦ none
        | some raw ↦ command_of all_commands raw
      ])
      (as_args (get_field (text "args") fields))
record_of_json _ = none

-- the elements of `list(request.args)`
unfoldable pub json_args : List Text → Items
json_args [] = nil
json_args (a ∷ args) = cons (str a) (json_args args)

-- the payload of `append`
unfoldable pub payload : PersistRecord → Json
unfolding json_args
payload r = object (
    field (text "sequence") (int r.sequence) (
      field (text "command") (str (command_value r.request.command))
        (field (text "args") (array (json_args r.request.args)) end)))

-- The lines of a text, without their ends. The last one is the text after the last line end.
unfoldable pub lines_from : Text → Text × List Text
lines_from [] = ([], [])
lines_from (c ∷ s) =
    let (line, lines) = lines_from s in
    if c == 10 || c == 13 then ([], line ∷ lines) else (c ∷ line, lines)

unfoldable pub lines : Text → List Text
unfolding lines_from
lines s = let (line, rest) = lines_from s in line ∷ rest

pub record AofPersistence : Type 0 where
  pub content : Text
  pub unsynced : List Text
  pub next_sequence : ℤ
  pub fsync_policy : FsyncPolicy
  pub fsync_every_n : ℕ
  pub writes_since_fsync : ℕ

-- os.fsync(self._file.fileno()) and self._writes_since_fsync = 0
unfoldable pub fsync : AofPersistence → AofPersistence
fsync p = record p { unsynced = []; writes_since_fsync = 0 }

module _ (json : JsonLib) where
  -- _parse_record_line
  unfoldable pub parse_record_line : Text → Option PersistRecord
  unfolding record_of_json
  parse_record_line line = elim (json.loads line) [
    | none ↦ none
    | some value ↦ record_of_json value
  ]

  -- the body of the loop of `replay` for one stripped line, before the records of the later lines
  unfoldable pub replay_line : Text → List PersistRecord → List PersistRecord
  replay_line [] found = found
  replay_line (c ∷ line) found = elim (parse_record_line (c ∷ line)) [
    | none ↦ found
    | some r ↦ r ∷ found
  ]

  -- the loop of `replay`
  unfoldable pub replay_lines : List Text → List PersistRecord
  unfolding replay_line
  replay_lines [] = []
  replay_lines (raw ∷ rest) = replay_line (strip raw) (replay_lines rest)

  unfoldable pub replay : AofPersistence → List PersistRecord
  unfolding replay_lines lines
  replay p = replay_lines (lines p.content)

  -- the loop of `_discover_next_sequence`
  unfoldable pub max_sequence : ℤ → List Text → ℤ
  max_sequence n [] = n
  max_sequence n (raw ∷ rest) = elim (parse_record_line (strip raw)) [
    | none ↦ max_sequence n rest
    | some r ↦ max_sequence (if ltb_ℤ n r.sequence then r.sequence else n) rest
  ]

  -- AofPersistence(file_path, fsync_policy, fsync_every_n), on a file with this content
  unfoldable pub make_persistence : Text → FsyncPolicy → ℕ → AofPersistence
  unfolding max_sequence lines
  make_persistence content policy n = record {
    content = content;
    unsynced = [];
    next_sequence = next (max_sequence (negsuc 0) (lines content));
    fsync_policy = policy;
    fsync_every_n = n;
    writes_since_fsync = 0;
  }

  -- the last `if` of `append`
  unfoldable pub apply_policy : FsyncPolicy → AofPersistence → AofPersistence
  unfolding fsync
  apply_policy always p = fsync p
  apply_policy every_n p = if leb p.fsync_every_n p.writes_since_fsync then fsync p else p
  apply_policy never p = p

  unfoldable pub append : AofPersistence → PersistRecord → AofPersistence
  unfolding apply_policy payload
  append p r = apply_policy p.fsync_policy (record p {
    content = p.content ++ (json.dumps (payload r) ++ 10 ∷ []);
    unsynced = p.unsynced ++ (json.dumps (payload r) ++ 10 ∷ []) ∷ [];
    writes_since_fsync = p.writes_since_fsync + 1;
  })

  unfoldable pub append_request : AofPersistence → CommandRequest → AofPersistence × PersistRecord
  unfolding append
  append_request p request =
      let r : PersistRecord = record { sequence = p.next_sequence; request = request } in
      (record (append p r) { next_sequence = next p.next_sequence }, r)

  unfoldable pub force_fsync : AofPersistence → AofPersistence
  unfolding fsync
  force_fsync p = fsync p

  -- close, of which the program keeps the file
  unfoldable pub close : AofPersistence → AofPersistence
  unfolding fsync
  close p = elim p.fsync_policy [
    | never ↦ p
    | _ ↦ if ltb 0 p.writes_since_fsync then record p { unsynced = [] } else p
  ]
