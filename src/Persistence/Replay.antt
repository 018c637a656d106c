-- ===== src/Persistence/Replay.antt =====
-- Replay of the log: what was appended is read again, in order.
use mathlib.Core.List.{append_assoc, append-nil}
use lite_store.Base.{
  ◌+◌, ◌≡◌, ◌≢◌, ◌⊎◌, inl, inr, ◌∙◌, sym, refl, ap, false, ◌||◌, some, List, [], ◌∷◌, ◌++◌, arith,
  ◌==◌, All,
}
use lite_store.Base.Text.{Text, Text-discrete, strip}
use lite_store.Types.{
  FsyncPolicy, never, always, every_n, CommandName, PersistRecord, command_value,
}
use lite_store.Persistence.{
  AofPersistence, JsonLib, append, apply_policy, replay, replay_line, replay_lines, lines,
  lines_from, payload, parse_record_line, record_of_json, record_of, bare_request, as_strs,
  json_args, command_of, all_commands, get_field, as_args,
}

-- A record as it is read: the ids of the request are not written.
abbrev pub bare : PersistRecord → PersistRecord
bare r = record { sequence = r.sequence; request = bare_request r.request.command r.request.args }

as_strs-json_args : (args : List Text) → as_strs (json_args args) ≡ some args
unfolding as_strs json_args
as_strs-json_args [] = refl
as_strs-json_args (a ∷ args) = rw (as_strs-json_args args)

command_of-value : (name : CommandName) → command_of all_commands (command_value name) ≡ some name
unfolding command_of Text-discrete
command_of-value CommandName.ping = refl
command_of-value _ = refl

-- The payload of a record decodes to the record.
record_of_json-payload : (r : PersistRecord) → record_of_json (payload r) ≡ some (bare r)
record_of_json-payload r =
    let name = r.request.command in
    let args = r.request.args in
    unfold record_of_json payload get_field as_args Text-discrete in
    λ i. record_of (some r.sequence) (command_of-value name i) (as_strs-json_args args i)

lines_from-append :
    (s t : Text) → lines_from (s ++ 10 ∷ t) ≡ ((lines_from s).0, (lines_from s).1 ++ lines t)
unfolding lines_from lines
lines_from-append [] t = refl
lines_from-append (c ∷ s) t = ground (arith, lines_from-append s t)

abbrev first_and_rest : Text × List Text → List Text
first_and_rest p = p.0 ∷ p.1

lines-append : (s t : Text) → lines (s ++ 10 ∷ t) ≡ lines s ++ lines t
lines-append s t = unfold lines in ap first_and_rest (lines_from-append s t)

-- What the program uses of JSON for one record: it is printed on one line, without white space
-- around it, and is read back.
pub record IsPrinted (json : JsonLib) (r : PersistRecord) : Type 0 where
  pub read_back : json.loads (json.dumps (payload r)) ≡ some (payload r)
  pub one_line : All (λ c. (c == 10 || c == 13) ≡ false) (json.dumps (payload r))
  pub stripped : strip (json.dumps (payload r)) ≡ json.dumps (payload r)
  pub visible : json.dumps (payload r) ≢ []

-- The log ends at a line end, as every append leaves it.
abbrev pub IsClosed : Text → Type 0
IsClosed s = (s ≡ []) ⊎ ((u : Text) × (s ≡ u ++ 10 ∷ []))

lines_of_line : (s : Text) → All (λ c. (c == 10 || c == 13) ≡ false) s → lines_from s ≡ (s, [])
unfolding lines_from
lines_of_line [] h = refl
lines_of_line (c ∷ s) h = ground (arith, lines_of_line s h.1)

module _ (json : JsonLib) where
  replay_lines-append :
      (xs ys : List Text)
      → replay_lines json (xs ++ ys) ≡ replay_lines json xs ++ replay_lines json ys
  unfolding replay_lines
  replay_lines-append [] ys = refl
  replay_lines-append (x ∷ xs) ys = ground (arith, replay_lines-append xs ys)

  module _ (r : PersistRecord) (printed : IsPrinted json r) where
    abbrev line : Text
    line = json.dumps (payload r)

    lines_of_printed : lines (line ++ 10 ∷ []) ≡ line ∷ [] ∷ []
    lines_of_printed =
        lines-append line []
        ∙ unfold lines in
          ap (λ (l : List Text). l ++ [] ∷ [])
            (ap first_and_rest (lines_of_line line printed.one_line))

    replay_printed : replay_lines json (line ∷ []) ≡ bare r ∷ []
    replay_printed =
        unfold replay_lines in (ap (λ l. replay_line json l []) printed.stripped ∙ go line refl)
      where
        parsed : parse_record_line json line ≡ some (bare r)
        parsed =
            unfold parse_record_line in ground (arith, printed.read_back, record_of_json-payload r)

        go : (l : Text) → line ≡ l → replay_line json line [] ≡ bare r ∷ []
        go [] e = absurd (printed.visible e)
        go (c ∷ l) e =
            let same : parse_record_line json (c ∷ l) ≡ some (bare r) =
              ap (parse_record_line json) (sym e) ∙ parsed in
            ap (λ x. replay_line json x []) e ∙ unfold replay_line in ground (arith, same)

    blank : replay_lines json ([] ∷ []) ≡ []
    blank = unfold replay_lines strip in refl

    none_in_empty : replay_lines json (lines []) ≡ []
    none_in_empty = unfold lines in blank

    replay_last : replay_lines json (line ∷ [] ∷ []) ≡ bare r ∷ []
    replay_last =
        replay_lines-append (line ∷ []) ([] ∷ [])
        ∙ cc (replay_printed, blank, append-nil (replay_lines json (line ∷ [])))

    -- One more append is one more record of the replay.
    pub replay_of_append :
        (s : Text)
        → IsClosed s
        → replay_lines json (lines (s ++ (line ++ 10 ∷ [])))
          ≡ replay_lines json (lines s) ++ bare r ∷ []
    replay_of_append s (inl empty) =
        rw empty
          (rw lines_of_printed (replay_last ∙ ap (λ l. l ++ bare r ∷ []) (sym none_in_empty)))
    replay_of_append s (inr (u, closed)) =
        let before = lines u in
        let grown : lines (s ++ (line ++ 10 ∷ [])) ≡ before ++ line ∷ [] ∷ [] =
          ap lines
            (ap (λ x. x ++ (line ++ 10 ∷ [])) closed ∙ append_assoc u (10 ∷ []) (line ++ 10 ∷ []))
          ∙ lines-append u (line ++ 10 ∷ [])
          ∙ ap (λ l. before ++ l) lines_of_printed in
        let old : replay_lines json (lines s) ≡ replay_lines json before =
          ap (λ x. replay_lines json (lines x)) closed
          ∙ ap (replay_lines json) (lines-append u [])
          ∙ replay_lines-append before (lines [])
          ∙ ap (λ l. replay_lines json before ++ l) none_in_empty
          ∙ append-nil (replay_lines json before) in
        ap (replay_lines json) grown
        ∙ replay_lines-append before (line ∷ [] ∷ [])
        ∙ ap (λ l. replay_lines json before ++ l) replay_last
        ∙ ap (λ l. l ++ bare r ∷ []) (sym old)

  content-append :
      (p : AofPersistence) (r : PersistRecord)
      → (append json p r).content ≡ p.content ++ (json.dumps (payload r) ++ 10 ∷ [])
  unfolding append
  content-append p r = go p.fsync_policy
    where
      line : Text
      line = json.dumps (payload r)

      go :
          (policy : FsyncPolicy)
          → (apply_policy json policy (record p {
            content = p.content ++ (line ++ 10 ∷ []);
            unsynced = p.unsynced ++ (line ++ 10 ∷ []) ∷ [];
            writes_since_fsync = p.writes_since_fsync + 1;
          })).content
            ≡ p.content ++ (line ++ 10 ∷ [])
      go never = unfold apply_policy in refl
      go always = unfold apply_policy in refl
      go every_n = unfold apply_policy in ground arith

  -- If JSON prints the record on one line that it reads back, and the log ends at a line end:
  -- after `append` the replay has the same records as before, then this one without its ids,
  -- and the log ends at a line end again.
  pub replay-append :
      (p : AofPersistence) (r : PersistRecord)
      → IsPrinted json r
      → IsClosed p.content
      → (replay json (append json p r) ≡ replay json p ++ bare r ∷ [])
        × IsClosed (append json p r).content
  replay-append p r printed closed =
      let line = json.dumps (payload r) in
      let grown = content-append p r in
      (
        unfold replay in
            (ap (λ s. replay_lines json (lines s)) grown
              ∙ replay_of_append r printed p.content closed),
        inr (p.content ++ line, grown ∙ sym (append_assoc p.content line (10 ∷ []))),
      )
