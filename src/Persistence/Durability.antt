-- ===== src/Persistence/Durability.antt =====
-- How much of the log is on the disk, by the fsync policy.
use mathlib.Core.List.{append_assoc, append-nil}
use lite_store.Base.{
  ℕ, ◌+◌, ◌≡◌, ◌∙◌, ◌≤◌, ◌<◌, ◌≢◌, ◌++◌, List, [], ◌∷◌, refl, ap, sym, arith, length, length-append,
  if-elim, if◌then◌else◌, leb, ltb, Bool, true, false,
}
use lite_store.Base.Text.{Text}
use lite_store.Types.{FsyncPolicy, never, always, every_n, PersistRecord, CommandRequest}
use lite_store.Persistence.{
  AofPersistence, JsonLib, append, apply_policy, append_request, make_persistence, close, payload,
  fsync,
}

-- these lines, one after the other
unfoldable pub joined : List Text → Text
joined [] = []
joined (line ∷ rest) = line ++ joined rest

joined-append : (xs : List Text) (line : Text) → joined (xs ++ line ∷ []) ≡ joined xs ++ line
unfolding joined
joined-append [] line = append-nil line
joined-append (x ∷ xs) line =
    ap (λ t. x ++ t) (joined-append xs line) ∙ sym (append_assoc x (joined xs) line)

-- What the open log keeps between calls: the lines that were appended and are not on the disk are the
-- last of the file, the counter is not below their number, and the policy bounds it: with ALWAYS there
-- are none, and with EVERY_N and N positive they are fewer than N.
pub record IsLogged (p : AofPersistence) : Type 0 where
  pub last : (earlier : Text) × (p.content ≡ earlier ++ joined p.unsynced)
  pub counted : length p.unsynced ≤ p.writes_since_fsync
  pub always_synced : p.fsync_policy ≡ always → p.writes_since_fsync ≡ 0
  pub bounded :
      p.fsync_policy ≡ every_n → 0 < p.fsync_every_n → p.writes_since_fsync < p.fsync_every_n

no_lines : (l : List Text) → length l ≤ 0 → l ≡ []
no_lines [] le = refl
no_lines (x ∷ l) le = absurd (omega arith)

-- With ALWAYS, no line that was appended is still to reach the disk.
pub always_synced_lines :
    (p : AofPersistence) → IsLogged p → p.fsync_policy ≡ always → p.unsynced ≡ []
always_synced_lines p h e = no_lines p.unsynced (omega (arith, h.counted, h.always_synced e))

pub make_persistence-IsLogged :
    (json : JsonLib) (content : Text) (policy : FsyncPolicy) (n : ℕ)
    → IsLogged (make_persistence json content policy n)
unfolding make_persistence joined
make_persistence-IsLogged json content policy n = record {
  last = (content, sym (append-nil content));
  counted = omega arith;
  always_synced = λ e. refl;
  bounded = λ e some_n. some_n;
}

module _ (json : JsonLib) (p : AofPersistence) where
  abbrev with_line : Text → AofPersistence
  with_line line = record p {
    content = p.content ++ line;
    unsynced = p.unsynced ++ line ∷ [];
    writes_since_fsync = p.writes_since_fsync + 1;
  }

  grown :
      (line : Text)
      → IsLogged p
      → (earlier : Text) × (p.content ++ line ≡ earlier ++ joined (p.unsynced ++ line ∷ []))
  grown line h = (
    h.last.0,
    ap (λ t. t ++ line) h.last.1
        ∙ append_assoc h.last.0 (joined p.unsynced) line
        ∙ ap (λ t. h.last.0 ++ t) (sym (joined-append p.unsynced line)),
  )

  policy-IsLogged :
      (policy : FsyncPolicy) (line : Text)
      → p.fsync_policy ≡ policy
      → IsLogged p
      → IsLogged (apply_policy json policy (with_line line))
  unfolding apply_policy joined
  policy-IsLogged never line e h = record {
    last = grown line h;
    counted = omega (arith, h.counted, length-append {0} p.unsynced (line ∷ []));
    always_synced = λ other. absurd (cc (e, other));
    bounded = λ other. absurd (cc (e, other));
  }
  policy-IsLogged always line e h = record {
    last = (p.content ++ line, sym (append-nil (p.content ++ line)));
    counted = omega arith;
    always_synced = λ other. refl;
    bounded = λ other. absurd (cc (e, other));
  }
  policy-IsLogged every_n line e h = go (leb p.fsync_every_n (p.writes_since_fsync + 1)) refl
    where
      go :
          (t : Bool)
          → leb p.fsync_every_n (p.writes_since_fsync + 1) ≡ t
          → IsLogged (if t then fsync (with_line line) else with_line line)
      go true full = record {
        last = (p.content ++ line, sym (append-nil (p.content ++ line)));
        counted = omega arith;
        always_synced = λ other. refl;
        bounded = λ other some_n. some_n;
      }
      go false full = record {
        last = grown line h;
        counted = omega (arith, h.counted, length-append {0} p.unsynced (line ∷ []));
        always_synced = λ other. absurd (cc (e, other));
        bounded = λ other some_n. ground (arith, full);
      }

  -- Every append keeps the log within its fsync policy: with ALWAYS every line that was appended since
  -- the log was opened is on the disk, with EVERY_N and N positive fewer than N are not, and these are
  -- the last of the file.
  pub append-IsLogged : (r : PersistRecord) → IsLogged p → IsLogged (append json p r)
  unfolding append
  append-IsLogged r h = policy-IsLogged p.fsync_policy (json.dumps (payload r) ++ 10 ∷ []) refl h

  pub append_request-IsLogged :
      (request : CommandRequest) → IsLogged p → IsLogged (append_request json p request).0
  unfolding append_request
  append_request-IsLogged request h =
      let q = append-IsLogged (record { sequence = p.next_sequence; request = request }) h in
      record {
        last = q.last;
        counted = q.counted;
        always_synced = q.always_synced;
        bounded = q.bounded;
      }

  -- the log after `close` under this policy
  abbrev closed_by : FsyncPolicy → AofPersistence
  closed_by never = p
  closed_by _ = if ltb 0 p.writes_since_fsync then record p { unsynced = [] } else p

  -- Closing the log leaves no line that was appended unsynced, if the policy is not NEVER.
  close_durable : IsLogged p → p.fsync_policy ≢ never → (close json p).unsynced ≡ []
  unfolding close
  close_durable h other = go p.fsync_policy refl
    where
      emptied : ltb 0 p.writes_since_fsync ≡ false → p.unsynced ≡ []
      emptied none_there = no_lines p.unsynced (ground (arith, h.counted, none_there))

      after :
          (t : Bool)
          → ltb 0 p.writes_since_fsync ≡ t
          → (if t then record p { unsynced = [] } else p).unsynced ≡ []
      after true some_there = refl
      after false none_there = emptied none_there

      go : (policy : FsyncPolicy) → p.fsync_policy ≡ policy → (closed_by policy).unsynced ≡ []
      go never e = absurd (other e)
      go always e = after _ refl
      go every_n e = after _ refl

  pub close-IsLogged : IsLogged p → IsLogged (close json p)
  unfolding close joined
  close-IsLogged h = go p.fsync_policy
    where
      synced : IsLogged (record p { unsynced = [] })
      synced = record {
        last = (p.content, sym (append-nil p.content));
        counted = omega arith;
        always_synced = h.always_synced;
        bounded = h.bounded;
      }

      go : (policy : FsyncPolicy) → IsLogged (closed_by policy)
      go never = h
      go always = if-elim IsLogged (ltb 0 p.writes_since_fsync) synced h
      go every_n = if-elim IsLogged (ltb 0 p.writes_since_fsync) synced h
