-- ===== src/Audit.antt =====
-- crates/audit/src/lib.rs: the hash-chained log, one JSON object to a line.
pub mod Lines
pub mod Chain
pub mod Tamper
pub mod Writing
pub mod Restart
pub mod Succeeding
use fips_dropbox.Prelude.{
  ℕ, suc, ◌≡◌, Bool, true, false, Option, none, some, List, [], ◌∷◌, ◌++◌, codes, take, list_eq,
  replicate, reverse, is_empty, filter_by, not, if◌then◌else◌,
}
use fips_dropbox.Text.{Text, as_bytes, trim}
use fips_dropbox.Result
use fips_dropbox.Result.{Result, ok, err, convert}
use fips_dropbox.Effect.{M, pure, lift, gets, modify, maybe, ◌>>=◌, ◌>>◌}
use fips_dropbox.Errors.{AuditError, io, crypto, serde}
use fips_dropbox.Platform.{Platform}
use fips_dropbox.Event.{Event, Log, ChainVerification}
use fips_dropbox.World
use fips_dropbox.World.{World, called}
use fips_dropbox.Crypto
use Lines.{lines}

abbrev pub genesis_hash : Text
genesis_hash = replicate 64 b'0'

unfoldable pub clear_hash : Event → Event
clear_hash ev = record ev { hash = [] }

unfoldable pub ok_or_serde : {A : Type 0} → Option A → Result AuditError A
ok_or_serde none = err serde
ok_or_serde (some a) = ok a

unfoldable pub is_blank : Text → Bool
is_blank line = is_empty (trim line)

abbrev pub broken_at : ℕ → ChainVerification
broken_at i = record { valid = false; break_at = some i; events_checked = i }

abbrev pub contents_of : World → Text
contents_of w = elim w.audit_file [ none ↦ [] | some contents ↦ contents ]

abbrev pub append_text : Text → World → World
append_text text w = record w { audit_file = some (contents_of w ++ text) }

module _ ⦃os : Platform⦄ where
  -- `hex::encode(sha256(canonical))` of a JSON text.
  unfoldable pub digest_text : Text → Result AuditError Text
  digest_text canonical =
      Result.◌>>=◌ (convert crypto (Crypto.sha256 (as_bytes canonical))) λ d. ok (os.hex_encode d)

  -- The hash of an event: of its JSON with an empty hash field.
  unfoldable pub event_hash : Event → Result AuditError Text
  unfolding clear_hash ok_or_serde digest_text
  event_hash ev = Result.◌>>=◌ (ok_or_serde (os.event_to_json (clear_hash ev))) digest_text

  verify_from : Text → ℕ → List Event → Result AuditError ChainVerification
  verify_from expected i [] = ok (record { valid = true; break_at = none; events_checked = i })
  verify_from expected i (ev ∷ events) =
      let rest = verify_from ev.hash (suc i) events in
      if list_eq ev.prev_hash expected
      then Result.◌>>=◌ (event_hash ev)
          (λ computed. if list_eq computed ev.hash then rest else ok (broken_at i))
      else ok (broken_at i)

  unfoldable pub verify_chain : List Event → Result AuditError ChainVerification
  unfolding verify_from
  verify_chain events = verify_from genesis_hash 0 events

  -- The lines of a file as events, blank ones skipped.
  unfoldable pub parse_lines : List Text → Result AuditError (List Event)
  unfolding ok_or_serde is_blank
  parse_lines [] = ok []
  parse_lines (line ∷ rest) =
      let skip = parse_lines rest in
      let take_it =
        Result.◌>>=◌ (ok_or_serde (os.event_from_json line))
          λ ev. Result.◌>>=◌ skip λ events. ok (ev ∷ events) in
      if is_blank line then skip else take_it

  -- `read_all`; a file that is not there has no events.
  unfoldable pub read_all : M World AuditError (List Event)
  unfolding parse_lines
  read_all = do
    file ← gets (λ w. w.audit_file)
    maybe file (pure []) λ contents. do World.io io; lift (parse_lines (lines contents))

  -- `lines().rev().find(…)`, in the order of the lines.
  unfoldable pub last_line : List Text → Option Text
  unfolding is_blank
  last_line [] = none
  last_line (line ∷ rest) = elim (last_line rest) [
    | some later ↦ some later
    | none ↦ if is_blank line then none else some line
  ]

  unfoldable pub hash_of_last : Option Text → Result AuditError Text
  unfolding ok_or_serde
  hash_of_last none = ok genesis_hash
  hash_of_last (some line) = Result.◌>>=◌ (ok_or_serde (os.event_from_json line)) λ ev. ok ev.hash

  unfoldable pub load_last_hash : M World AuditError Text
  unfolding last_line hash_of_last
  load_last_hash = do
    file ← gets (λ w. w.audit_file)
    maybe file (pure genesis_hash)
        λ contents. do World.io io; lift (hash_of_last (last_line (lines contents)))

  -- `Log::open`: the directory of the file is created, since the path of a file has a parent, be it
  -- the empty one; then the last hash is read.
  unfoldable pub open_log : M World AuditError Unit
  unfolding load_last_hash
  open_log = do
    World.io io
    prev_hash ← load_last_hash
    modify (λ w. record w { log = record { prev_hash = prev_hash } })

  -- `OpenOptions::append(true).create(true).open`
  unfoldable pub open_append : M World AuditError Unit
  open_append = do World.io io; modify (λ w. record w { audit_file = some (contents_of w) })

  -- `writeln!`: a failed append leaves the first characters.
  unfoldable pub append_line : Text → M World AuditError Unit
  append_line line w = elim (os.io_fault w.calls) [
    | some n ↦ (err (io n), append_text (take n (line ++ b'\n' ∷ [])) (called w))
    | none ↦ (ok tt, append_text (line ++ b'\n' ∷ []) (called w))
  ]

  -- `Log::write`; the chain moves on before the file is opened.
  unfoldable pub write : Event → M World AuditError Unit
  unfolding event_hash ok_or_serde open_append append_line
  write event = do
    prev_hash ← gets (λ w. w.log.prev_hash)
    let linked : Event = record event { prev_hash = prev_hash; hash = [] }
    hash ← lift (event_hash linked)
    modify (λ w. record w { log = record { prev_hash = hash } })
    line ← lift (ok_or_serde (os.event_to_json (record linked { hash = hash })))
    open_append
    append_line line
    World.io io
