-- ===== src/Audit/Writing.antt =====
-- What `Log::write` does to the file and to the chain, and what is read back.
use fips_dropbox.Prelude.{
  ◌≡◌, inl, inr, refl, sym, ap, true, none, some, List, [], ◌∷◌, ◌++◌, ◌∙◌, arith, length,
  Option-cases,
}
use fips_dropbox.Prelude.Table.Laws.{All}
use fips_dropbox.Text.{Text}
use fips_dropbox.Result.{ok}
use fips_dropbox.Effect.{◌>>=◌}
use fips_dropbox.Platform.{Platform}
use fips_dropbox.Event.{Event}
use fips_dropbox.World
use fips_dropbox.World.{World}
use fips_dropbox.Audit.{
  genesis_hash, contents_of, ok_or_serde, last_line, hash_of_last, event_hash, verify_chain,
  parse_lines, read_all, write,
}
use fips_dropbox.Audit.Lines.{IsOneLine, lines, render, lines-render, render-append}
use fips_dropbox.Audit.Chain.{
  IsChain, head_hash, IsChain-append, head_hash-append, verify_chain_complete,
}
use fips_dropbox.Audit.Tamper.{IsJson}

-- The event that `write` makes of the one that it is given.
abbrev pub stamped : Event → Text → Text → Event
stamped ev prev hash = record ev { prev_hash = prev; hash = hash }

contents_of_file : (w : World) {c : Text} → w.audit_file ≡ some c → contents_of w ≡ c
contents_of_file w e = ground arith

module _ ⦃os : Platform⦄ where
  pub hash_of_write :
      (ev : Event) (w w' : World)
      → write ev w ≡ (ok tt, w')
      → event_hash (stamped ev w.log.prev_hash []) ≡ ok w'.log.prev_hash
  unfolding write ◌>>=◌ World.io
  hash_of_write ev w w' h = ground arith

  pub line_of_write :
      (ev : Event) (w w' : World)
      → write ev w ≡ (ok tt, w')
      → (line : Text) × (os.event_to_json (stamped ev w.log.prev_hash w'.log.prev_hash) ≡ some line)
        × (w'.audit_file ≡ some (contents_of w ++ (line ++ b'\n' ∷ [])))
  unfolding write ◌>>=◌ World.io
  line_of_write ev w w' h =
      elim (Option-cases (os.event_to_json (stamped ev w.log.prev_hash w'.log.prev_hash))) [
        | inl bad ↦ absurd (ground arith)
        | inr (line, good) ↦ (line, good, ground arith)
      ]

  -- The lines of a file, event by event.
  abbrev pub IsWritten : List Event → List Text → Type 0
  IsWritten [] [] = Unit
  IsWritten (ev ∷ events) (line ∷ lines) =
      (os.event_to_json ev ≡ some line) × IsWritten events lines
  IsWritten _ _ = ⊥

  IsWritten-append :
      (evs : List Event) (ls : List Text) (ev : Event) (line : Text)
      → IsWritten evs ls
      → os.event_to_json ev ≡ some line
      → IsWritten (evs ++ ev ∷ []) (ls ++ line ∷ [])
  IsWritten-append [] [] ev line h e = (e, tt)
  IsWritten-append [] (l ∷ ls) ev line h e = absurd h
  IsWritten-append (x ∷ evs) [] ev line h e = absurd h
  IsWritten-append (x ∷ evs) (l ∷ ls) ev line h e = (h.0, IsWritten-append evs ls ev line h.1 e)

  -- The file holds these events, in this order.
  pub record OnDisk (events : List Event) (w : World) : Type 0 where
    pub file_lines : List Text
    pub written : IsWritten events file_lines
    pub contents : contents_of w ≡ render file_lines

  -- The file holds these events, an unbroken chain, and the log stands at its end.
  pub record Holds (events : List Event) (w : World) : Type 0 where
    pub disk : OnDisk events w
    pub chain : IsChain genesis_hash events
    pub head : w.log.prev_hash ≡ head_hash genesis_hash events

  pub write-OnDisk :
      (events : List Event) (ev : Event) (w w' : World)
      → OnDisk events w
      → write ev w ≡ (ok tt, w')
      → OnDisk (events ++ stamped ev w.log.prev_hash w'.log.prev_hash ∷ []) w'
  unfolding render
  write-OnDisk events ev w w' held h =
      let (line, json, file) = line_of_write ev w w' h in
      let next = stamped ev w.log.prev_hash w'.log.prev_hash in
      record {
        file_lines = held.file_lines ++ line ∷ [];
        written = IsWritten-append events held.file_lines next line held.written json;
        contents =
            contents_of_file w' file
            ∙ ap (λ c. c ++ (line ++ b'\n' ∷ [])) held.contents
            ∙ sym (render-append held.file_lines (line ∷ []));
      }

  -- A write that succeeds appends the event, linked to the last one, and keeps the chain unbroken.
  pub write-Holds :
      (events : List Event) (ev : Event) (w w' : World)
      → Holds events w
      → write ev w ≡ (ok tt, w')
      → Holds (events ++ stamped ev w.log.prev_hash w'.log.prev_hash ∷ []) w'
  unfolding event_hash
  write-Holds events ev w w' held h =
      let next = stamped ev w.log.prev_hash w'.log.prev_hash in
      record {
        disk = write-OnDisk events ev w w' held.disk h;
        chain =
            IsChain-append genesis_hash events (next ∷ []) held.chain
              ((held.head, hash_of_write ev w w' h), tt);
        head = sym (head_hash-append genesis_hash events (next ∷ []));
      }

module _ ⦃os : Platform⦄ (json : IsJson os) where
  pub lines-written :
      (events : List Event) (ls : List Text) → IsWritten events ls → All IsOneLine ls
  lines-written [] [] h = tt
  lines-written [] (l ∷ ls) h = absurd h
  lines-written (ev ∷ events) [] h = absurd h
  lines-written (ev ∷ events) (l ∷ ls) h = (json.one_line ev l h.0, lines-written events ls h.1)

  parse_lines-written :
      (events : List Event) (ls : List Text) → IsWritten events ls → parse_lines ls ≡ ok events
  unfolding parse_lines ok_or_serde
  parse_lines-written [] [] h = refl
  parse_lines-written [] (l ∷ ls) h = absurd h
  parse_lines-written (ev ∷ events) [] h = absurd h
  parse_lines-written (ev ∷ events) (l ∷ ls) h =
      rw (json.not_blank ev l h.0, json.read_back ev l h.0, parse_lines-written events ls h.1)

  empty_file : parse_lines (lines []) ≡ ok []
  unfolding parse_lines lines
  empty_file = refl

  -- What is read back from a file that holds events is those events.
  pub read_all-OnDisk :
      (events : List Event) (w : World)
      → OnDisk events w
      → os.io_fault w.calls ≡ none
      → (read_all w).0 ≡ ok events
  unfolding read_all ◌>>=◌ World.io
  read_all-OnDisk events w held quiet =
      let file : lines (contents_of w) ≡ held.file_lines =
        ap lines held.contents
        ∙ lines-render held.file_lines (lines-written events held.file_lines held.written) in
      let parsed : parse_lines (lines (contents_of w)) ≡ ok events =
        ap parse_lines file ∙ parse_lines-written events held.file_lines held.written in
      ground (arith, empty_file)

  -- After a write that succeeds, the file reads back as the old events and the new one, and
  -- `verify_chain` accepts it with every event counted.
  pub write_read_verify :
      (events : List Event) (ev : Event) (w w' : World)
      → Holds events w
      → write ev w ≡ (ok tt, w')
      → os.io_fault w'.calls ≡ none
      → let log = events ++ stamped ev w.log.prev_hash w'.log.prev_hash ∷ [] in
        ((read_all w').0 ≡ ok log)
        × (verify_chain log
            ≡ ok (record { valid = true; break_at = none; events_checked = length log }))
  write_read_verify events ev w w' held h quiet =
      let next = write-Holds events ev w w' held h in
      let log = events ++ stamped ev w.log.prev_hash w'.log.prev_hash ∷ [] in
      (read_all-OnDisk log w' next.disk quiet, verify_chain_complete log next.chain)

  last_line-written :
      (ev : Event) (events : List Event) (ls : List Text)
      → IsWritten (ev ∷ events) ls
      → (line : Text) × (last_line ls ≡ some line)
        × ((last : Event) × (os.event_to_json last ≡ some line)
            × (last.hash ≡ head_hash ev.hash events))
  unfolding last_line
  last_line-written ev events [] h = absurd h
  last_line-written ev [] (l ∷ []) h = (l, rw (json.not_blank ev l h.0), (ev, h.0, refl))
  last_line-written ev [] (l ∷ m ∷ ls) h = absurd h.1
  last_line-written ev (next ∷ events) (l ∷ ls) h =
      let (line, found, last) = last_line-written next events ls h.1 in (line, rw found, last)

  pub hash_of_last-written :
      (events : List Event) (ls : List Text)
      → IsWritten events ls
      → hash_of_last (last_line ls) ≡ ok (head_hash genesis_hash events)
  unfolding hash_of_last ok_or_serde last_line
  hash_of_last-written [] [] h = refl
  hash_of_last-written [] (l ∷ ls) h = absurd h
  hash_of_last-written (ev ∷ events) ls h =
      let (line, found, (last, json_of_last, e)) = last_line-written ev events ls h in
      rw (found, json.read_back last line json_of_last, e)
