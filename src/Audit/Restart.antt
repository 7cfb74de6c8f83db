-- ===== src/Audit/Restart.antt =====
-- The log across a restart, and across a write that failed.
use fips_dropbox.Prelude.{
  ℕ, suc, ◌+◌, ◌≡◌, ◌≢◌, refl, sym, ap, none, some, List, [], ◌∷◌, ◌++◌, ◌∙◌, arith, length,
  eq_of_list_eq, list_eq_of_eq, list_eq_refl,
}
use fips_dropbox.Text.{Text}
use fips_dropbox.Result.{ok, err}
use fips_dropbox.Effect.{◌>>=◌}
use fips_dropbox.Errors.{io}
use fips_dropbox.Platform.{Platform}
use fips_dropbox.Event.{Event, Log}
use fips_dropbox.World
use fips_dropbox.World.{World}
use fips_dropbox.Audit.{
  genesis_hash, contents_of, last_line, hash_of_last, open_log, broken_at, verify_from,
  verify_chain, read_all, write,
}
use fips_dropbox.Audit.Lines.{lines, lines-render}
use fips_dropbox.Audit.Chain.{IsChain, head_hash}
use fips_dropbox.Audit.Tamper.{IsJson}
use fips_dropbox.Audit.Writing.{
  OnDisk, Holds, write-OnDisk, read_all-OnDisk, stamped, lines-written, hash_of_last-written,
}

module _ ⦃os : Platform⦄ where
  -- A write whose file could not be opened leaves the file, and moves the log on all the same.
  failed_write :
      (ev : Event) (w : World) (e : ℕ) (w' : World)
      → os.io_fault w.calls ≡ some e
      → write ev w ≡ (err (io e), w')
      → w'.audit_file ≡ w.audit_file
  unfolding write ◌>>=◌ World.io
  failed_write ev w e w' fault h = ground arith

  verify_from_break :
      (prev : Text) (i : ℕ) (events : List Event) (ev : Event)
      → IsChain prev events
      → ev.prev_hash ≢ head_hash prev events
      → verify_from prev i (events ++ ev ∷ []) ≡ ok (broken_at (i + length events))
  unfolding verify_from
  verify_from_break prev i [] ev h apart = ground (arith, eq_of_list_eq ev.prev_hash prev)
  verify_from_break prev i (x ∷ events) ev ((p, e), h) apart =
      rw (list_eq_of_eq x.prev_hash prev p, e, list_eq_refl x.hash)
        (rw (verify_from_break x.hash (suc i) events ev h apart) (ground arith))

  open_log_ok :
      (w w' : World)
      → (hash_of_last (last_line (lines [])) ≡ ok genesis_hash)
      → open_log w ≡ (ok tt, w')
      → (w'.audit_file ≡ w.audit_file)
        × (hash_of_last (last_line (lines (contents_of w))) ≡ ok w'.log.prev_hash)
  unfolding open_log ◌>>=◌ World.io
  open_log_ok w w' empty h = ground arith

module _ ⦃os : Platform⦄ (json : IsJson os) where
  hash_of_empty : hash_of_last (last_line (lines [])) ≡ ok genesis_hash
  unfolding hash_of_last last_line lines
  hash_of_empty = refl

  -- A restart finds the end of the chain: whatever the log's memory was, after `Log::open` the log
  -- stands where it stood, on the same file.
  pub open_log-Holds :
      (events : List Event) (w : World) (forgotten : Log) (w' : World)
      → Holds events w
      → open_log (record w { log = forgotten }) ≡ (ok tt, w')
      → Holds events w'
  open_log-Holds events w forgotten w' held h =
      let (file, last) = open_log_ok (record w { log = forgotten }) w' hash_of_empty h in
      let disk = held.disk in
      let known : hash_of_last (last_line (lines (contents_of w)))
          ≡ ok (head_hash genesis_hash events) =
        ap (λ c. hash_of_last (last_line (lines c))) disk.contents
        ∙ ap (λ l. hash_of_last (last_line l))
            (lines-render disk.file_lines (lines-written json events disk.file_lines disk.written))
        ∙ hash_of_last-written json events disk.file_lines disk.written in
      record {
        disk = record {
          file_lines = disk.file_lines;
          written = disk.written;
          contents = ground arith;
        };
        chain = held.chain;
        head = cc (last, known);
      }

  -- After an event is lost because the file could not be opened, the next event that is written
  -- breaks the chain: the file reads back as the old events and that one, and `verify_chain`
  -- reports it, unless the lost event had the hash of the last one on the file.
  pub lost_write_breaks_chain :
      (events : List Event) (lost next : Event) (w : World) (e : ℕ) (w1 w2 : World)
      → Holds events w
      → os.io_fault w.calls ≡ some e
      → write lost w ≡ (err (io e), w1)
      → write next w1 ≡ (ok tt, w2)
      → os.io_fault w2.calls ≡ none
      → w1.log.prev_hash ≢ w.log.prev_hash
      → let log = events ++ stamped next w1.log.prev_hash w2.log.prev_hash ∷ [] in
        ((read_all w2).0 ≡ ok log) × (verify_chain log ≡ ok (broken_at (length events)))
  unfolding verify_chain
  lost_write_breaks_chain events lost next w e w1 w2 held fault failed done quiet apart =
      let disk = held.disk in
      let file = failed_write lost w e w1 fault failed in
      let disk1 : OnDisk events w1 = record {
        file_lines = disk.file_lines;
        written = disk.written;
        contents = ground arith;
      } in
      let last = stamped next w1.log.prev_hash w2.log.prev_hash in
      (
        read_all-OnDisk json (events ++ last ∷ []) w2 (write-OnDisk events next w1 w2 disk1 done)
            quiet,
        verify_from_break genesis_hash 0 events last held.chain (λ p. apart (p ∙ sym held.head))
            ∙ ap (λ n. ok (broken_at n)) (omega arith),
      )
