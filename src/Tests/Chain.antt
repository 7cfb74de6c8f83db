-- ===== src/Tests/Chain.antt =====
-- Logs of one and two events.
use fips_dropbox.Prelude.{
  ℕ, ◌≡◌, ◌⊎◌, refl, true, Option, none, some, [], ◌∷◌, ◌++◌, codes, list_eq, ◌==◌, if◌then◌else◌,
}
use fips_dropbox.Text
use fips_dropbox.Text.{Text}
use fips_dropbox.Result.{ok, err}
use fips_dropbox.Effect.{◌>>=◌}
use fips_dropbox.Errors.{io}
use fips_dropbox.Platform.{Platform}
use fips_dropbox.Event.{Event}
use fips_dropbox.World
use fips_dropbox.World.{World}
use fips_dropbox.Crypto
use fips_dropbox.Cng
use fips_dropbox.Audit
use fips_dropbox.Audit.{genesis_hash, broken_at, write, open_log, read_all, verify_chain}
use fips_dropbox.Audit.Lines.{lines, render}
use fips_dropbox.Audit.Chain.{Explains, verify_chain_explains}
use fips_dropbox.Audit.Tamper.{Collision, chain_pins_history}
use fips_dropbox.Audit.Writing.{Holds, stamped, write-Holds, write_read_verify}
use fips_dropbox.Audit.Restart.{open_log-Holds, lost_write_breaks_chain}
use fips_dropbox.Tests.Sample.{world}
use fips_dropbox.Tests.Log.{plain, os_with, json}

abbrev quiet : Platform
quiet = os_with (λ call. none)

abbrev fresh : World
fresh = record world { log = record { prev_hash = genesis_hash } }

abbrev first : Event
first = plain genesis_hash (codes "h")

fresh-Holds : Holds ⦃os = quiet⦄ [] fresh
unfolding render
fresh-Holds = record {
  disk = record { file_lines = []; written = tt; contents = refl };
  chain = tt;
  head = refl;
}

abbrev after_one : World
after_one = record fresh {
  calls = 3;
  log = record { prev_hash = codes "h" };
  audit_file = some (codes "B\n");
}

one_write : write ⦃os = quiet⦄ (plain [] []) fresh ≡ (ok tt, after_one)
unfolding write Audit.event_hash Audit.digest_text Audit.clear_hash Audit.ok_or_serde
    Audit.open_append Audit.append_line ◌>>=◌ World.io Crypto.sha256 Cng.sha256 Cng.check list_eq
    Text.as_bytes
one_write = refl

write-Holds_example :
    Holds ⦃os = quiet⦄ ([] ++ stamped (plain [] []) genesis_hash (codes "h") ∷ []) after_one
write-Holds_example =
    write-Holds ⦃os = quiet⦄ [] (plain [] []) fresh after_one fresh-Holds one_write

write_read_verify_example :
    ((read_all ⦃os = quiet⦄ after_one).0 ≡ ok (first ∷ []))
    × (verify_chain ⦃os = quiet⦄ (first ∷ [])
        ≡ ok (record { valid = true; break_at = none; events_checked = 1 }))
write_read_verify_example =
    write_read_verify ⦃os = quiet⦄ (json (λ call. none)) [] (plain [] []) fresh after_one
      fresh-Holds one_write refl

after_one-Holds : Holds ⦃os = quiet⦄ (first ∷ []) after_one
after_one-Holds = write-Holds ⦃os = quiet⦄ [] (plain [] []) fresh after_one fresh-Holds one_write

abbrev reopened : World
reopened = record after_one { calls = 5 }

one_open :
    open_log ⦃os = quiet⦄ (record after_one { log = record { prev_hash = [] } }) ≡ (ok tt, reopened)
unfolding open_log Audit.load_last_hash Audit.last_line Audit.hash_of_last Audit.is_blank
    Audit.ok_or_serde ◌>>=◌ World.io lines list_eq Text.trim
one_open = refl

open_log-Holds_example : Holds ⦃os = quiet⦄ (first ∷ []) reopened
open_log-Holds_example =
    open_log-Holds ⦃os = quiet⦄ (json (λ call. none)) (first ∷ []) after_one
      (record { prev_hash = [] }) reopened after_one-Holds one_open

hash_of_first : Audit.event_hash ⦃os = quiet⦄ first ≡ ok (codes "h")
unfolding Audit.event_hash Audit.digest_text Audit.clear_hash Audit.ok_or_serde Crypto.sha256
    Cng.sha256 Cng.check list_eq Text.as_bytes
hash_of_first = refl

chain_pins_history_example :
    (first ∷ [] ≡ first ∷ []) ⊎ Collision ⦃os = quiet⦄ (json (λ call. none))
chain_pins_history_example =
    chain_pins_history ⦃os = quiet⦄ (json (λ call. none)) genesis_hash (first ∷ []) (first ∷ [])
      ((refl, hash_of_first), tt) ((refl, hash_of_first), tt) refl refl

broken_second : verify_chain ⦃os = quiet⦄ (first ∷ plain [] [] ∷ []) ≡ ok (broken_at 1)
unfolding verify_chain Audit.event_hash Audit.digest_text Audit.clear_hash Audit.ok_or_serde
    Crypto.sha256 Cng.sha256 Cng.check list_eq Text.as_bytes
broken_second = refl

verify_chain_explains_example :
    Explains ⦃os = quiet⦄ genesis_hash 0 (first ∷ plain [] [] ∷ []) (broken_at 1)
verify_chain_explains_example =
    verify_chain_explains ⦃os = quiet⦄ (first ∷ plain [] [] ∷ []) (broken_at 1) broken_second

-- The file cannot be opened at the first call.
abbrev full_disk : ℕ → Option ℕ
full_disk call = if call == 0 then some 5 else none

abbrev after_lost : World
after_lost = record fresh { calls = 1; log = record { prev_hash = codes "h" } }

abbrev after_next : World
after_next = record after_lost { calls = 4; audit_file = some (codes "D\n") }

lost_write : write ⦃os = os_with full_disk⦄ (plain [] []) fresh ≡ (err (io 5), after_lost)
unfolding write Audit.event_hash Audit.digest_text Audit.clear_hash Audit.ok_or_serde
    Audit.open_append Audit.append_line ◌>>=◌ World.io Crypto.sha256 Cng.sha256 Cng.check list_eq
    Text.as_bytes
lost_write = refl

next_write : write ⦃os = os_with full_disk⦄ (plain [] []) after_lost ≡ (ok tt, after_next)
unfolding write Audit.event_hash Audit.digest_text Audit.clear_hash Audit.ok_or_serde
    Audit.open_append Audit.append_line ◌>>=◌ World.io Crypto.sha256 Cng.sha256 Cng.check list_eq
    Text.as_bytes
next_write = refl

full-Holds : Holds ⦃os = os_with full_disk⦄ [] fresh
unfolding render
full-Holds = record {
  disk = record { file_lines = []; written = tt; contents = refl };
  chain = tt;
  head = refl;
}

lost_write_breaks_chain_example :
    ((read_all ⦃os = os_with full_disk⦄ after_next).0 ≡ ok (plain (codes "h") (codes "h") ∷ []))
    × (verify_chain ⦃os = os_with full_disk⦄ (plain (codes "h") (codes "h") ∷ [])
        ≡ ok (broken_at 0))
lost_write_breaks_chain_example =
    lost_write_breaks_chain ⦃os = os_with full_disk⦄ (json full_disk) [] (plain [] []) (plain [] [])
      fresh 5 after_lost after_next full-Holds refl lost_write next_write refl (λ e. cc)
