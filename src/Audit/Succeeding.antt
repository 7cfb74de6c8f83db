-- ===== src/Audit/Succeeding.antt =====
-- Writing to the audit log where nothing fails: `write` of crates/audit/src/lib.rs.
use fips_dropbox.Prelude.{◌≡◌, refl, ap, [], ◌∷◌, ◌++◌, some, arith}
use fips_dropbox.Text.{Text, Bytes, as_bytes}
use fips_dropbox.Result.{ok}
use fips_dropbox.Effect.Runs.{Runs, Runs-bind, Runs-gets, Runs-lift, Runs-modify}
use fips_dropbox.Errors.{io}
use fips_dropbox.Platform.{Platform}
use fips_dropbox.Event.{Event}
use fips_dropbox.World.{World, called}
use fips_dropbox.World.Runs.{IsHealthy, io-Runs}
use fips_dropbox.Crypto
use fips_dropbox.Audit.{
  clear_hash, digest_text, event_hash, ok_or_serde, contents_of, append_text, open_append,
  append_line, write,
}

-- No call of the file system or of the engine fails, every text has a digest and every event is
-- printed.
pub record IsSound (os : Platform) : Type 0 where
  pub healthy : IsHealthy os
  pub digests : (text : Bytes) → (h : Bytes) × (Crypto.sha256 ⦃os = os⦄ text ≡ ok h)
  pub prints : (ev : Event) → (line : Text) × (os.event_to_json ev ≡ some line)

module _ ⦃os : Platform⦄ (sound : IsSound os) where
  printed : (ev : Event) → (line : Text) × (ok_or_serde (os.event_to_json ev) ≡ ok line)
  unfolding ok_or_serde
  printed ev = let (line, e) = sound.prints ev in (line, ap ok_or_serde e)

  hashed : (ev : Event) → (h : Text) × (event_hash ev ≡ ok h)
  unfolding event_hash digest_text
  hashed ev =
      let (line, e) = printed (clear_hash ev) in
      let (d, k) = sound.digests (as_bytes line) in (os.hex_encode d, rw (e, k) refl)

  open_append-Runs :
      (w : World) → Runs open_append w tt (record (called w) { audit_file = some (contents_of w) })
  unfolding open_append
  open_append-Runs w =
      Runs-bind _ _ (io-Runs io (sound.healthy.io w.calls)) (Runs-modify _ (called w))

  append_line-Runs :
      (line : Text) (w : World)
      → Runs (append_line line) w tt (append_text (line ++ b'\n' ∷ []) (called w))
  unfolding append_line
  append_line-Runs line w = record { at = ground (arith, sound.healthy.io w.calls) }

  -- Where nothing fails, `write` succeeds.
  pub write-Runs : (ev : Event) (w : World) → (t : World) × Runs (write ev) w tt t
  unfolding write
  write-Runs ev w =
      let (h, e) = hashed (record ev { prev_hash = w.log.prev_hash; hash = [] }) in
      let (line, k) = printed (record ev { prev_hash = w.log.prev_hash; hash = h }) in
      (
        _,
        Runs-bind _ _ (Runs-gets _ w refl) (
            Runs-bind _ _ (Runs-lift _ w e) (
              Runs-bind _ _ (Runs-modify _ w) (
                Runs-bind _ _ (Runs-lift _ _ k) (
                  Runs-bind _ _ (open_append-Runs _)
                    (Runs-bind _ _ (append_line-Runs line _) (io-Runs io (sound.healthy.io _))))))),
      )
