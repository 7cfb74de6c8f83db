-- ===== src/Storage/Prints/Readable.antt =====
-- When `read_blob` of crates/storage/src/prints.rs opens a print, and to what.
use fips_dropbox.Prelude.{suc, ◌≡◌, refl, sym, ap, ◌∙◌, none, some, list_eq_refl}
use fips_dropbox.Prelude.Table
use fips_dropbox.Text.{Text, Bytes}
use fips_dropbox.Result.{ok, convert}
use fips_dropbox.Effect.Runs.{Runs, Runs-bind, Runs-lift, Runs-gets, Runs-within}
use fips_dropbox.Errors.{io, crypto}
use fips_dropbox.Platform.{Platform}
use fips_dropbox.World
use fips_dropbox.World.Runs.{io-Runs, execute-Runs}
use fips_dropbox.World.{World, called, execute, execute_with}
use fips_dropbox.Crypto
use fips_dropbox.Crypto.{Sealed}
use fips_dropbox.Crypto.Kek.{unwrap_dek}
use fips_dropbox.Storage.Rows.{PrintRow}
use fips_dropbox.Storage.Records.{Print}
use fips_dropbox.Storage.Decode.{row_to_print, optional}
use fips_dropbox.Storage.Queries.{select}
use fips_dropbox.Storage.Prints.{has_id, rel_blob_path, find, read_blob, check_digest}

-- What a print is sealed as, with its ciphertext.
abbrev pub sealed_of : Print → Bytes → Sealed
sealed_of print ct = record { nonce = print.nonce; ciphertext = ct; tag = print.tag }

-- The stored print `id` is the file `plaintext` named `filename`, encrypted under `kek`, in a blob
-- at its own path.
pub record IsReadable ⦃os : Platform⦄ (kek id plaintext : Bytes) (filename : Text) (w : World)
    : Type 0 where
  pub row : PrintRow
  pub print : Print
  pub ct : Bytes
  pub dek : Bytes
  pub stored : Table.find (has_id id) w.db.prints ≡ some row
  pub decoded : row_to_print row ≡ ok print
  pub named : print.filename ≡ filename
  pub placed : print.blob_path ≡ rel_blob_path id
  pub blob : World.read_blob print.blob_path w ≡ some ct
  pub unwrapped : unwrap_dek kek print.dek_wrapped ≡ ok dek
  pub opened : Crypto.open_sealed dek print.id (sealed_of print ct) ≡ ok plaintext
  pub digest : Crypto.sha256 plaintext ≡ ok print.sha256_plaintext

module _ ⦃os : Platform⦄ {kek id plaintext : Bytes} {filename : Text} where
  -- A file stays readable where its row is still found and its blob is the same.
  pub IsReadable-to :
      (w t : World)
      → ((r : PrintRow)
          → Table.find (has_id id) w.db.prints ≡ some r
          → Table.find (has_id id) t.db.prints ≡ some r)
      → World.read_blob (rel_blob_path id) t ≡ World.read_blob (rel_blob_path id) w
      → IsReadable kek id plaintext filename w
      → IsReadable kek id plaintext filename t
  IsReadable-to w t rows blobs r = record {
    row = r.row;
    print = r.print;
    ct = r.ct;
    dek = r.dek;
    stored = rows r.row r.stored;
    decoded = r.decoded;
    named = r.named;
    placed = r.placed;
    blob =
        ap (λ p. World.read_blob p t) r.placed
        ∙ blobs
        ∙ ap (λ p. World.read_blob p w) (sym r.placed)
        ∙ r.blob;
    unwrapped = r.unwrapped;
    opened = r.opened;
    digest = r.digest;
  }

  pub IsReadable-called :
      (w : World)
      → IsReadable kek id plaintext filename w
      → IsReadable kek id plaintext filename (called w)
  unfolding World.read_blob
  IsReadable-called w = IsReadable-to w (called w) (λ r found. found) refl

module _ ⦃os : Platform⦄ where
  pub check_digest-same : (pt d : Bytes) → check_digest pt d d ≡ ok pt
  unfolding check_digest
  check_digest-same pt d = rw (list_eq_refl d) refl

module _ ⦃os : Platform⦄ {kek id plaintext : Bytes} {filename : Text} {w : World} where
  pub find-Runs :
      (r : IsReadable kek id plaintext filename w)
      → os.sqlite_fault w.calls ≡ none
      → Runs (find id) w (some r.print) (called w)
  unfolding find select optional
  find-Runs r sound = Runs-within _ _ (execute-Runs _ sound (rw (r.stored, r.decoded) refl))

  -- Where neither the engine nor the file system fails, `read_blob` returns the file.
  pub read_blob-Runs :
      (r : IsReadable kek id plaintext filename w)
      → os.sqlite_fault w.calls ≡ none
      → os.io_fault (suc w.calls) ≡ none
      → Runs (read_blob kek id) w plaintext (called (called w))
  unfolding read_blob World.read_blob
  read_blob-Runs r sound sound_io = Runs-bind _ _ (find-Runs r sound) (
      Runs-bind _ _ (io-Runs {w = called w} io sound_io) (
        Runs-bind _ _ (Runs-gets _ _ r.blob) (
          Runs-bind _ _ (Runs-lift _ _ (ap (convert crypto) r.unwrapped)) (
            Runs-bind _ _ (Runs-lift _ _ (ap (convert crypto) r.opened)) (
              Runs-bind _ _ (Runs-lift _ _ (ap (convert crypto) r.digest))
                (Runs-lift _ _ (check_digest-same plaintext r.print.sha256_plaintext)))))))
