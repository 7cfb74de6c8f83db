-- ===== src/Storage/Prints.antt =====
-- crates/storage/src/prints.rs: the encrypted files. A blob lies in a directory named by the first
-- byte of the print's identifier; its row has what decrypts it, but for the KEK.
pub mod Digest
pub mod Readable
pub mod Stored
pub mod Paths
pub mod Lasting
use fips_dropbox.Prelude.{
  ℕ, ◌+◌, ◌/◌, ◌%◌, ◌-◌, Bool, not, ◌&&◌, ◌||◌, Option, none, some, List, [], ◌∷◌, ◌++◌, any,
  list_eq, length, codes, ltb, if◌then◌else◌,
}
use fips_dropbox.Prelude.Table
use fips_dropbox.Text.{Text, Bytes}
use fips_dropbox.Time.{dt_to_millis}
use fips_dropbox.Result.{Result, ok, err, panic, convert}
use fips_dropbox.Effect.{M, pure, fail, lift, gets, modify, within, maybe, ◌>>=◌, ◌>>◌}
use fips_dropbox.Errors.{
  SqliteError, constraint_violation, StorageError, io, crypto, sqlite, not_found, decryption_failed,
}
use fips_dropbox.Platform.{Platform}
use fips_dropbox.World
use fips_dropbox.World.{World, Statement, execute, now_utc, now_v7, write_blob, remove_blob}
use fips_dropbox.Crypto
use fips_dropbox.Crypto.{Sealed}
use fips_dropbox.Crypto.Kek.{wrap_dek, unwrap_dek}
use fips_dropbox.Storage.Rows.{PrintRow, Db}
use fips_dropbox.Storage.Records.{Print}
use fips_dropbox.Storage.Decode.{row_to_print}
use fips_dropbox.Storage.Queries.{select, run}

unfoldable pub has_id : Bytes → PrintRow → Bool
has_id id p = list_eq p.id id

unfoldable pub insert_print : PrintRow → Statement Unit
unfolding has_id
insert_print row db =
    if any (has_id row.id) db.prints || not (any (λ u. list_eq u.id row.uploaded_by) db.users)
    then err constraint_violation
    else ok (tt, record db { prints = db.prints ++ row ∷ [] })

-- A print that a share references cannot be deleted.
unfoldable pub delete_print : Bytes → Statement Unit
unfolding has_id
delete_print id db =
    if any (λ s. list_eq s.print_id id) db.shares && any (has_id id) db.prints
    then err constraint_violation
    else ok (tt, record db { prints = Table.delete (has_id id) db.prints })

hex_digit : ℕ → ℕ
hex_digit n = if ltb n 10 then b'0' + n else b'a' + n - 10

first_byte : Bytes → Option ℕ
first_byte [] = none
first_byte (b ∷ _) = some b

-- `{:02x}` of the first byte; an identifier has 16.
unfoldable pub blob_prefix : Bytes → Text
unfolding hex_digit first_byte
blob_prefix id = elim (first_byte id) [
  | none ↦ []
  | some b ↦ hex_digit (b / 16) ∷ hex_digit (b % 16) ∷ []
]

unfoldable pub rel_blob_path : ⦃os : Platform⦄ → Bytes → Text
unfolding blob_prefix
rel_blob_path ⦃os⦄ id = blob_prefix id ++ (b'/' ∷ os.uuid_to_string id ++ codes ".enc")

-- The outcome of an action as a value, for the code that looks at it before `?`.
unfoldable pub attempt : {E F A : Type 0} → M World E A → M World F (Result E A)
attempt m w = (ok (m w).0, (m w).1)

module _ ⦃os : Platform⦄ where
  -- `let _ = remove_file(…)`: a failure is ignored.
  unfoldable pub try_remove : Text → M World StorageError Unit
  try_remove path w = elim (os.io_fault w.calls) [
    | some _ ↦ (ok tt, World.called w)
    | none ↦ (ok tt, remove_blob path (World.called w))
  ]

  -- `if inserted.is_err() { remove_file } inserted?`
  unfoldable pub settle : Text → Result SqliteError Unit → M World StorageError Unit
  unfolding try_remove
  settle path (ok u) = pure u
  settle path (err e) = try_remove path >> fail (sqlite e)
  settle path panic = lift panic

  unfoldable pub insert : Bytes → Text → Bytes → Bytes → Bool → M World StorageError Print
  unfolding attempt settle insert_print
  insert kek filename plaintext uploaded_by cui_attested = do
    id ← now_v7
    sha256 ← lift (convert crypto (Crypto.sha256 plaintext))
    dek ← within crypto Crypto.generate
    sealed ← within crypto (Crypto.seal dek id plaintext)
    dek_wrapped ← within crypto (wrap_dek kek dek)
    World.io io
    let path = rel_blob_path id
    World.io_write io (write_blob path) sealed.ciphertext
    now ← now_utc
    inserted ← attempt (
        execute (
          insert_print (record {
            id = id;
            filename = filename;
            size_bytes = length plaintext;
            sha256_plaintext = sha256;
            blob_path = path;
            dek_wrapped = dek_wrapped;
            nonce = sealed.nonce;
            tag = sealed.tag;
            uploaded_by = uploaded_by;
            uploaded_at = dt_to_millis now;
            cui_attested = if cui_attested then 1 else 0;
          })))
    settle path inserted
    pure (record {
      id = id;
      filename = filename;
      size_bytes = length plaintext;
      sha256_plaintext = sha256;
      blob_path = path;
      dek_wrapped = dek_wrapped;
      nonce = sealed.nonce;
      tag = sealed.tag;
      uploaded_by = uploaded_by;
      uploaded_at = now;
      cui_attested = cui_attested;
    })

  unfoldable pub find : Bytes → M World StorageError (Option Print)
  find id = run (select (λ db. Table.find (has_id id) db.prints) row_to_print)

  unfoldable pub check_digest : Bytes → Bytes → Bytes → Result StorageError Bytes
  check_digest pt got want = if list_eq got want then ok pt else err (crypto decryption_failed)

  unfoldable pub read_blob : Bytes → Bytes → M World StorageError Bytes
  unfolding find check_digest
  read_blob kek id = do
    found ← find id
    maybe found (fail not_found) λ print. do
      World.io io
      file ← gets (World.read_blob print.blob_path)
      maybe file (fail (io 2)) λ ct. do
        dek ← lift (convert crypto (unwrap_dek kek print.dek_wrapped))
        let sealed : Sealed = record { nonce = print.nonce; ciphertext = ct; tag = print.tag }
        pt ← lift (convert crypto (Crypto.open_sealed dek print.id sealed))
        got ← lift (convert crypto (Crypto.sha256 pt))
        lift (check_digest pt got print.sha256_plaintext)

  unfoldable pub delete : Bytes → M World StorageError Unit
  unfolding find delete_print try_remove
  delete id = do
    found ← find id
    maybe found (fail not_found) λ print. do run (delete_print id); try_remove print.blob_path
