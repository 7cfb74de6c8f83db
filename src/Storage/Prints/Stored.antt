-- ===== src/Storage/Prints/Stored.antt =====
-- What `insert` of crates/storage/src/prints.rs stores is what `read_blob` reads back.
use fips_dropbox.Prelude.{
  suc, ◌≡◌, refl, sym, ap, subst, ◌∙◌, Bool, false, none, some, List, [], ◌∷◌, ◌++◌, arith, any,
  length, list_eq_refl, not, ◌==◌, if◌then◌else◌,
}
use fips_dropbox.Prelude.Table
use fips_dropbox.Prelude.Table.Laws.{find-append_none, find-none_of_any}
use fips_dropbox.Text.{Text, Bytes}
use fips_dropbox.Result.{Result, ok, err, panic, convert, convert-eq-ok}
use fips_dropbox.Effect.{
  M, pure, ◌>>=◌, ◌>>◌, >>=-eq-ok, lift, lift-value, within, within-runs, within-eq-ok, pure-eq-ok,
  pure-eq-state,
}
use fips_dropbox.Errors.{SqliteError, StorageError, io, crypto}
use fips_dropbox.Platform.{Platform}
use fips_dropbox.World
use fips_dropbox.World.Blobs.{read_blob-write_blob, read_blob-blobs}
use fips_dropbox.World.{World, called, execute, execute_with, write_blob}
use fips_dropbox.Storage.Rows.{PrintRow}
use fips_dropbox.Storage.Prints.{
  has_id, rel_blob_path, insert_print, try_remove, attempt, settle, insert, read_blob,
}
use fips_dropbox.Storage.Prints.Readable.{IsReadable, sealed_of, read_blob-Runs}
use fips_dropbox.Storage.Records.{Print}
use fips_dropbox.Storage.Decode.{row_to_print, bytes_of}
use fips_dropbox.Time.{dt_to_millis, millis_to_dt}
use fips_dropbox.Cng.Gcm.{IsGcm}
use fips_dropbox.Crypto
use fips_dropbox.Crypto.Filled.{IsFilled, length-generate, length-sha256}
use fips_dropbox.Crypto.Seal.{seal-Opens}
use fips_dropbox.Crypto.Kek.{unwrap_dek, wrap_dek}
use fips_dropbox.Crypto.Kek.RoundTrip.{unwrap_dek-wrap_dek}

module _ ⦃os : Platform⦄ where
  written :
      (path : Text) (ct : Bytes) (s : World) {u : Unit}
      → (World.io_write {E = StorageError} io (write_blob path) ct s).0 ≡ ok u
      → World.read_blob path (World.io_write {E = StorageError} io (write_blob path) ct s).1
        ≡ some ct
  unfolding World.io_write
  written path ct s h = ground (arith, read_blob-write_blob path ct (called s))

  found_after :
      (row : PrintRow) (rows : List PrintRow)
      → any (has_id row.id) rows ≡ false
      → Table.find (has_id row.id) (rows ++ row ∷ []) ≡ some row
  unfolding has_id Table.find
  found_after row rows h =
      find-append_none (has_id row.id) rows (row ∷ []) (find-none_of_any (has_id row.id) rows h)
      ∙ rw (list_eq_refl row.id) refl

  inserted :
      (row : PrintRow) (s : World) {u : Unit}
      → (execute (insert_print row) s).0 ≡ ok u
      → (Table.find (has_id row.id) (execute (insert_print row) s).1.db.prints ≡ some row)
        × ((execute (insert_print row) s).1.blobs ≡ s.blobs)
  unfolding execute execute_with insert_print
  inserted row s h = ground (arith, found_after row s.db.prints)

  failed :
      (path : Text) (e : SqliteError) (s : World) {u : Unit} → ¬ ((settle path (err e) s).0 ≡ ok u)
  unfolding settle try_remove ◌>>=◌
  failed path e s h = ground arith

  settled :
      (path : Text) (r : Result SqliteError Unit) (s : World) {u : Unit}
      → (settle path r s).0 ≡ ok u
      → (r ≡ ok u) × ((settle path r s).1 ≡ s)
  unfolding settle ◌>>=◌
  settled path (ok v) s h = (cc, refl)
  settled path (err e) s h = absurd (failed path e s h)
  settled path panic s h = absurd (cc)

  -- The row of a print, as `insert` stores it.
  row_of : Print → PrintRow
  row_of p = record {
    id = p.id;
    filename = p.filename;
    size_bytes = p.size_bytes;
    sha256_plaintext = p.sha256_plaintext;
    blob_path = p.blob_path;
    dek_wrapped = p.dek_wrapped;
    nonce = p.nonce;
    tag = p.tag;
    uploaded_by = p.uploaded_by;
    uploaded_at = dt_to_millis p.uploaded_at;
    cui_attested = if p.cui_attested then 1 else 0;
  }

  decoded_of : Print → Print
  decoded_of p = record p {
    uploaded_at = millis_to_dt (dt_to_millis p.uploaded_at);
    cui_attested = not ((if p.cui_attested then 1 else 0) == 0);
  }

  -- The columns of fixed length.
  abbrev IsSized : Print → Type 0
  IsSized p =
      (length p.id ≡ 16)
      × (length p.sha256_plaintext ≡ 32)
      × (length p.nonce ≡ 12)
      × (length p.tag ≡ 16)
      × (length p.uploaded_by ≡ 16)

  row_to_print-row_of : (p : Print) → IsSized p → row_to_print (row_of p) ≡ ok (decoded_of p)
  unfolding row_to_print bytes_of row_of decoded_of
  row_to_print-row_of p (h1, h2, h3, h4, h5) = ground (arith, h1, h2, h3, h4, h5)

  attempt-value :
      {E A : Type 0} (m : M World E A) (s : World) {r : Result E A}
      → (attempt {F = StorageError} m s).0 ≡ ok r
      → (m s).0 ≡ r
  unfolding attempt
  attempt-value m s h = cc

  id_drawn :
      (s : World) {id : Bytes}
      → (World.now_v7 {E = StorageError} s).0 ≡ ok id
      → os.now_v7 s.calls ≡ id
  unfolding World.now_v7
  id_drawn s h = cc

  -- `insert` from the writing of the blob on.
  abbrev storing : Print → Bytes → M World StorageError Print
  storing p ct = do
    World.io_write io (write_blob p.blob_path) ct
    now ← World.now_utc
    result ← attempt (execute (insert_print (row_of (record p { uploaded_at = now }))))
    settle p.blob_path result
    pure (record p { uploaded_at = now })

  storing-IsReadable :
      (p : Print) (ct kek dek plaintext : Bytes) (s : World) {print : Print} {t : World}
      → IsSized p
      → p.blob_path ≡ rel_blob_path p.id
      → unwrap_dek kek p.dek_wrapped ≡ ok dek
      → Crypto.open_sealed dek p.id (sealed_of p ct) ≡ ok plaintext
      → Crypto.sha256 plaintext ≡ ok p.sha256_plaintext
      → storing p ct s ≡ (ok print, t)
      → IsReadable kek p.id plaintext p.filename t × (print.id ≡ p.id)
  unfolding attempt row_of decoded_of World.now_utc
  storing-IsReadable p ct kek dek plaintext s {t = t} sized placed unwrapped opened digest h =
      let (v, writing, h1) = >>=-eq-ok (World.io_write io (write_blob p.blob_path) ct) _ s h in
      let (now, timed, h2) = >>=-eq-ok World.now_utc _ _ h1 in
      let q : Print = record p { uploaded_at = now } in
      let (result, executed, h3) = >>=-eq-ok (attempt (execute (insert_print (row_of q)))) _ _ h2 in
      let (x, settling, h4) = >>=-eq-ok (settle p.blob_path result) _ _ h3 in
      let (is_done, same) = settled p.blob_path result _ settling in
      let (found, blobs) =
        inserted (row_of q) _
          (attempt-value (execute (insert_print (row_of q))) _ executed ∙ is_done) in
      (
        subst (IsReadable kek p.id plaintext p.filename) (sym same ∙ pure-eq-state q _ h4) (record {
          row = row_of q;
          print = decoded_of q;
          ct = ct;
          dek = dek;
          stored = found;
          decoded = row_to_print-row_of q sized;
          named = refl;
          placed = placed;
          blob = read_blob-blobs p.blob_path _ _ blobs ∙ written p.blob_path ct s writing;
          unwrapped = unwrapped;
          opened = opened;
          digest = digest;
        }),
        ap (λ r. r.id) (sym (pure-eq-ok q _ h4)),
      )

  -- `insert` from the encryption on; `p` has the rest of the print.
  abbrev encrypting : Bytes → Bytes → Bytes → Print → M World StorageError Print
  encrypting kek dek plaintext p = do
    sealed ← within crypto (Crypto.seal dek p.id plaintext)
    dek_wrapped ← within crypto (wrap_dek kek dek)
    World.io io
    storing (record p { dek_wrapped = dek_wrapped; nonce = sealed.nonce; tag = sealed.tag })
        sealed.ciphertext

  encrypting-IsReadable :
      (kek dek plaintext : Bytes) (p : Print) (s : World) {print : Print} {t : World}
      → IsGcm os
      → IsFilled os
      → length dek ≡ 32
      → length p.id ≡ 16
      → p.blob_path ≡ rel_blob_path p.id
      → Crypto.sha256 plaintext ≡ ok p.sha256_plaintext
      → length p.uploaded_by ≡ 16
      → encrypting kek dek plaintext p s ≡ (ok print, t)
      → IsReadable kek p.id plaintext p.filename t × (print.id ≡ p.id)
  encrypting-IsReadable kek dek plaintext p s gcm filled long id_long placed hashed by h =
      let (sealed, sealing, h1) =
        >>=-eq-ok (within crypto (Crypto.seal dek p.id plaintext)) _ s h in
      let (wrapped, wrapping, h2) = >>=-eq-ok (within crypto (wrap_dek kek dek)) _ _ h1 in
      let (u, created, h3) = >>=-eq-ok (World.io io) _ _ h2 in
      let its_seal =
        seal-Opens dek p.id plaintext s gcm filled
          (within-runs crypto (Crypto.seal dek p.id plaintext) s sealing) in
      storing-IsReadable
        (record p { dek_wrapped = wrapped; nonce = sealed.nonce; tag = sealed.tag })
        sealed.ciphertext kek dek plaintext _
        (
          id_long,
          length-sha256 filled plaintext hashed,
          its_seal.nonce_length,
          its_seal.tag_length,
          by,
        )
        placed
        (unwrap_dek-wrap_dek kek dek _ gcm (filled.random _ 12) long
          (within-runs crypto (wrap_dek kek dek) _ wrapping))
        its_seal.opened hashed h3

  -- A file that `insert` stores can be read, under the KEK that it was stored with, where AES-GCM
  -- is as documented and the platform fills its buffers; its identifier is the one of this call.
  pub insert-IsReadable :
      (kek : Bytes) (filename : Text) (plaintext uploaded_by : Bytes) (cui_attested : Bool)
      (w : World) {print : Print} {t : World}
      → IsGcm os
      → IsFilled os
      → length uploaded_by ≡ 16
      → insert kek filename plaintext uploaded_by cui_attested w ≡ (ok print, t)
      → IsReadable kek (os.now_v7 w.calls) plaintext filename t × (print.id ≡ os.now_v7 w.calls)
  unfolding insert row_of
  insert-IsReadable kek filename plaintext uploaded_by cui w {print = print} {t = t} gcm filled by
        h =
      let (id, is_id, h1) = >>=-eq-ok World.now_v7 _ w h in
      let (sha256, hashed, h2) =
        >>=-eq-ok (lift (convert crypto (Crypto.sha256 plaintext))) _ _ h1 in
      let (dek, generated, h3) = >>=-eq-ok (within crypto Crypto.generate) _ _ h2 in
      subst (λ i. IsReadable kek i plaintext filename t × (print.id ≡ i)) (sym (id_drawn w is_id))
        (encrypting-IsReadable kek dek plaintext
          (record {
            id = id;
            filename = filename;
            size_bytes = length plaintext;
            sha256_plaintext = sha256;
            blob_path = rel_blob_path id;
            dek_wrapped = [];
            nonce = [];
            tag = [];
            uploaded_by = uploaded_by;
            uploaded_at = 0;
            cui_attested = cui;
          })
          _ gcm filled (length-generate filled _ (within-eq-ok crypto Crypto.generate _ generated))
          (ap length (sym (id_drawn w is_id)) ∙ filled.uuid w.calls) refl
          (convert-eq-ok crypto (Crypto.sha256 plaintext) (lift-value _ _ hashed)) by h3)

  -- Where `insert` succeeds, reading the print back under the same KEK gives the file, where
  -- AES-GCM is as documented, the platform fills its buffers and the two calls of the reading
  -- succeed.
  pub read_blob-insert :
      (kek : Bytes) (filename : Text) (plaintext uploaded_by : Bytes) (cui_attested : Bool)
      (w : World) {print : Print} {t : World}
      → IsGcm os
      → IsFilled os
      → length uploaded_by ≡ 16
      → insert kek filename plaintext uploaded_by cui_attested w ≡ (ok print, t)
      → os.sqlite_fault t.calls ≡ none
      → os.io_fault (suc t.calls) ≡ none
      → read_blob kek print.id t ≡ (ok plaintext, called (called t))
  read_blob-insert kek filename plaintext uploaded_by cui w {print} {t} gcm filled by h sound
        sound_io =
      let (readable, its_id) =
        insert-IsReadable kek filename plaintext uploaded_by cui w gcm filled by h in
      (read_blob-Runs (subst (λ i. IsReadable kek i plaintext filename t) (sym its_id) readable)
        sound sound_io).at
