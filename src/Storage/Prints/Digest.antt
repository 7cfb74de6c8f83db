-- ===== src/Storage/Prints/Digest.antt =====
-- What `read_blob` of crates/storage/src/prints.rs gives back.
use fips_dropbox.Prelude.{◌≡◌, refl, sym, ap, ◌∙◌, Option, none, some, arith, eq_of_list_eq}
use fips_dropbox.Prelude.Table
use fips_dropbox.Text.{Bytes}
use fips_dropbox.Result.{ok, convert-eq-ok}
use fips_dropbox.Effect.{M, fail, maybe, ◌>>=◌, >>=-eq-ok, lift-eq-ok, lift-value}
use fips_dropbox.Errors.{crypto}
use fips_dropbox.Platform.{Platform}
use fips_dropbox.World.{World, execute, execute_with}
use fips_dropbox.Crypto
use fips_dropbox.Storage.Rows.{PrintRow}
use fips_dropbox.Storage.Records.{Print}
use fips_dropbox.Storage.Decode.{row_to_print, bytes_of, optional}
use fips_dropbox.Storage.Queries.{select}
use fips_dropbox.Storage.Prints.{has_id, find, read_blob, check_digest}

checked :
    ⦃os : Platform⦄
    → (pt got want : Bytes) {r : Bytes} → check_digest pt got want ≡ ok r
    → (pt ≡ r) × (got ≡ want)
unfolding check_digest
checked pt got want h = (ground arith, eq_of_list_eq got want (ground arith))

pub maybe-eq-ok :
    {S E A B : Type 0} (o : Option A) (e : E) (f : A → M S E B) (s : S) {b : B} {t : S}
    → maybe o (fail e) f s ≡ (ok b, t)
    → (a : A) × (o ≡ some a) × (f a s ≡ (ok b, t))
unfolding ◌>>=◌
maybe-eq-ok none e f s h = cc
maybe-eq-ok (some a) e f s h = (a, refl, h)

module _ ⦃os : Platform⦄ where
  -- A print is decoded from the row that its identifier finds.
  find-row :
      (id : Bytes) (w : World) {print : Print}
      → (find id w).0 ≡ ok (some print)
      → (p : PrintRow) × (Table.find (has_id id) w.db.prints ≡ some p) × (row_to_print p ≡ ok print)
  unfolding find execute execute_with ◌>>=◌ select optional
  find-row id w h = ground arith

  its_digest :
      (p : PrintRow) {print : Print}
      → row_to_print p ≡ ok print
      → print.sha256_plaintext ≡ p.sha256_plaintext
  unfolding row_to_print bytes_of
  its_digest p h = ground arith

  -- What `read_blob` returns is a file whose SHA-256 is the digest stored with the print, whatever
  -- the blob, the wrapped key and the KEK are.
  pub read_blob-digest :
      (kek id : Bytes) (w : World) {content : Bytes} {t : World}
      → read_blob kek id w ≡ (ok content, t)
      → (p : PrintRow) × (Table.find (has_id id) w.db.prints ≡ some p)
        × (Crypto.sha256 content ≡ ok p.sha256_plaintext)
  unfolding read_blob
  read_blob-digest kek id w h =
      let (found, is_found, h1) = >>=-eq-ok (find id) _ w h in
      let (print, is_print, h2) = maybe-eq-ok found _ _ _ h1 in
      let (u, opened, h3) = >>=-eq-ok _ _ _ h2 in
      let (file, is_file, h4) = >>=-eq-ok _ _ _ h3 in
      let (ct, is_ct, h5) = maybe-eq-ok file _ _ _ h4 in
      let (dek, is_dek, h6) = >>=-eq-ok _ _ _ h5 in
      let (pt, is_pt, h7) = >>=-eq-ok _ _ _ h6 in
      let (got, is_got, h8) = >>=-eq-ok _ _ _ h7 in
      let (p, is_p, decoded) = find-row id w (is_found ∙ ap ok is_print) in
      let (same, digest) = checked pt got print.sha256_plaintext (lift-eq-ok _ _ h8) in
      (
        p,
        is_p,
        ap Crypto.sha256 (sym same)
            ∙ convert-eq-ok crypto (Crypto.sha256 pt) (lift-value _ _ is_got)
            ∙ ap ok (digest ∙ its_digest p decoded),
      )
