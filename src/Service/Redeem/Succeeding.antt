-- ===== src/Service/Redeem/Succeeding.antt =====
-- Who has the token and the code of a usable link gets its file.
use fips_dropbox.Prelude.{suc, ◌≡◌, refl, sym, ap, ◌∙◌, subst, true, false, some, arith, list_eq}
use fips_dropbox.Prelude.Table
use fips_dropbox.Text.{Text, Bytes, as_bytes}
use fips_dropbox.Time.{dt_to_millis}
use fips_dropbox.Result.{ok, convert}
use fips_dropbox.Effect.{M, ◌>>=◌}
use fips_dropbox.Effect.Runs.{Runs, Runs-bind, Runs-within, Runs-lift, Runs-pure, Runs-of}
use fips_dropbox.Errors.{ServiceError, storage, crypto}
use fips_dropbox.Platform.{Platform}
use fips_dropbox.World.{World, called, execute, execute_with, now_utc}
use fips_dropbox.World.Runs.{execute-Runs}
use fips_dropbox.Crypto
use fips_dropbox.Crypto.Compare.{constant_time_eq_iff}
use fips_dropbox.Crypto.Filled.{IsFilled}
use fips_dropbox.Audit.Succeeding.{IsSound}
use fips_dropbox.Storage.Rows.{ShareRow}
use fips_dropbox.Storage.Records.{Share}
use fips_dropbox.Storage.Decode.{row_to_share, optional}
use fips_dropbox.Storage.Queries.{select}
use fips_dropbox.Storage.Consume.{IsKeyed, try_consume-usable}
use fips_dropbox.Storage.Shares
use fips_dropbox.Storage.Shares.{has_id, usable}
use fips_dropbox.Storage.Prints.Paths.{IsUnique}
use fips_dropbox.Storage.Prints.Lasting.{Lasts-IsFramed, Lasts-IsKept}
use fips_dropbox.Storage.Prints.Readable.{IsReadable, IsReadable-called, find-Runs, read_blob-Runs}
use fips_dropbox.Service.{App}
use fips_dropbox.Service.Running.{
  spawn_blocking-Runs, with_store-Runs, with_audit-Runs, write_event-Runs,
}
use fips_dropbox.Service.Create.Offered.{Offers}
use fips_dropbox.Service.History.Keeping.{try_consume-Keeps}
use fips_dropbox.Service.Redeem.{RedeemRequest, RedeemResponse, deliver, redeem_found, redeem_share}
use fips_dropbox.Service.Redeem.Inversion.{row_to_share-fields}
use fips_dropbox.Service.Redeem.Limit.{by_id-by_token}

-- The action returns the file under its name.
abbrev pub Returns : M World ServiceError RedeemResponse → World → Bytes → Text → Type 0
Returns m w plaintext filename =
    (resp : RedeemResponse) × (t : World) × Runs m w resp t
    × (resp.content ≡ plaintext)
    × (resp.filename ≡ filename)

module _ ⦃os : Platform⦄ (sound : IsSound os) (app : App) (req : RedeemRequest) {plaintext : Bytes}
    {filename : Text} where
  deliver-Returns :
      (share : Share) (v : World)
      → v.audit_poisoned ≡ false
      → IsReadable app.kek share.print_id plaintext filename v
      → Returns (deliver app req share) v plaintext filename
  unfolding deliver
  deliver-Returns share v clean r =
      let (t, written) = write_event-Runs sound _ _ _ _ _ _ _ _ in
      (
        _,
        t,
        Runs-bind _ _ (Runs-within _ _ (find-Runs r (sound.healthy.sqlite v.calls))) (
            Runs-bind _ _
              (Runs-within _ _ (
                read_blob-Runs (IsReadable-called v r) (sound.healthy.sqlite _)
                  (sound.healthy.io _)))
              (with_audit-Runs _ _ clean (Runs-bind _ _ written (Runs-pure _ t)))),
        refl,
        r.named,
      )

module _ ⦃os : Platform⦄ (sound : IsSound os) where
  found_by_token :
      (row : ShareRow) (share : Share) (w : World)
      → Table.find (λ t. list_eq t.token_hash row.token_hash) w.db.shares ≡ some row
      → row_to_share row ≡ ok share
      → Runs (Shares.find_by_token_hash row.token_hash) w (some share) (called w)
  unfolding Shares.find_by_token_hash select optional
  found_by_token row share w found decoded =
      Runs-within _ _ (execute-Runs _ (sound.healthy.sqlite w.calls) (rw (found, decoded) refl))

  verified :
      (share : Share) (code : Text)
      → Crypto.sha256 (as_bytes code) ≡ ok share.access_code_hash
      → Shares.verify_access_code share code ≡ ok true
  unfolding Shares.verify_access_code
  verified share code h =
      rw (h, (constant_time_eq_iff share.access_code_hash share.access_code_hash).1 refl) refl

  still_clean :
      (id : Bytes) (w : World)
      → (Shares.try_consume_download id w).1.audit_poisoned ≡ w.audit_poisoned
  unfolding Shares.try_consume_download ◌>>=◌ now_utc execute execute_with Shares.consume_statement
  still_clean id w = ground (arith, sound.healthy.sqlite (suc w.calls))

  -- Where nothing fails, a redemption with the token and the code of a stored link, which is
  -- neither revoked, nor expired, nor used up by the clock of the counting, returns the file of the
  -- link under its name.
  pub redeem_share-Returns :
      (app : App) (req : RedeemRequest) (row : ShareRow) (share : Share) (w : World)
      {plaintext : Bytes} {filename : Text}
      → IsFilled os
      → IsUnique os
      → w.store_poisoned ≡ false
      → w.audit_poisoned ≡ false
      → IsKeyed w.db.shares
      → Table.find (has_id row.id) w.db.shares ≡ some row
      → row_to_share row ≡ ok share
      → Offers app.kek req.token req.access_code plaintext filename row w
      → usable row.id (dt_to_millis (os.now_utc (suc w.calls))) row ≡ true
      → Returns (redeem_share app req) w plaintext filename
  unfolding redeem_share redeem_found
  redeem_share-Returns app req row share w {plaintext} {filename} filled unique clean_store clean
        keyed stored decoded offers is_usable =
      let (its_id, its_print, its_code) = row_to_share-fields row decoded in
      let token = by_id-by_token row.id w.db.shares {s = row} keyed stored in
      let exact =
        try_consume-usable share.id (called w) {s = row} keyed (rw its_id stored)
          (sound.healthy.sqlite _) in
      let counted : (Shares.try_consume_download share.id (called w)).0 ≡ ok true =
        exact.0 ∙ ap ok (rw its_id is_usable) in
      let consumed = (Shares.try_consume_download share.id (called w)).1 in
      let file =
        (try_consume-Keeps (Lasts-IsKept unique filled) share.id).at (called w)
          (Lasts-IsFramed.after_call w offers.file) in
      let (resp, t, run, content, name) =
        deliver-Returns sound app req share consumed (still_clean share.id (called w) ∙ clean) (
          subst (λ i. IsReadable app.kek i plaintext filename consumed)
            (sym (its_print ∙ offers.print)) file.readable) in
      (
        resp,
        t,
        spawn_blocking-Runs _ w (
            with_store-Runs _ w clean_store (
              Runs-bind _ _ (Runs-lift _ w (ap (convert crypto) offers.token_hash)) (
                Runs-bind _ _ (Runs-within _ _ (found_by_token row share w token decoded)) (
                  Runs-bind _ _
                    (Runs-lift _ (called w) (
                      ap (convert storage)
                        (verified share req.access_code (offers.code_hash ∙ ap ok (sym its_code)))))
                    (Runs-bind _ _ (Runs-within _ _ (Runs-of _ (called w) counted)) run))))),
        content,
        name,
      )
