-- ===== src/Service/Create/Offered.antt =====
-- The link that a successful `create_share` makes: who has the token and the code is offered the file.
use fips_dropbox.Prelude.{ℕ, ◌≡◌, sym, ap, ◌∙◌, subst, none, some, length}
use fips_dropbox.Prelude.Table
use fips_dropbox.Text.{Text, Bytes, as_bytes}
use fips_dropbox.Time.{Instant}
use fips_dropbox.Result.{ok}
use fips_dropbox.Effect.{
  maybe, run-eq-ok, pure, or_panic, within, within-runs, pure-eq-ok, ◌>>=◌, >>=-eq-ok,
}
use fips_dropbox.Effect.Keeps.{Keeps-to}
use fips_dropbox.Errors.{storage}
use fips_dropbox.Platform.{Platform}
use fips_dropbox.World.{World, now_utc, sms}
use fips_dropbox.Cng.Gcm.{IsGcm}
use fips_dropbox.Crypto
use fips_dropbox.Crypto.Filled.{IsFilled}
use fips_dropbox.Storage.Rows.{ShareRow}
use fips_dropbox.Storage.Records.{Share, ShareSecrets, Vendor, Print}
use fips_dropbox.Storage.Prints
use fips_dropbox.Storage.Prints.Paths.{IsUnique}
use fips_dropbox.Storage.Prints.Lasting.{Lasts, Lasts-IsFramed, Lasts-IsKept, insert-Lasts}
use fips_dropbox.Storage.Shares
use fips_dropbox.Storage.Shares.{has_id}
use fips_dropbox.Storage.Shares.Created.{IsCreated, IsCreated-to, create-IsCreated}
use fips_dropbox.Storage.Stable.{OfShares, OfShares-IsFramed}
use fips_dropbox.Service.{App, with_audit, with_store, spawn_blocking}
use fips_dropbox.Service.Inversion.{spawn_blocking-eq-ok, with_store-eq-ok, with_audit-eq-ok}
use fips_dropbox.Service.History.Keeping.{service_rules}
use fips_dropbox.Service.History.Operations.{share_print-Keeps}
use fips_dropbox.Service.Create.{
  NewShareRequest, ShareCreated, share_url, sms_body, post, find_or_create_vendor, share_print,
  store_share, create_share,
}

-- The share `share` was made for this file under this token and code, and the file lasts.
pub record Offers ⦃os : Platform⦄ (kek : Bytes) (token code : Text) (plaintext : Bytes)
    (filename : Text) (share : ShareRow) (w : World) : Type 0 where
  pub call : ℕ
  pub file : Lasts call kek plaintext filename w
  pub print : share.print_id ≡ os.now_v7 call
  pub token_hash : Crypto.sha256 (as_bytes token) ≡ ok share.token_hash
  pub code_hash : Crypto.sha256 (as_bytes code) ≡ ok share.access_code_hash

-- The row of a share that was just made of this request, with what it offers.
pub record IsOffered ⦃os : Platform⦄ (kek : Bytes) (token code : Text) (req : NewShareRequest)
    (id : Bytes) (w : World) : Type 0 where
  pub row : ShareRow
  pub its_id : row.id ≡ id
  pub stored : Table.find (has_id row.id) w.db.shares ≡ some row
  pub limit : row.max_downloads ≡ req.max_downloads
  pub unused : row.download_count ≡ 0
  pub unrevoked : row.revoked_at ≡ none
  pub offers : Offers kek token code req.print_bytes req.print_filename row w

-- The row is the one of its identifier.
abbrev Stored : ShareRow → World → Type 0
Stored row = OfShares (λ rows. Table.find (has_id row.id) rows ≡ some row)

module _ ⦃os : Platform⦄ where
  share_print-IsCreated :
      (req : NewShareRequest) (vendor : Vendor) (print : Print) (w : World)
      {made : Share × ShareSecrets × Vendor} {t : World}
      → share_print req vendor print w ≡ (ok made, t)
      → (expires_at : Instant) × IsCreated print.id expires_at req.max_downloads made.0 made.1 t
  unfolding share_print
  share_print-IsCreated req vendor print w {t = t} h =
      let (now, timed, h1) = >>=-eq-ok now_utc _ w h in
      let (expires_at, added, h2) = >>=-eq-ok (or_panic _) _ _ h1 in
      let (stored, storing, h3) =
        >>=-eq-ok
          (within storage
            (Shares.create print.id vendor.id expires_at req.max_downloads req.note req.created_by))
          _ _ h2 in
      let created =
        create-IsCreated print.id vendor.id expires_at req.max_downloads req.note req.created_by _ (
          within-runs storage
            (Shares.create print.id vendor.id expires_at req.max_downloads req.note req.created_by)
            _ storing) in
      let found =
        Keeps-to {P = Stored created.row} (with_audit _) _ h3
          (search (service_rules, OfShares-IsFramed)) (record { at = created.stored }) in
      let (u, written, h4) = >>=-eq-ok _ _ _ (with_audit-eq-ok _ _ h3) in
      (
        expires_at,
        subst (λ m. IsCreated print.id expires_at req.max_downloads m.0 m.1 t) (pure-eq-ok _ _ h4)
            (IsCreated-to created found.at),
      )

module _ ⦃os : Platform⦄ (gcm : IsGcm os) (filled : IsFilled os) (unique : IsUnique os) where
  store_share-IsOffered :
      (app : App) (req : NewShareRequest) (w : World) {made : Share × ShareSecrets × Vendor}
      {t : World}
      → length req.created_by ≡ 16
      → store_share app req w ≡ (ok made, t)
      → IsOffered app.kek made.1.url_token made.1.access_code req made.0.id t
  unfolding store_share
  store_share-IsOffered app req w by h =
      let (vendor, known, h1) = >>=-eq-ok (find_or_create_vendor req) _ w h in
      let insert =
        Prints.insert app.kek req.print_filename req.print_bytes req.created_by req.cui_attested in
      let (print, inserting, h2) = >>=-eq-ok (within storage insert) _ _ h1 in
      let (file, its_id) =
        insert-Lasts app.kek req.print_filename req.print_bytes req.created_by req.cui_attested _
          gcm filled by (within-runs storage insert _ inserting) in
      let lasting =
        Keeps-to (share_print req vendor print) _ h2
          (share_print-Keeps (Lasts-IsKept unique filled) req vendor print) file in
      let (expires_at, created) = share_print-IsCreated req vendor print _ h2 in
      record {
        row = created.row;
        its_id = sym created.id;
        stored = created.stored;
        limit = created.limit;
        unused = created.unused;
        unrevoked = created.unrevoked;
        offers = record {
          call = _;
          file = lasting;
          print = created.print ∙ its_id;
          token_hash = created.token;
          code_hash = created.code;
        };
      }

  -- A successful `create_share` answers the identifier of a stored share with no downloads and the
  -- requested limit, and the code and the URL of a token whose hashes are the share's; the share's
  -- print is the file of the request, to be read under the service's KEK.
  pub create_share-IsOffered :
      (app : App) (req : NewShareRequest) (w : World) {created : ShareCreated} {t : World}
      → length req.created_by ≡ 16
      → create_share app req w ≡ (ok created, t)
      → (token : Text) × (created.share_url ≡ share_url app token)
        × IsOffered app.kek token created.access_code req created.share_id t
  unfolding create_share
  create_share-IsOffered app req w {t = t} by h =
      let (made, making, h1) =
        >>=-eq-ok (spawn_blocking (with_store (store_share app req))) _ w h in
      let offered = store_share-IsOffered app req w by (
        with_store-eq-ok (store_share app req) w (
          spawn_blocking-eq-ok _ w
            (run-eq-ok (spawn_blocking (with_store (store_share app req))) w making))) in
      let row = offered.row in
      let stored =
        Keeps-to {P = Stored row} (post _ >>= _) _ h1 (search (service_rules, OfShares-IsFramed))
          (record { at = offered.stored }) in
      let lasting =
        Keeps-to {P = Lasts offered.offers.call app.kek req.print_bytes req.print_filename}
          (post _ >>= _) _ h1 (search (service_rules, Lasts-IsFramed)) offered.offers.file in
      let (u, mailed, h2) = >>=-eq-ok (post _) _ _ h1 in
      let (v, texted, h3) =
        >>=-eq-ok
          (maybe made.2.primary_phone (pure tt)
            (λ phone. post (sms phone (sms_body made.1.access_code req.expires_in_hours))))
          _ _ h2 in
      let answer = pure-eq-ok _ _ h3 in
      (
        made.1.url_token,
        ap (λ c. c.share_url) (sym answer),
        subst (λ c. IsOffered app.kek made.1.url_token c.access_code req c.share_id t) answer
            (record {
              row = row;
              its_id = offered.its_id;
              stored = stored.at;
              limit = offered.limit;
              unused = offered.unused;
              unrevoked = offered.unrevoked;
              offers = record {
                call = offered.offers.call;
                file = lasting;
                print = offered.offers.print;
                token_hash = offered.offers.token_hash;
                code_hash = offered.offers.code_hash;
              };
            }),
      )
