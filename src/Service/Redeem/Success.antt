-- ===== src/Service/Redeem/Success.antt =====
-- What a successful `redeem_share` says of the share.
use fips_dropbox.Prelude.{suc, ◌≡◌, sym, ap, ◌∙◌, some, eq_of_list_eq}
use fips_dropbox.Prelude.Table
use fips_dropbox.Prelude.Table.Laws.{find_holds}
use fips_dropbox.Text.{Bytes, as_bytes}
use fips_dropbox.Time.{dt_to_millis}
use fips_dropbox.Result.{ok, convert, convert-eq-ok}
use fips_dropbox.Effect.{lift, within, ◌>>=◌, >>=-eq-ok, within-eq-ok}
use fips_dropbox.Errors.{storage, crypto}
use fips_dropbox.Platform.{Platform}
use fips_dropbox.World.{World, called}
use fips_dropbox.Crypto
use fips_dropbox.Storage.Rows.{ShareRow}
use fips_dropbox.Storage.Records.{Share}
use fips_dropbox.Storage.Shares
use fips_dropbox.Storage.Shares.{has_id}
use fips_dropbox.Storage.Consume.{IsKeyed, IsOpen, one_more, try_consume-true}
use fips_dropbox.Service.{App}
use fips_dropbox.Service.Inversion.{spawn_blocking-eq-ok, with_store-eq-ok}
use fips_dropbox.Service.Redeem.{RedeemRequest, RedeemResponse, deliver, redeem_found, redeem_share}
use fips_dropbox.Service.Redeem.Inversion.{
  by_token-by_id, row_to_share-fields, find_by_token_hash-row, redeem_found-success, after_lookup,
}

-- One download of `share` by this request took the world from `w` to `t`.
pub record Redeemed ⦃os : Platform⦄ (req : RedeemRequest) (w t : World) (share : ShareRow)
    : Type 0 where
  pub token : Crypto.sha256 (as_bytes req.token) ≡ ok share.token_hash
  pub stored : Table.find (has_id share.id) w.db.shares ≡ some share
  pub code : Crypto.sha256 (as_bytes req.access_code) ≡ ok share.access_code_hash
  pub open_now : IsOpen (dt_to_millis (os.now_utc (suc w.calls))) share
  pub counted : Table.find (has_id share.id) t.db.shares ≡ some (one_more share)

-- The print of the row was delivered after the download was counted.
pub record Delivers ⦃os : Platform⦄ (app : App) (req : RedeemRequest) (w : World)
    (resp : RedeemResponse) (t : World) (s : ShareRow) : Type 0 where
  pub share : Share
  pub its_print : share.print_id ≡ s.print_id
  pub delivered :
      deliver app req share (Shares.try_consume_download share.id (called w)).1 ≡ (ok resp, t)

module _ ⦃os : Platform⦄ (app : App) (req : RedeemRequest) (w : World) where
  redeem_found-Redeemed :
      (h : Bytes) {share : Share} {resp : RedeemResponse} {t : World}
      → IsKeyed w.db.shares
      → Crypto.sha256 (as_bytes req.token) ≡ ok h
      → (Shares.find_by_token_hash h w).0 ≡ ok (some share)
      → redeem_found app req share (Shares.find_by_token_hash h w).1 ≡ (ok resp, t)
      → (s : ShareRow) × Redeemed req w t s × Delivers app req w resp t s
  redeem_found-Redeemed h {share} {resp} {t} keyed hashed found e =
      let (s, row, decoded, next) = find_by_token_hash-row h w found in
      let (code, consumed, same, delivered) =
        redeem_found-success app req share (called w) (rw next at e) in
      let (its_id, its_print, its_code) = row_to_share-fields s decoded in
      let by_id = by_token-by_id h w.db.shares {s = s} keyed row in
      let (now, counted) =
        try_consume-true s.id (called w) {s = s} keyed by_id (rw its_id at consumed) in
      (
        s,
        record {
          token =
              hashed
              ∙ ap ok (sym (eq_of_list_eq s.token_hash h (find_holds _ w.db.shares {r = s} row)));
          stored = by_id;
          code = code ∙ ap ok its_code;
          open_now = now;
          counted = rw (rw its_id at same) counted;
        },
        record { share = share; its_print = its_print; delivered = delivered },
      )

  pub redeem_share-Delivers :
      {resp : RedeemResponse} {t : World}
      → IsKeyed w.db.shares
      → redeem_share app req w ≡ (ok resp, t)
      → (s : ShareRow) × Redeemed req w t s × Delivers app req w resp t s
  unfolding redeem_share ◌>>=◌
  redeem_share-Delivers keyed e =
      let (h, hashed, rest) =
        >>=-eq-ok (lift (convert crypto (Crypto.sha256 (as_bytes req.token)))) _ w
          (with_store-eq-ok _ w (spawn_blocking-eq-ok _ w e)) in
      let (found, looked_up, last) =
        >>=-eq-ok (within storage (Shares.find_by_token_hash h)) _ w rest in
      let (share, is_found, redeemed) = after_lookup app req found _ last in
      redeem_found-Redeemed h {share = share} keyed
        (convert-eq-ok crypto (Crypto.sha256 (as_bytes req.token)) hashed)
        (within-eq-ok storage (Shares.find_by_token_hash h) w looked_up ∙ ap ok is_found) redeemed

  -- If `redeem_share` returns a file and no two stored shares have a key in common, then one stored
  -- share has the hash of the token and the hash of the access code, it is not revoked, expires after
  -- the clock of the counting and has fewer downloads than its limit, and afterwards its count, and
  -- nothing else of it, is one higher.
  pub redeem_share-Redeemed :
      {resp : RedeemResponse} {t : World}
      → IsKeyed w.db.shares
      → redeem_share app req w ≡ (ok resp, t)
      → (s : ShareRow) × Redeemed req w t s
  redeem_share-Redeemed keyed e =
      let (s, redeemed, delivers) = redeem_share-Delivers keyed e in (s, redeemed)
