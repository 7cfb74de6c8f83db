-- ===== src/Service/Redeem.antt =====
-- `redeem_share` of crates/service/src/lib.rs: a vendor opens a link with an access code.
pub mod Inversion
pub mod Success
pub mod Delivered
pub mod Succeeding
pub mod Limit
pub mod Sparing
pub mod Refused
use fips_dropbox.Prelude.{ℕ, Option, none, some, ◌∷◌, [], ◌++◌, codes, ltb, if◌then◌else◌}
use fips_dropbox.Text.{Text, Bytes, as_bytes, len, slice_to}
use fips_dropbox.Result.{convert}
use fips_dropbox.Effect.{M, pure, fail, lift, or_panic, within, maybe, ◌>>=◌, ◌>>◌}
use fips_dropbox.Errors.{
  ServiceError, storage, crypto, not_found, invalid_credentials, share_unavailable,
}
use fips_dropbox.Platform.{Platform}
use fips_dropbox.Event.{Outcome, num, str, obj, end, field}
use fips_dropbox.World.{World}
use fips_dropbox.Crypto
use fips_dropbox.Storage.Records.{Share, Print}
use fips_dropbox.Storage.Prints
use fips_dropbox.Storage.Shares
use fips_dropbox.Service.{App, with_store, with_audit, spawn_blocking, json_field, write_event}

pub record RedeemRequest : Type 0 where
  pub token : Text
  pub access_code : Text
  pub ip : Text
  pub user_agent : Text

pub record RedeemResponse : Type 0 where
  pub filename : Text
  pub content : Bytes
  pub sha256 : Bytes

-- `format!("{}…", &t[..6])`; `none` is the panic of the slice.
unfoldable pub short_token : Text → Option Text
short_token t =
    if ltb 6 (len t)
    then elim (slice_to 6 t) [ none ↦ none | some prefix ↦ some (prefix ++ 0x2026 ∷ []) ]
    else some t

module _ ⦃os : Platform⦄ where
  unfoldable pub denied :
      {A : Type 0} → RedeemRequest → Share → Text → ServiceError → M World ServiceError A
  denied req share reason e = with_audit (do
    write_event (codes "share.redeem") Outcome.denied none req.ip req.user_agent
        (json_field (codes "share_id") (os.uuid_to_string share.id))
        (json_field (codes "reason") reason)
    fail e)

  -- The audit mutex is held when the token is cut.
  unfoldable pub unknown_token : {A : Type 0} → RedeemRequest → M World ServiceError A
  unfolding short_token
  unknown_token req = with_audit (do
    prefix ← or_panic (short_token req.token)
    write_event (codes "share.redeem") Outcome.denied none req.ip req.user_agent
        (json_field (codes "token_prefix") prefix)
        (json_field (codes "reason") (codes "unknown_token"))
    fail not_found)

  -- After a download is counted.
  unfoldable pub deliver : App → RedeemRequest → Share → M World ServiceError RedeemResponse
  deliver app req share = do
    found ← within storage (Prints.find share.print_id)
    maybe found (fail not_found) λ print. do
      content ← within storage (Prints.read_blob app.kek share.print_id)
      with_audit (do
        write_event (codes "share.redeem") Outcome.success none req.ip req.user_agent
            (obj (
              field (codes "share_id") (str (os.uuid_to_string share.id)) (
                field (codes "print_id") (str (os.uuid_to_string print.id))
                  (field (codes "vendor_id") (str (os.uuid_to_string share.vendor_id)) end))))
            (obj (
              field (codes "filename") (str print.filename)
                (field (codes "size_bytes") (num print.size_bytes) end)))
        pure (record {
          filename = print.filename;
          content = content;
          sha256 = print.sha256_plaintext;
        }))

  -- After the share is found.
  unfoldable pub redeem_found : App → RedeemRequest → Share → M World ServiceError RedeemResponse
  unfolding denied deliver
  redeem_found app req share = do
    right ← lift (convert storage (Shares.verify_access_code share req.access_code))
    if right
        then (do
          consumed ← within storage (Shares.try_consume_download share.id)
          if consumed
              then deliver app req share
              else denied req share (codes "unavailable") share_unavailable)
        else denied req share (codes "bad_access_code") invalid_credentials

  unfoldable pub redeem_share : App → RedeemRequest → M World ServiceError RedeemResponse
  unfolding unknown_token redeem_found
  redeem_share app req = spawn_blocking (
      with_store (do
        token_hash ← lift (convert crypto (Crypto.sha256 (as_bytes req.token)))
        found ← within storage (Shares.find_by_token_hash token_hash)
        maybe found (unknown_token req) (redeem_found app req)))
