-- ===== src/Service/Create.antt =====
-- `create_share` and `revoke_share` of crates/service/src/lib.rs.
pub mod Offered
use fips_dropbox.Prelude.{ℕ, Bool, Option, some, ◌∷◌, ◌++◌, codes, length, is_some}
use fips_dropbox.Text.{Text, Bytes, trim_end_matches, decimal}
use fips_dropbox.Time.{add_hours}
use fips_dropbox.Effect.{M, pure, or_panic, modify, within, maybe, ◌>>=◌, ◌>>◌}
use fips_dropbox.Errors.{ServiceError, storage}
use fips_dropbox.Platform.{Platform}
use fips_dropbox.Event.{Outcome, num, bool, str, obj, end, field}
use fips_dropbox.World.{World, Message, email, sms, now_utc}
use fips_dropbox.Storage.Records.{Share, ShareSecrets, Vendor, Print}
use fips_dropbox.Storage.Vendors
use fips_dropbox.Storage.Prints
use fips_dropbox.Storage.Shares
use fips_dropbox.Service.{
  App, with_store, with_audit, spawn_blocking, json_field, json_empty, write_event,
}

pub record NewShareRequest : Type 0 where
  pub print_filename : Text
  pub print_bytes : Bytes
  pub vendor_email : Text
  pub vendor_phone : Option Text
  pub vendor_display_name : Text
  pub expires_in_hours : ℕ
  pub max_downloads : ℕ
  pub note : Option Text
  pub cui_attested : Bool
  pub created_by : Bytes
  pub ip : Text
  pub user_agent : Text

pub record ShareCreated : Type 0 where
  pub share_id : Bytes
  pub share_url : Text
  pub access_code : Text
  pub vendor_email : Text
  pub vendor_phone : Option Text

unfoldable pub share_url : App → Text → Text
share_url app url_token = trim_end_matches b'/' app.public_base_url ++ (codes "/r/" ++ url_token)

unfoldable pub email_body : Text → Text
email_body url =
    codes "Open: " ++ (url ++ codes "\n\nYour access code was sent to your phone separately.\n")

unfoldable pub sms_body : Text → ℕ → Text
sms_body access_code hours =
    codes "Secure share access code: "
    ++ (access_code ++ (codes " (expires in " ++ (decimal 10 hours ++ codes "h)")))

-- `self.email.send(…)`: an error is only logged.
unfoldable pub post : Message → M World ServiceError Unit
post m = modify (λ w. record w { outbox = m ∷ w.outbox })

module _ ⦃os : Platform⦄ where
  unfoldable pub find_or_create_vendor : NewShareRequest → M World ServiceError Vendor
  find_or_create_vendor req = do
    known ← within storage (Vendors.find_by_email req.vendor_email)
    maybe known
        (within storage
          (Vendors.create req.vendor_display_name req.vendor_email req.vendor_phone req.created_by))
        pure

  -- After the print is stored.
  unfoldable pub share_print :
      NewShareRequest → Vendor → Print → M World ServiceError (Share × ShareSecrets × Vendor)
  share_print req vendor print = do
    now ← now_utc
    expires_at ← or_panic (add_hours now req.expires_in_hours)
    stored ←
        within storage
          (Shares.create print.id vendor.id expires_at req.max_downloads req.note req.created_by)
    with_audit (do
      write_event (codes "share.created") Outcome.success (some req.created_by) req.ip
          req.user_agent
          (obj (
            field (codes "share_id") (str (os.uuid_to_string stored.0.id)) (
              field (codes "print_id") (str (os.uuid_to_string print.id))
                (field (codes "vendor_id") (str (os.uuid_to_string vendor.id)) end))))
          (obj (
            field (codes "filename") (str req.print_filename) (
              field (codes "size_bytes") (num (length req.print_bytes)) (
                field (codes "max_downloads") (num req.max_downloads) (
                  field (codes "expires_in_hours") (num req.expires_in_hours)
                    (field (codes "note_present") (bool (is_some req.note)) end))))))
      pure (stored.0, stored.1, vendor))

  -- The closure that holds the store's mutex.
  unfoldable pub store_share :
      App → NewShareRequest → M World ServiceError (Share × ShareSecrets × Vendor)
  unfolding find_or_create_vendor share_print
  store_share app req = do
    vendor ← find_or_create_vendor req
    print ←
        within storage
          (Prints.insert app.kek req.print_filename req.print_bytes req.created_by req.cui_attested)
    share_print req vendor print

  unfoldable pub create_share : App → NewShareRequest → M World ServiceError ShareCreated
  unfolding share_url email_body sms_body post
  create_share app req = do
    created ← spawn_blocking (with_store (store_share app req))
    let secrets = created.1
    let vendor = created.2
    let url = share_url app secrets.url_token
    post (
        email vendor.primary_email (codes "A secure file has been shared with you")
          (email_body url))
    maybe vendor.primary_phone (pure tt)
        (λ phone. post (sms phone (sms_body secrets.access_code req.expires_in_hours)))
    pure (record {
      share_id = created.0.id;
      share_url = url;
      access_code = secrets.access_code;
      vendor_email = vendor.primary_email;
      vendor_phone = vendor.primary_phone;
    })

  unfoldable pub revoke_share : Bytes → Bytes → Text → Text → M World ServiceError Unit
  revoke_share share_id by ip ua = spawn_blocking (
      with_store (do
        within storage (Shares.revoke share_id)
        with_audit (
            write_event (codes "share.revoked") Outcome.success (some by) ip ua
              (json_field (codes "share_id") (os.uuid_to_string share_id)) json_empty)))
