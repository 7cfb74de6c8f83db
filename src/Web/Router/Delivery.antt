-- ===== src/Web/Router/Delivery.antt =====
-- From the upload of a file to its download: `create_share` of crates/service/src/lib.rs, any requests
-- over HTTP, and `redeem_share`.
use fips_dropbox.Prelude.{◌≡◌, refl, sym, ap, ◌∙◌, subst, List, codes, length, cancel_left}
use fips_dropbox.Prelude.Table
use fips_dropbox.Text.{Text, Bytes, as_bytes, trim_end_matches}
use fips_dropbox.Result.{ok, ok_unique}
use fips_dropbox.Effect.Keeps.{Keeps-to}
use fips_dropbox.Platform.{Platform}
use fips_dropbox.World.{World, called}
use fips_dropbox.Cng.Gcm.{IsGcm}
use fips_dropbox.Crypto
use fips_dropbox.Crypto.Filled.{IsFilled}
use fips_dropbox.Storage.Rows.{ShareRow}
use fips_dropbox.Storage.Consume.{IsKeyed}
use fips_dropbox.Storage.Shares.{has_id, try_consume_download}
use fips_dropbox.Storage.Stable.Kept.{OfShares-IsKept}
use fips_dropbox.Storage.Prints.Paths.{IsUnique}
use fips_dropbox.Storage.Prints.Readable.{IsReadable}
use fips_dropbox.Storage.Prints.Lasting.{Lasts-IsFramed, Lasts-IsKept}
use fips_dropbox.Service.{App}
use fips_dropbox.Service.Create.{NewShareRequest, ShareCreated, share_url, create_share}
use fips_dropbox.Service.Create.Offered.{Offers, create_share-IsOffered}
use fips_dropbox.Service.History.Keeping.{try_consume-Keeps}
use fips_dropbox.Service.History.Operations.{create_share-Keeps}
use fips_dropbox.Service.History.Shares.{
  IsKeyed-IsStable, Continues, Continues-IsStable, Descends-refl,
}
use fips_dropbox.Service.Redeem.{RedeemRequest, RedeemResponse, redeem_share}
use fips_dropbox.Service.Redeem.Limit.{same_token}
use fips_dropbox.Service.Redeem.Success.{redeem_share-Delivers}
use fips_dropbox.Service.Redeem.Delivered.{deliver-content}
use fips_dropbox.Web.Http.{Http, Headers}
use fips_dropbox.Web.Router.{Route}
use fips_dropbox.Web.Router.History.{browse, browse-Keeps}

-- Two tokens have two URLs.
share_url-injective : (app : App) (a b : Text) → share_url app a ≡ share_url app b → a ≡ b
unfolding share_url
share_url-injective app a b e = cancel_left (codes "/r/") (codes "/r/") a b refl (
    cancel_left (trim_end_matches b'/' app.public_base_url)
      (trim_end_matches b'/' app.public_base_url) _ _ refl e)

module _ ⦃os : Platform⦄ (app : App) where
  -- A redemption of the token of a link returns the file of the link.
  redeemed-file :
      {token code : Text} {plaintext : Bytes} {filename : Text} {row : ShareRow}
      (redeem : RedeemRequest) (w : World) {resp : RedeemResponse} {t : World}
      → IsFilled os
      → IsUnique os
      → IsKeyed w.db.shares
      → Offers app.kek token code plaintext filename row w
      → Continues row.id row w.db.shares
      → redeem.token ≡ token
      → redeem_share app redeem w ≡ (ok resp, t)
      → (resp.content ≡ plaintext) × (resp.filename ≡ filename)
  redeemed-file {plaintext = plaintext} {filename = filename} {row = row} redeem w filled unique
        keyed offers (r, found, d) its_token h =
      let (s, redeemed, delivers) = redeem_share-Delivers app redeem w keyed h in
      let hash : s.token_hash ≡ r.token_hash =
        ok_unique _ redeemed.token
          (ap (λ t. Crypto.sha256 (as_bytes t)) its_token ∙ offers.token_hash)
        ∙ sym d.token_hash in
      let same : s ≡ r =
        same_token w.db.shares r s keyed (ap (λ i. Table.find (has_id i) w.db.shares) d.id ∙ found)
          redeemed.stored hash in
      let print : delivers.share.print_id ≡ os.now_v7 offers.call =
        delivers.its_print ∙ ap (λ x. x.print_id) same ∙ d.print_id ∙ offers.print in
      let consumed = (try_consume_download delivers.share.id (called w)).1 in
      let file =
        (try_consume-Keeps (Lasts-IsKept unique filled) delivers.share.id).at (called w)
          (Lasts-IsFramed.after_call w offers.file) in
      deliver-content app redeem delivers.share consumed
        (subst (λ i. IsReadable app.kek i plaintext filename consumed) (sym print) file.readable)
        delivers.delivered

module _ ⦃os : Platform⦄ ⦃http : Http⦄ (app : App) where
  -- If a link is created, any requests follow over HTTP, with whatever faults of the platform, and
  -- a redemption of the link's token returns a file, then it is the file of the link, under its
  -- name. AES-GCM is as documented, the platform fills its buffers, identifiers are unique, and no
  -- two shares had a key in common before.
  pub redeem_share-create_share :
      (req : NewShareRequest) (redeem : RedeemRequest) (requests : List (Headers × Route))
      (w : World) {created : ShareCreated} {t : World} {resp : RedeemResponse} {u : World}
      → IsGcm os
      → IsFilled os
      → IsUnique os
      → length req.created_by ≡ 16
      → IsKeyed w.db.shares
      → create_share app req w ≡ (ok created, t)
      → created.share_url ≡ share_url app redeem.token
      → redeem_share app redeem (browse app t requests) ≡ (ok resp, u)
      → (resp.content ≡ req.print_bytes) × (resp.filename ≡ req.print_filename)
  redeem_share-create_share req redeem requests w {t = t} gcm filled unique by keyed making its_url
        h =
      let (token, url, offered) = create_share-IsOffered gcm filled unique app req w by making in
      let row = offered.row in
      let keyed_t =
        Keeps-to (create_share app req) w making
          (create_share-Keeps (OfShares-IsKept IsKeyed-IsStable) app req) (record { at = keyed }) in
      let keyed_v = browse-Keeps app (OfShares-IsKept IsKeyed-IsStable) t requests keyed_t in
      let there =
        browse-Keeps app (OfShares-IsKept (Continues-IsStable row.id row)) t requests
          (record { at = (row, offered.stored, Descends-refl row) }) in
      let offers = offered.offers in
      redeemed-file app redeem (browse app t requests) filled unique keyed_v.at
        (record {
          call = offers.call;
          file = browse-Keeps app (Lasts-IsKept unique filled) t requests offers.file;
          print = offers.print;
          token_hash = offers.token_hash;
          code_hash = offers.code_hash;
        })
        there.at (share_url-injective app redeem.token token (sym its_url ∙ url)) h
