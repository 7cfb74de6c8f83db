-- ===== src/Service/Redeem/Inversion.antt =====
-- What a successful redemption says of the steps of `redeem_share`.
use fips_dropbox.Prelude.{
  ◌≡◌, refl, sym, ap, ◌∙◌, inl, inr, Bool, true, false, Option, some, none, List, [], ◌∷◌, codes,
  arith, list_eq, list_eq_refl, Bool-cases, if◌then◌else◌,
}
use fips_dropbox.Prelude.Table
use fips_dropbox.Prelude.Table.Laws.{find-All}
use fips_dropbox.Text.{Text, Bytes, as_bytes}
use fips_dropbox.Result
use fips_dropbox.Result.{Result, ok, err, panic, convert, convert-eq-ok}
use fips_dropbox.Effect.{lift, fail, within, maybe, ◌>>=◌, >>=-eq-ok, within-eq-ok}
use fips_dropbox.Errors.{
  ServiceError, not_found, share_unavailable, invalid_credentials, storage, crypto,
}
use fips_dropbox.Platform.{Platform}
use fips_dropbox.World.{World, called, execute, execute_with}
use fips_dropbox.Crypto
use fips_dropbox.Crypto.Compare.{constant_time_eq_iff}
use fips_dropbox.Storage.Rows.{ShareRow}
use fips_dropbox.Storage.Records.{Share}
use fips_dropbox.Storage.Decode.{row_to_share, bytes_of, optional}
use fips_dropbox.Storage.Queries.{select}
use fips_dropbox.Storage.Shares
use fips_dropbox.Storage.Shares.{has_id, usable, count_download}
use fips_dropbox.Storage.Stable.{OfShares-IsFramed, clashes}
use fips_dropbox.Storage.Consume.{IsKeyed}
use fips_dropbox.Service.{App}
use fips_dropbox.Service.Inversion.{with_audit-eq-ok}
use fips_dropbox.Service.History.Operations.{deliver-Keeps}
use fips_dropbox.Service.Redeem.{
  RedeemRequest, RedeemResponse, denied, unknown_token, deliver, redeem_found,
}

-- Under distinct keys the row of a token is the row of its identifier.
pub by_token-by_id :
    (h : Bytes) (rows : List ShareRow) {s : ShareRow}
    → IsKeyed rows
    → Table.find (λ t. list_eq t.token_hash h) rows ≡ some s
    → Table.find (has_id s.id) rows ≡ some s
unfolding Table.find has_id
by_token-by_id h [] keyed found = cc
by_token-by_id h (t ∷ rows) {s} keyed found = elim (Bool-cases (list_eq t.token_hash h)) [
  | inl hit ↦ let same : t ≡ s = ground arith in rw (sym same, list_eq_refl t.id) refl
  | inr miss ↦
      let rest : Table.find (λ r. list_eq r.token_hash h) rows ≡ some s = ground arith in
      let apart : clashes s t ≡ false =
        find-All (λ r. clashes r t ≡ false) (λ r. list_eq r.token_hash h) rows {r = s} keyed.0
          rest in
      ground (arith, by_token-by_id h rows {s = s} keyed.1 rest)
]

-- What a decoded share has of its row.
pub row_to_share-fields :
    (s : ShareRow) {share : Share}
    → row_to_share s ≡ ok share
    → (share.id ≡ s.id)
      × (share.print_id ≡ s.print_id)
      × (share.access_code_hash ≡ s.access_code_hash)
unfolding row_to_share bytes_of
row_to_share-fields s h = ground arith

module _ ⦃os : Platform⦄ where
  pub find_by_token_hash-row :
      (h : Bytes) (w : World) {share : Share}
      → (Shares.find_by_token_hash h w).0 ≡ ok (some share)
      → (s : ShareRow) × (Table.find (λ t. list_eq t.token_hash h) w.db.shares ≡ some s)
        × (row_to_share s ≡ ok share)
        × ((Shares.find_by_token_hash h w).1 ≡ called w)
  unfolding Shares.find_by_token_hash execute execute_with ◌>>=◌ select optional
  find_by_token_hash-row h w {share} e = ground arith

  lift-eq-ok :
      {A : Type 0} (r : Result ServiceError A) (w : World) {a : A}
      → (lift r w).0 ≡ ok a
      → (r ≡ ok a) × ((lift r w).1 ≡ w)
  unfolding ◌>>=◌
  lift-eq-ok r w h = (h, refl)

  fail-fails :
      {A : Type 0} (e : ServiceError) (w : World) {a : A} {t : World} → ¬ (fail e w ≡ (ok a, t))
  unfolding ◌>>=◌
  fail-fails e w h = cc

  denied-fails :
      {A : Type 0} (req : RedeemRequest) (share : Share) (reason : Text) (e : ServiceError)
      (w : World) {a : A} {t : World}
      → ¬ (denied req share reason e w ≡ (ok a, t))
  unfolding denied
  denied-fails req share reason e w h =
      let (u, first, last) = >>=-eq-ok _ _ w (with_audit-eq-ok _ w h) in fail-fails e _ last

  unknown_token-fails :
      {A : Type 0} (req : RedeemRequest) (w : World) {a : A} {t : World}
      → ¬ (unknown_token req w ≡ (ok a, t))
  unfolding unknown_token
  unknown_token-fails req w h =
      let (prefix, cut, rest) = >>=-eq-ok _ _ w (with_audit-eq-ok _ w h) in
      let (u, first, last) = >>=-eq-ok _ _ _ rest in fail-fails not_found _ last

  consumed-shares :
      (app : App) (req : RedeemRequest) (share : Share) (consumed : Bool) (w : World)
      {resp : RedeemResponse} {t : World}
      → (if consumed
            then deliver app req share
            else denied req share (codes "unavailable") share_unavailable)
          w
        ≡ (ok resp, t)
      → (consumed ≡ true) × (t.db.shares ≡ w.db.shares) × (deliver app req share w ≡ (ok resp, t))
  consumed-shares app req share true w h =
      let after =
        (deliver-Keeps (OfShares-IsFramed {P = λ rows. rows ≡ w.db.shares}) app req share).at w
          (record { at = refl }) in
      (refl, cc, h)
  consumed-shares app req share false w h = absurd (denied-fails req share _ _ w h)

  right_code :
      (share : Share) (candidate : Text)
      → Shares.verify_access_code share candidate ≡ ok true
      → Crypto.sha256 (as_bytes candidate) ≡ ok share.access_code_hash
  unfolding Shares.verify_access_code
  right_code share candidate h =
      let (hash, hashed, same) =
        Result.>>=-eq-ok (convert crypto (Crypto.sha256 (as_bytes candidate))) _ h in
      let exact : hash ≡ share.access_code_hash =
        (constant_time_eq_iff hash share.access_code_hash).0 cc in
      convert-eq-ok crypto (Crypto.sha256 (as_bytes candidate)) hashed ∙ ap ok exact

  after_code :
      (app : App) (req : RedeemRequest) (share : Share) (right : Bool) (w : World)
      {resp : RedeemResponse} {t : World}
      → (if right
            then (do
              consumed ← within storage (Shares.try_consume_download share.id)
              if consumed
                  then deliver app req share
                  else denied req share (codes "unavailable") share_unavailable)
            else denied req share (codes "bad_access_code") invalid_credentials)
          w
        ≡ (ok resp, t)
      → (right ≡ true)
        × ((Shares.try_consume_download share.id w).0 ≡ ok true)
        × (t.db.shares ≡ (Shares.try_consume_download share.id w).1.db.shares)
        × (deliver app req share (Shares.try_consume_download share.id w).1 ≡ (ok resp, t))
  unfolding ◌>>=◌
  after_code app req share false w h = absurd (denied-fails req share _ _ w h)
  after_code app req share true w h =
      let (consumed, first, rest) =
        >>=-eq-ok (within storage (Shares.try_consume_download share.id)) _ w h in
      let (counted, same, delivered) = consumed-shares app req share consumed _ rest in
      (
        refl,
        within-eq-ok storage (Shares.try_consume_download share.id) w first ∙ ap ok counted,
        same,
        delivered,
      )

  pub redeem_found-success :
      (app : App) (req : RedeemRequest) (share : Share) (w : World) {resp : RedeemResponse}
      {t : World}
      → redeem_found app req share w ≡ (ok resp, t)
      → (Crypto.sha256 (as_bytes req.access_code) ≡ ok share.access_code_hash)
        × ((Shares.try_consume_download share.id w).0 ≡ ok true)
        × (t.db.shares ≡ (Shares.try_consume_download share.id w).1.db.shares)
        × (deliver app req share (Shares.try_consume_download share.id w).1 ≡ (ok resp, t))
  unfolding redeem_found ◌>>=◌
  redeem_found-success app req share w h =
      let (right, checked, rest) =
        >>=-eq-ok (lift (convert storage (Shares.verify_access_code share req.access_code))) _ w
          h in
      let verified =
        convert-eq-ok storage (Shares.verify_access_code share req.access_code) checked in
      let (is_right, consumed, same, delivered) = after_code app req share right w rest in
      (right_code share req.access_code (verified ∙ ap ok is_right), consumed, same, delivered)

  pub after_lookup :
      (app : App) (req : RedeemRequest) (found : Option Share) (w : World) {resp : RedeemResponse}
      {t : World}
      → maybe found (unknown_token req) (redeem_found app req) w ≡ (ok resp, t)
      → (share : Share) × (found ≡ some share) × (redeem_found app req share w ≡ (ok resp, t))
  after_lookup app req none w h = absurd (unknown_token-fails req w h)
  after_lookup app req (some share) w h = (share, refl, h)
