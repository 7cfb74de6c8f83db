-- ===== src/Service/Redeem/Limit.antt =====
-- How often a link can be redeemed in any sequence of requests.
use mathlib.Core.Option
use fips_dropbox.Prelude.{
  ℕ, ◌+◌, ◌≤◌, ◌≡◌, refl, sym, subst, ap, ◌∙◌, inl, inr, Bool, true, false, some, List, [], ◌∷◌,
  arith, list_eq, list_eq_refl, eq_of_list_eq, Bool-cases, ◌&&◌, if◌then◌else◌,
}
use fips_dropbox.Prelude.Table
use fips_dropbox.Prelude.Table.Laws.{All, find-All}
use fips_dropbox.Text.{Bytes, as_bytes}
use fips_dropbox.Result.{Result, ok, err, panic}
use fips_dropbox.Errors.{CryptoError, ServiceError}
use fips_dropbox.Platform.{Platform}
use fips_dropbox.World.{World}
use fips_dropbox.Crypto
use fips_dropbox.Storage.Rows.{ShareRow}
use fips_dropbox.Storage.Shares.{has_id}
use fips_dropbox.Storage.Stable.{clashes}
use fips_dropbox.Storage.Consume.{one_more, IsKeyed}
use fips_dropbox.Storage.Stable.Kept.{OfShares-IsKept}
use fips_dropbox.Service.{App}
use fips_dropbox.Service.Redeem.{RedeemRequest, RedeemResponse, redeem_share}
use fips_dropbox.Service.Redeem.Success.{redeem_share-Redeemed}
use fips_dropbox.Service.History.{Request, redeems, step}
use fips_dropbox.Service.History.Operations.{step-Keeps}
use fips_dropbox.Service.History.Shares.{
  IsWithinLimit, Descends, Descends-refl, Continues, limit-IsStable, IsKeyed-IsStable,
  Continues-IsStable,
}

abbrev is_ok : {E A : Type 0} → Result E A → Bool
is_ok (ok a) = true
is_ok (err e) = false
is_ok panic = false

abbrev is_hash : Bytes → Result CryptoError Bytes → Bool
is_hash h (ok g) = list_eq g h
is_hash h (err e) = false
is_hash h panic = false

module _ ⦃os : Platform⦄ (app : App) (h : Bytes) where
  -- Whether the request is answered with the file of the link whose token hashes to `h`.
  unfoldable pub is_redemption : Request → World → Bool
  is_redemption (redeems req) w =
      is_hash h (Crypto.sha256 (as_bytes req.token)) && is_ok (redeem_share app req w).0
  is_redemption _ w = false

  -- How many of the requests are.
  unfoldable pub redemptions : World → List Request → ℕ
  unfolding is_redemption
  redemptions w [] = 0
  redemptions w (r ∷ requests) =
      (if is_redemption r w then 1 else 0) + redemptions (step app r w) requests

-- Under distinct keys the row of an identifier is the row of its token.
pub by_id-by_token :
    (id : Bytes) (rows : List ShareRow) {s : ShareRow}
    → IsKeyed rows
    → Table.find (has_id id) rows ≡ some s
    → Table.find (λ t. list_eq t.token_hash s.token_hash) rows ≡ some s
unfolding Table.find
by_id-by_token id [] keyed found = cc
by_id-by_token id (t ∷ rows) {s} keyed found = elim (Bool-cases (has_id id t)) [
  | inl hit ↦ let same : t ≡ s = ground arith in rw (sym same, list_eq_refl t.token_hash) refl
  | inr miss ↦
      let rest : Table.find (has_id id) rows ≡ some s = ground arith in
      let apart : clashes s t ≡ false =
        find-All (λ r. clashes r t ≡ false) (has_id id) rows {r = s} keyed.0 rest in
      ground (arith, by_id-by_token id rows {s = s} keyed.1 rest)
]

pub same_token :
    (rows : List ShareRow) (s r : ShareRow)
    → IsKeyed rows
    → Table.find (has_id s.id) rows ≡ some s
    → Table.find (has_id r.id) rows ≡ some r
    → r.token_hash ≡ s.token_hash
    → r ≡ s
same_token rows s r keyed found_s found_r e =
    let two : Table.find (λ t. list_eq t.token_hash s.token_hash) rows ≡ some r =
      subst (λ g. Table.find (λ t. list_eq t.token_hash g) rows ≡ some r) e
        (by_id-by_token r.id rows {s = r} keyed found_r) in
    Option.some-injective r s (sym two ∙ by_id-by_token s.id rows {s = s} keyed found_s)

module _ ⦃os : Platform⦄ (app : App) where
  after_step :
      (r : Request) (w : World) (s : ShareRow)
      → Table.find (has_id s.id) w.db.shares ≡ some s
      → Continues s.id s (step app r w).db.shares
  after_step r w s found =
      (step-Keeps (OfShares-IsKept (Continues-IsStable s.id s)) app r w
        (record { at = (s, found, Descends-refl s) })).at

  is_ok-eq-ok :
      (p : Result ServiceError RedeemResponse × World)
      → is_ok p.0 ≡ true
      → (resp : RedeemResponse) × (p ≡ (ok resp, p.1))
  is_ok-eq-ok (ok resp, t) h = (resp, refl)
  is_ok-eq-ok (err e, t) h = cc
  is_ok-eq-ok (panic, t) h = cc

  is_hash-eq-ok : (h : Bytes) (r : Result CryptoError Bytes) → is_hash h r ≡ true → r ≡ ok h
  is_hash-eq-ok h (ok g) e = ap ok (eq_of_list_eq g h e)
  is_hash-eq-ok h (err c) e = cc
  is_hash-eq-ok h panic e = cc

  -- A redemption raises the count of its share, which was below the limit.
  redeems-counted :
      (req : RedeemRequest) (w : World) (s : ShareRow)
      → IsKeyed w.db.shares
      → Table.find (has_id s.id) w.db.shares ≡ some s
      → is_redemption app s.token_hash (redeems req) w ≡ true
      → (Table.find (has_id s.id) (step app (redeems req) w).db.shares ≡ some (one_more s))
        × (s.download_count + 1 ≤ s.max_downloads)
  unfolding is_redemption step
  redeems-counted req w s keyed found h =
      let hit : is_hash s.token_hash (Crypto.sha256 (as_bytes req.token)) ≡ true = ground arith in
      let fine : is_ok (redeem_share app req w).0 ≡ true = ground arith in
      let (resp, e) = is_ok-eq-ok (redeem_share app req w) fine in
      let (r, redeemed) = redeem_share-Redeemed app req w keyed e in
      let hashes : ok r.token_hash ≡ ok s.token_hash =
        sym redeemed.token ∙ is_hash-eq-ok s.token_hash _ hit in
      let same = same_token w.db.shares s r keyed found redeemed.stored cc in
      (rw same at redeemed.counted, omega (arith, (rw same at redeemed.open_now).below_limit))

  is_redemption-eq-true :
      (h : Bytes) (r : Request) (w : World)
      → is_redemption app h r w ≡ true
      → (req : RedeemRequest) × (r ≡ redeems req)
  unfolding is_redemption
  is_redemption-eq-true h (redeems req) w e = (req, refl)
  is_redemption-eq-true h _ w e = absurd (cc)

  -- The share after a request that does or does not redeem it.
  after_request :
      (r : Request) (w : World) (s : ShareRow) (hit : Bool)
      → is_redemption app s.token_hash r w ≡ hit
      → IsKeyed w.db.shares
      → Table.find (has_id s.id) w.db.shares ≡ some s
      → (n : ShareRow) × (Table.find (has_id s.id) (step app r w).db.shares ≡ some n)
        × Descends s n
        × ((if hit then 1 else 0) + s.download_count ≤ n.download_count)
  after_request r w s false e keyed found =
      let (n, there, d) = after_step r w s found in (n, there, d, omega (arith, d.download_count))
  after_request r w s true e keyed found =
      let (req, is_req) = is_redemption-eq-true s.token_hash r w e in
      let (n, there, d) = after_step r w s found in
      let (counted, room) =
        redeems-counted req w s keyed found
          (sym (ap (λ q. is_redemption app s.token_hash q w) is_req) ∙ e) in
      let is_n : n ≡ one_more s = Option.some-injective n (one_more s) (
        sym there ∙ ap (λ q. Table.find (has_id s.id) (step app q w).db.shares) is_req ∙ counted) in
      (n, there, d, raised n is_n)
    where
      raised : (n : ShareRow) → n ≡ one_more s → 1 + s.download_count ≤ n.download_count
      raised n e = rw e (omega arith)

  -- However requests follow one another, and however they end, the successful redemptions of one link, with
  -- those its share counted before, are at most the downloads that the share allows; given that
  -- before the requests no two shares have a key in common and no share was downloaded more often than it
  -- allows.
  pub redemptions-bound :
      (requests : List Request) (w : World) (s : ShareRow)
      → IsKeyed w.db.shares
      → All IsWithinLimit w.db.shares
      → Table.find (has_id s.id) w.db.shares ≡ some s
      → redemptions app s.token_hash w requests + s.download_count ≤ s.max_downloads
  unfolding redemptions
  redemptions-bound [] w s keyed within_limit found =
      omega (arith, find-All IsWithinLimit (has_id s.id) w.db.shares within_limit found)
  redemptions-bound (r ∷ requests) w s keyed within_limit found =
      let (n, there, d, more) = after_request r w s _ refl keyed found in
      let keyed' =
        (step-Keeps (OfShares-IsKept IsKeyed-IsStable) app r w (record { at = keyed })).at in
      let within' =
        (step-Keeps (OfShares-IsKept limit-IsStable) app r w (record { at = within_limit })).at in
      let rest : redemptions app s.token_hash (step app r w) requests + n.download_count
          ≤ n.max_downloads =
        rw (sym d.token_hash) (
          redemptions-bound requests (step app r w) n keyed' within'
            (ap (λ i. Table.find (has_id i) (step app r w).db.shares) d.id ∙ there)) in
      omega (arith, d.max_downloads)
