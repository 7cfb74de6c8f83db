-- ===== src/Tests/Store.antt =====
-- The share table under single calls and under sequences of requests.
use fips_dropbox.Prelude.{
  Bool, true, ◌↔◌, ◌+◌, ◌≤◌, ◌≡◌, refl, false, List, [], ◌∷◌, some, list_eq, arith, if◌then◌else◌,
}
use fips_dropbox.Prelude.Table
use fips_dropbox.Prelude.Table.Laws.{All}
use fips_dropbox.Text.{Bytes}
use fips_dropbox.Result.{ok}
use fips_dropbox.Storage.Shares.{has_id, try_consume_download}
use fips_dropbox.Storage.Consume.{IsKeyed, IsOpen, one_more, call_millis, try_consume-exact}
use fips_dropbox.Service.History.{Request, redeems, revokes_share, serve}
use fips_dropbox.Service.History.Shares.{
  IsWithinLimit, Continues, serve-IsWithinLimit, serve-IsKeyed, serve-Continues,
}
use fips_dropbox.Service.Redeem.Limit.{redemptions, redemptions-bound}
use fips_dropbox.Tests.Sample.{os, world, app, redeem_request, share_row, uuid}

abbrev requests : List Request
requests =
    redeems redeem_request ∷ revokes_share (uuid 4) (uuid 1) [] [] ∷ redeems redeem_request ∷ []

stored : Table.find (has_id (uuid 4)) world.db.shares ≡ some share_row
unfolding Table.find has_id list_eq
stored = refl

redemptions-bound_example : redemptions ⦃os = os⦄ app share_row.token_hash world requests + 1 ≤ 2
redemptions-bound_example =
    redemptions-bound ⦃os = os⦄ app requests world share_row (tt, tt) (omega arith, tt) stored

serve-IsWithinLimit_example : All IsWithinLimit (serve ⦃os = os⦄ app world requests).db.shares
serve-IsWithinLimit_example = serve-IsWithinLimit ⦃os = os⦄ app world requests (omega arith, tt)

serve-IsKeyed_example : IsKeyed (serve ⦃os = os⦄ app world requests).db.shares
serve-IsKeyed_example = serve-IsKeyed ⦃os = os⦄ app world requests (tt, tt)

serve-Continues_example :
    Continues (uuid 4) share_row (serve ⦃os = os⦄ app world requests).db.shares
serve-Continues_example = serve-Continues ⦃os = os⦄ app world requests (uuid 4) share_row stored

try_consume-exact_example :
    (answer : Bool) × ((try_consume_download ⦃os = os⦄ (uuid 4) world).0 ≡ ok answer)
    × ((answer ≡ true) ↔ IsOpen (call_millis ⦃os = os⦄ world) share_row)
    × (Table.find (has_id (uuid 4)) (try_consume_download ⦃os = os⦄ (uuid 4) world).1.db.shares
        ≡ some (if answer then one_more share_row else share_row))
    × ((other : Bytes)
        → list_eq other (uuid 4) ≡ false
        → Table.find (has_id other) (try_consume_download ⦃os = os⦄ (uuid 4) world).1.db.shares
          ≡ Table.find (has_id other) world.db.shares)
try_consume-exact_example =
    try_consume-exact ⦃os = os⦄ (uuid 4) world {s = share_row} (tt, tt) stored refl
