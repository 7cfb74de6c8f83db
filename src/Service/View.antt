-- ===== src/Service/View.antt =====
-- `list_audit_events` and `list_recent_shares` of crates/service/src/lib.rs.
pub mod Page
use fips_dropbox.Prelude.{
  ℕ, ◌-◌, not, Option, none, some, List, reverse, length, drop, filter_by, is_empty, if◌then◌else◌,
}
use fips_dropbox.Text.{Text, starts_with}
use fips_dropbox.Result.{convert}
use fips_dropbox.Effect.{M, pure, lift, within, ◌>>=◌}
use fips_dropbox.Errors.{ServiceError, audit, storage}
use fips_dropbox.Platform.{Platform}
use fips_dropbox.Event.{Event, ChainVerification}
use fips_dropbox.World.{World}
use fips_dropbox.Audit
use fips_dropbox.Storage.Records.{ShareListItem}
use fips_dropbox.Storage.Shares
use fips_dropbox.Service.{with_store, with_audit, spawn_blocking}

pub record AuditView : Type 0 where
  pub events : List Event
  pub verification : ChainVerification
  pub total_on_disk : ℕ

-- `Some(p) if !p.is_empty() => filter`
unfoldable pub with_prefix : Option Text → List Event → List Event
with_prefix none all = all
with_prefix (some p) all =
    if not (is_empty p) then filter_by (λ e. starts_with e.event p) all else all

-- The last `limit` events, newest first.
unfoldable pub page_of : ℕ → List Event → List Event
page_of limit filtered = reverse (drop (length filtered - limit) filtered)

module _ ⦃os : Platform⦄ where
  unfoldable pub list_audit_events : Option Text → ℕ → M World ServiceError AuditView
  unfolding with_prefix page_of
  list_audit_events event_prefix limit = spawn_blocking (
      with_audit (do
        all ← within audit Audit.read_all
        verification ← lift (convert audit (Audit.verify_chain all))
        pure (record {
          events = page_of limit (with_prefix event_prefix all);
          verification = verification;
          total_on_disk = length all;
        })))

  unfoldable pub list_recent_shares : ℕ → M World ServiceError (List ShareListItem)
  list_recent_shares limit = spawn_blocking (with_store (within storage (Shares.list_recent limit)))
