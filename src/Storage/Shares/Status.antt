-- ===== src/Storage/Shares/Status.antt =====
-- `ShareListItem` of crates/storage/src/shares.rs: the status that the list page shows.
use fips_dropbox.Prelude.{
  Bool, true, false, not, ◌&&◌, ◌≡◌, ◌↔◌, arith, ltb, leb, is_some, codes, if◌then◌else◌,
}
use fips_dropbox.Text.{Text}
use fips_dropbox.Time.{Instant}
use fips_dropbox.Storage.Records.{ShareListItem}

unfoldable pub is_revoked : ShareListItem → Bool
is_revoked s = is_some s.revoked_at

-- The clock is read in the call.
unfoldable pub is_expired : Instant → ShareListItem → Bool
is_expired now s = ltb s.expires_at now

unfoldable pub is_exhausted : ShareListItem → Bool
is_exhausted s = leb s.max_downloads s.download_count

unfoldable pub is_active : Instant → ShareListItem → Bool
unfolding is_revoked is_expired is_exhausted
is_active now s = not (is_revoked s) && not (is_expired now s) && not (is_exhausted s)

unfoldable pub status_label : Instant → ShareListItem → Text
unfolding is_revoked is_expired is_exhausted
status_label now s =
    if is_revoked s
    then codes "revoked"
    else if is_expired now s
    then codes "expired"
    else if is_exhausted s
    then codes "downloaded"
    else codes "active"

-- A listed share is active exactly if it is not revoked, its expiry has not passed and downloads
-- are left, and the label says `active` in exactly these cases.
status_label-active_iff :
    (now : Instant) (s : ShareListItem)
    → (status_label now s ≡ codes "active") ↔ (is_active now s ≡ true)
unfolding status_label is_active
status_label-active_iff now s = (λ h. ground arith, λ h. ground arith)

-- The label of a share is the first that applies of `revoked`, `expired` and `downloaded`.
status_label-cases :
    (now : Instant) (s : ShareListItem)
    → ((status_label now s ≡ codes "revoked") ↔ (is_revoked s ≡ true))
      × ((status_label now s ≡ codes "expired")
          ↔ ((is_revoked s ≡ false) × (is_expired now s ≡ true)))
      × ((status_label now s ≡ codes "downloaded")
          ↔ ((is_revoked s ≡ false) × (is_expired now s ≡ false) × (is_exhausted s ≡ true)))
unfolding status_label
status_label-cases now s = (
  (λ h. ground arith, λ h. ground arith),
  (λ h. ground arith, λ h. ground arith),
  (λ h. ground arith, λ h. ground arith),
)
