-- ===== src/Web/Pages.antt =====
-- The pages of crates/web/src/lib.rs, by what their templates are given.
use fips_dropbox.Prelude.{ℕ, Bool, Option, List}
use fips_dropbox.Text.{Text}

pub record AuditRow : Type 0 where
  pub ts : Text
  pub event : Text
  pub outcome : Text
  pub actor_short : Text
  pub actor_ip : Text
  pub target_meta_short : Text

pub record AuditPage : Type 0 where
  pub events : List AuditRow
  pub chain_valid : Bool
  pub events_checked : ℕ
  pub break_at_display : Text
  pub filter_value : Text
  pub csv_query : Text

pub record ShareRow : Type 0 where
  pub id : Text
  pub vendor_name : Text
  pub vendor_email : Text
  pub filename : Text
  pub size_kb : ℕ
  pub created : Text
  pub expires : Text
  pub max_downloads : ℕ
  pub download_count : ℕ
  pub status : Text
  pub is_active : Bool
  pub note : Option Text

pub record TokenRow : Type 0 where
  pub id : Text
  pub label : Text
  pub created : Text
  pub last_seen : Text
  pub revoked : Bool

pub record ShareCreatedPage : Type 0 where
  pub vendor_email : Text
  pub vendor_phone : Option Text
  pub share_url : Text
  pub access_code : Text
  pub notifications_sent : Bool
  pub sms_sent : Bool

pub data Page : Type 0 where
  login_page : (error : Option Text) → Page
  dashboard_page : (user_email fips_status : Text) → Page
  redeem_prompt_page : (token : Text) (error : Option Text) → Page
  audit_page : AuditPage → Page
  shares_page : List ShareRow → Page
  tokens_page : List TokenRow → Page
  token_created_page : (label raw_token : Text) → Page
  share_new_page : (error : Option Text) → Page
  share_created_page : ShareCreatedPage → Page
