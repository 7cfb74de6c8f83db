-- ===== src/Event.antt =====
-- The records of crates/audit/src/lib.rs, and `serde_json::Value`.
use fips_dropbox.Prelude.{ℕ, Bool, Option}
use fips_dropbox.Text.{Text}
use fips_dropbox.Time.{Instant}

mutual
  pub data Value : Type 0 where
    null : Value
    bool : Bool → Value
    num : ℕ → Value
    str : Text → Value
    arr : Items → Value
    obj : Fields → Value

  pub data Fields : Type 0 where
    end : Fields
    field : Text → Value → Fields → Fields

  pub data Items : Type 0 where
    nil : Items
    cons : Value → Items → Items

pub data Outcome : Type 0 where
  success failure denied : Outcome

pub record Actor : Type 0 where
  pub user_id : Option Text
  pub ip : Text
  pub ua : Text

pub record Event : Type 0 where
  pub ts : Instant
  pub event : Text
  pub actor : Actor
  pub target : Value
  pub outcome : Outcome
  pub meta : Value
  pub prev_hash : Text
  pub hash : Text

-- `Log`; its path is fixed, and the file is part of the world.
pub record Log : Type 0 where
  pub prev_hash : Text

pub record ChainVerification : Type 0 where
  pub valid : Bool
  pub break_at : Option ℕ
  pub events_checked : ℕ
