-- ===== src/Web/Csv.antt =====
-- The CSV export of crates/web/src/lib.rs.
pub mod Reading
use fips_dropbox.Prelude.{
  ℕ, Bool, true, false, ◌||◌, Option, none, some, List, [], ◌∷◌, ◌++◌, codes, any, ◌==◌,
  if◌then◌else◌,
}
use fips_dropbox.Text.{Text}
use fips_dropbox.Event.{Event, Outcome, success, failure, denied}
use fips_dropbox.Web.Http.{Http}

abbrev pub contains : ℕ → Text → Bool
contains c s = any (λ d. d == c) s

-- `s.replace('"', "\"\"")`
unfoldable pub double_quotes : Text → Text
double_quotes [] = []
double_quotes (c ∷ s) = if c == b'"' then c ∷ c ∷ double_quotes s else c ∷ double_quotes s

unfoldable pub needs_quotes : Text → Bool
needs_quotes s = contains b',' s || contains b'"' s || contains b'\n' s || contains b'\r' s

unfoldable pub esc : Text → Text
unfolding double_quotes needs_quotes
esc s = if needs_quotes s then b'"' ∷ (double_quotes s ++ b'"' ∷ []) else s

unfoldable pub outcome_name : Outcome → Text
outcome_name success = codes "success"
outcome_name failure = codes "failure"
outcome_name denied = codes "denied"

-- The `format!` of escaped columns.
unfoldable pub csv_line : Text → List Text → Text
unfolding esc
csv_line first [] = esc first ++ b'\n' ∷ []
csv_line first (next ∷ columns) = esc first ++ b',' ∷ csv_line next columns

abbrev pub or_empty : Option Text → Text
or_empty none = []
or_empty (some s) = s

abbrev pub csv_header : Text
csv_header = codes "ts,event,outcome,user_id,ip,ua,target,meta,prev_hash,hash\n"

module _ ⦃http : Http⦄ where
  unfoldable pub columns_of : Event → List Text
  unfolding outcome_name
  columns_of e =
      e.event
      ∷ outcome_name e.outcome
      ∷ or_empty e.actor.user_id
      ∷ e.actor.ip
      ∷ e.actor.ua
      ∷ http.json_to_string e.target
      ∷ http.json_to_string e.meta
      ∷ e.prev_hash
      ∷ e.hash
      ∷ []

  unfoldable pub csv_row : Event → Text
  unfolding csv_line columns_of
  csv_row e = csv_line (or_empty (http.rfc3339 e.ts)) (columns_of e)

  -- The rows of a view, which has the newest event first, oldest first.
  unfoldable pub csv_rows : List Event → Text
  unfolding csv_row
  csv_rows [] = []
  csv_rows (e ∷ events) = csv_rows events ++ csv_row e
