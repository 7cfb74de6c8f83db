-- ===== src/Web/AuditLog.antt =====
-- The audit log viewer and its export, crates/web/src/lib.rs.
pub mod Failing
use fips_dropbox.Prelude.{
  ℕ, Option, none, some, List, [], ◌∷◌, ◌++◌, codes, is_empty, if◌then◌else◌,
}
use fips_dropbox.Text.{Text, as_bytes, decimal}
use fips_dropbox.Effect.{M, pure, fail, or_panic, ◌>>=◌}
use fips_dropbox.Errors.{ServiceError}
use fips_dropbox.Event.{Event}
use fips_dropbox.Platform.{Platform}
use fips_dropbox.World.{World, now_utc}
use fips_dropbox.Service.View.{AuditView, list_audit_events}
use fips_dropbox.Web.Strings.{short_id, short_target_meta, urlencode}
use fips_dropbox.Web.Pages.{AuditRow, AuditPage, audit_page}
use fips_dropbox.Web.Http.{Http, Headers, Response, Handler, respond, render, attach}
use fips_dropbox.Web.Csv.{or_empty, outcome_name, csv_header, csv_rows}
use fips_dropbox.Web.Extract.{signed_in}

unfoldable pub filter_of : Text → Option Text
filter_of filter = if is_empty filter then none else some filter

-- `short_id` of the actor, or `(anon)`.
unfoldable pub actor_name : Option Text → Option Text
unfolding short_id
actor_name none = some (codes "(anon)")
actor_name (some id) = short_id id

module _ ⦃http : Http⦄ where
  -- `none` is a panic of one of the slices.
  unfoldable pub audit_row : Event → Option AuditRow
  unfolding outcome_name short_target_meta actor_name
  audit_row e = elim (actor_name e.actor.user_id) [
    | none ↦ none
    | some actor ↦
        elim (short_target_meta (http.json_to_string e.target) (http.json_to_string e.meta)) [
          | none ↦ none
          | some cut ↦ some (record {
            ts = or_empty (http.rfc3339 e.ts);
            event = e.event;
            outcome = outcome_name e.outcome;
            actor_short = actor;
            actor_ip = e.actor.ip;
            target_meta_short = cut;
          })
        ]
  ]

  unfoldable pub audit_rows : List Event → Option (List AuditRow)
  unfolding audit_row
  audit_rows [] = some []
  audit_rows (e ∷ events) = elim (audit_row e) [
    | none ↦ none
    | some row ↦ elim (audit_rows events) [ none ↦ none | some rows ↦ some (row ∷ rows) ]
  ]

abbrev shown : Option ℕ → Text
shown none = []
shown (some i) = decimal 20 i

unfoldable pub csv_query : Text → Text
unfolding urlencode
csv_query filter = if is_empty filter then [] else codes "?filter=" ++ urlencode filter

module _ ⦃os : Platform⦄ ⦃http : Http⦄ where
  unfoldable pub audit_get : Headers → Text → Handler
  unfolding filter_of audit_rows csv_query
  audit_get headers filter = signed_in headers λ user.
      respond (list_audit_events (filter_of filter) 500)
        (λ view. do
          rows ← or_panic (audit_rows view.events)
          render (
              audit_page (record {
                events = rows;
                chain_valid = view.verification.valid;
                events_checked = view.verification.events_checked;
                break_at_display = shown view.verification.break_at;
                filter_value = filter;
                csv_query = csv_query filter;
              })))
        (λ e. fail 500)

  abbrev export_stamp : Option Text → Text
  export_stamp none = codes "export"
  export_stamp (some stamp) = stamp

  unfoldable pub audit_csv : Headers → Text → Handler
  unfolding filter_of csv_rows
  audit_csv headers filter = signed_in headers λ user.
      respond (list_audit_events (filter_of filter) 100000)
        (λ view. do
          now ← now_utc
          let filename =
              codes "fips-dropbox-audit-" ++ (export_stamp (http.format_stamp now) ++ codes ".csv")
          pure (
              attach (codes "text/csv; charset=utf-8")
                (codes "attachment; filename=\"" ++ (filename ++ b'"' ∷ []))
                (as_bytes (csv_header ++ csv_rows view.events))))
        (λ e. fail 500)
