-- ===== src/Web/AuditLog/Failing.antt =====
-- An event that the audit page cannot show.
use fips_dropbox.Prelude.{
  ℕ, zero, suc, ◌+◌, ◌-◌, ◌<◌, ◌≡◌, refl, ap, ◌∙◌, none, some, List, [], ◌∷◌, ◌++◌, Option-cases,
  inl, inr, arith, codes, lt→ltb,
}
use fips_dropbox.Text.{Text, len, slice_to, utf8_len}
use fips_dropbox.Result.{ok, panic}
use fips_dropbox.Effect.{M, pure, maybe, continue, ◌>>=◌, >>=-or_panic-none}
use fips_dropbox.Platform.{Platform}
use fips_dropbox.World.{World}
use fips_dropbox.Storage.Records.{User}
use fips_dropbox.Service.View.{AuditView, list_audit_events}
use fips_dropbox.Web.Extract.{current_user, signed_in}
use fips_dropbox.Event.{Event}
use fips_dropbox.Web.Http.{Http, Headers, Handler, redirect, on_result, respond}
use fips_dropbox.Web.Strings.{combined, short_target_meta}
use fips_dropbox.Web.AuditLog.{audit_row, audit_rows, actor_name, filter_of, audit_get}

-- A slice that ends inside a character.
slice_to-inside :
    (n : ℕ) (a : Text) (c : ℕ) (b : Text)
    → len a < n
    → n < len a + utf8_len c
    → slice_to n (a ++ c ∷ b) ≡ none
unfolding slice_to len utf8_len
slice_to-inside zero a c b low high = absurd (omega arith)
slice_to-inside (suc n) [] c b low high = ground arith
slice_to-inside (suc n) (x ∷ a) c b low high =
    let rest = slice_to-inside (suc n - utf8_len x) a c b (ground arith) (ground arith) in
    ground (arith, rest)

module _ ⦃http : Http⦄ where
  -- What the page joins of the target and the meta data of an event.
  abbrev pub joined : Event → Text
  joined e = combined (http.json_to_string e.target) (http.json_to_string e.meta)

  short_target_meta-panics :
      (t m : Text)
      → 200 < len (combined t m)
      → slice_to 197 (combined t m) ≡ none
      → short_target_meta t m ≡ none
  unfolding short_target_meta
  short_target_meta-panics t m long inside =
      rw (short_target_meta, lt→ltb 200 (len (combined t m)) long, inside) refl

  audit_row-panics :
      (e : Event) → 200 < len (joined e) → slice_to 197 (joined e) ≡ none → audit_row e ≡ none
  unfolding audit_row
  audit_row-panics e long inside = elim (Option-cases (actor_name e.actor.user_id)) [
    | inl absent ↦ rw (audit_row, absent) refl
    | inr (actor, named) ↦ rw (audit_row, named, short_target_meta-panics _ _ long inside) refl
  ]

  audit_rows-panics :
      (before after : List Event) (e : Event)
      → 200 < len (joined e)
      → slice_to 197 (joined e) ≡ none
      → audit_rows (before ++ e ∷ after) ≡ none
  unfolding audit_rows
  audit_rows-panics [] after e long inside = rw (audit_rows, audit_row-panics e long inside) refl
  audit_rows-panics (b ∷ before) after e long inside = elim (Option-cases (audit_row b)) [
    | inl absent ↦ rw (audit_rows, absent) refl
    | inr (row, shown) ↦ rw (audit_rows, shown, audit_rows-panics before after e long inside) refl
  ]

module _ ⦃os : Platform⦄ ⦃http : Http⦄ where
  signed_in-some :
      (headers : Headers) (handler : User → Handler) (w : World) {user : User} {u : World}
      → current_user headers w ≡ (ok (some user), u)
      → signed_in headers handler w ≡ handler user u
  unfolding signed_in ◌>>=◌
  signed_in-some headers handler w {user} h =
      ap (λ p. continue p.0 (λ found. maybe found (pure (redirect (codes "/login"))) handler) p.1) h

  respond-ok :
      {E A B F : Type 0} (call : M World E A) (f : A → M World F B) (g : E → M World F B)
      (u : World) {a : A} {v : World}
      → call u ≡ (ok a, v)
      → respond call f g u ≡ f a v
  unfolding respond
  respond-ok call f g u h = ap (λ p. on_result p.0 f g p.1) h

  -- Where a signed-in user asks for the audit page, the events are read, and among those of the page
  -- there is one whose target and meta data, joined as the page joins them, have over 200 bytes and
  -- a character that begins before the byte 197 and ends after it, the handler panics: nothing is
  -- answered, whatever the other events are.
  pub audit_get-panics :
      (headers : Headers) (filter : Text) (w : World) {user : User} {u v : World} {view : AuditView}
      (before after : List Event) (e : Event) (a : Text) (c : ℕ) (b : Text)
      → current_user headers w ≡ (ok (some user), u)
      → list_audit_events (filter_of filter) 500 u ≡ (ok view, v)
      → view.events ≡ before ++ e ∷ after
      → joined e ≡ a ++ c ∷ b
      → 200 < len (joined e)
      → len a < 197
      → 197 < len a + utf8_len c
      → audit_get headers filter w ≡ (panic, v)
  unfolding audit_get
  audit_get-panics headers filter w {v = v} {view} before after e a c b user listed shown text long
        low high =
      signed_in-some headers _ w user
      ∙ respond-ok (list_audit_events (filter_of filter) 500) _ _ _ listed
      ∙ >>=-or_panic-none (audit_rows view.events) _ v (
          ap audit_rows shown
          ∙ audit_rows-panics before after e long
              (ap (slice_to 197) text ∙ slice_to-inside 197 a c b low high))
