-- ===== src/Storage/Sessions/Revoked.antt =====
-- `revoke` of crates/storage/src/sessions.rs, and what `find_valid` answers after it.
use fips_dropbox.Prelude.{ℕ, suc, ◌≡◌, refl, ap, ◌∙◌, subst, none, List, [], ◌∷◌, arith}
use fips_dropbox.Prelude.Table
use fips_dropbox.Prelude.Table.Laws.{find-delete-none}
use fips_dropbox.Text.{Text, Bytes, as_bytes}
use fips_dropbox.Time.{dt_to_millis}
use fips_dropbox.Result.{ok, convert, convert-eq-ok}
use fips_dropbox.Effect.{
  lift, lift-value, within, within-eq-ok, within-runs, pure-eq-state, >>=-eq-ok,
}
use fips_dropbox.Effect.Runs.{Runs, Runs-bind, Runs-lift, Runs-pure, Runs-within, Runs-of}
use fips_dropbox.Errors.{crypto, sqlite}
use fips_dropbox.Platform.{Platform}
use fips_dropbox.World.{World, called, execute, execute_with, now_utc}
use fips_dropbox.World.Runs.{execute-Runs}
use fips_dropbox.Crypto
use fips_dropbox.Storage.Rows.{Db, SessionRow}
use fips_dropbox.Storage.Queries.{select}
use fips_dropbox.Storage.Decode.{row_to_session, optional}
use fips_dropbox.Storage.Sessions.{has_id, live, delete_statement, revoke, find_valid}

live-none :
    (id : Bytes) (now : ℕ) (rows : List SessionRow)
    → Table.find (has_id id) rows ≡ none
    → Table.find (live id now) rows ≡ none
unfolding Table.find live
live-none id now [] h = refl
live-none id now (s ∷ rows) h = ground (arith, live-none id now rows)

unselected :
    (id : Bytes) (now : ℕ) (db : Db)
    → Table.find (has_id id) db.sessions ≡ none
    → select (λ d. Table.find (live id now) d.sessions) row_to_session db ≡ ok (none, db)
unfolding select optional
unselected id now db h = rw (live-none id now db.sessions h) refl

module _ ⦃os : Platform⦄ where
  deleted :
      (id : Bytes) (s : World) {n : ℕ}
      → (execute (delete_statement (has_id id)) s).0 ≡ ok n
      → Table.find (has_id id) (execute (delete_statement (has_id id)) s).1.db.sessions ≡ none
  unfolding execute execute_with delete_statement
  deleted id s h = ground (arith, find-delete-none (has_id id) s.db.sessions)

  -- After `revoke` no session has the hash of the cookie.
  pub revoke-IsAbsent :
      (raw_token : Text) (w : World) {v : World}
      → revoke raw_token w ≡ (ok tt, v)
      → (id : Bytes) × (Crypto.sha256 (as_bytes raw_token) ≡ ok id)
        × (Table.find (has_id id) v.db.sessions ≡ none)
  unfolding revoke
  revoke-IsAbsent raw_token w {v} h =
      let (id, hashed, h1) =
        >>=-eq-ok (lift (convert crypto (Crypto.sha256 (as_bytes raw_token)))) _ w h in
      let delete = delete_statement (has_id id) in
      let (n, done, h2) = >>=-eq-ok (within sqlite (execute delete)) _ _ h1 in
      (
        id,
        convert-eq-ok crypto (Crypto.sha256 (as_bytes raw_token)) (lift-value _ _ hashed),
        subst (λ u. Table.find (has_id id) u.db.sessions ≡ none)
            (ap (λ p. p.1) (within-runs sqlite (execute delete) _ done) ∙ pure-eq-state tt _ h2)
            (deleted id _ (within-eq-ok sqlite (execute delete) _ done)),
      )

  -- Where no session has the hash of a cookie, `find_valid` answers none.
  pub find_valid-absent :
      (raw_token : Text) (id : Bytes) (v : World)
      → Crypto.sha256 (as_bytes raw_token) ≡ ok id
      → Table.find (has_id id) v.db.sessions ≡ none
      → os.sqlite_fault (suc v.calls) ≡ none
      → Runs (find_valid raw_token) v none (called (called v))
  unfolding find_valid now_utc
  find_valid-absent raw_token id v hashed absent sound =
      Runs-bind _ _ (Runs-lift _ v (ap (convert crypto) hashed)) (
        Runs-bind _ _ (Runs-of now_utc v refl) (
          Runs-bind _ _
            (Runs-within _ _ (
              execute-Runs _ sound (unselected id (dt_to_millis (os.now_utc v.calls)) v.db absent)))
            (Runs-pure _ _)))

  -- A cookie whose session was revoked opens none: where `revoke` succeeds and the statement of
  -- `find_valid` does not fail, `find_valid` answers that there is no session, and changes nothing
  -- but the number of calls.
  pub find_valid-revoke :
      (raw_token : Text) (w : World) {v : World}
      → revoke raw_token w ≡ (ok tt, v)
      → os.sqlite_fault (suc v.calls) ≡ none
      → find_valid raw_token v ≡ (ok none, called (called v))
  find_valid-revoke raw_token w {v} h sound =
      let (id, hashed, absent) = revoke-IsAbsent raw_token w h in
      (find_valid-absent raw_token id v hashed absent sound).at
