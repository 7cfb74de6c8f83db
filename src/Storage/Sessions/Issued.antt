-- ===== src/Storage/Sessions/Issued.antt =====
-- `create` of crates/storage/src/sessions.rs, and what `find_valid` answers for its cookie.
use fips_dropbox.Prelude.{
  ℕ, suc, ◌≡◌, ◌<◌, ◌∙◌, refl, ap, subst, false, none, some, List, [], ◌∷◌, ◌++◌, any, length,
  list_eq_refl, arith,
}
use fips_dropbox.Prelude.Table
use fips_dropbox.Prelude.Table.Laws.{find-append_none, find-none_of_any}
use fips_dropbox.Text.{Text, Bytes, as_bytes}
use fips_dropbox.Time.{dt_to_millis, millis_to_dt, add_hours}
use fips_dropbox.Result.{ok, convert, convert-eq-ok}
use fips_dropbox.Effect.{
  M, pure, lift, lift-value, within, within-eq-ok, within-runs, or_panic, pure-eq-ok, pure-eq-state,
  ◌>>◌, >>=-eq-ok,
}
use fips_dropbox.Effect.Runs.{Runs-bind, Runs-lift, Runs-pure, Runs-within, Runs-of}
use fips_dropbox.Errors.{StorageError, crypto, sqlite}
use fips_dropbox.Platform.{Platform}
use fips_dropbox.World.{World, execute, execute_with, now_utc}
use fips_dropbox.World.Runs.{execute-Runs}
use fips_dropbox.Crypto
use fips_dropbox.Crypto.Filled.{IsFilled, length-bytes, length-sha256}
use fips_dropbox.Storage.Rows.{Db, SessionRow}
use fips_dropbox.Storage.Records.{Session, IssuedSession}
use fips_dropbox.Storage.Queries.{select}
use fips_dropbox.Storage.Decode.{row_to_session, optional, bytes_of}
use fips_dropbox.Storage.Sessions.{
  has_id, live, insert_session, touch_statement, create, find_valid,
}

-- The row of a session, as `create` stores it, and the session that is read back from it.
abbrev pub row_of : Session → SessionRow
row_of s = record {
  id = s.id_hash;
  user_id = s.user_id;
  csrf_token = s.csrf_token;
  ip = s.ip;
  user_agent = s.user_agent;
  expires_at = dt_to_millis s.expires_at;
  last_seen_at = dt_to_millis s.last_seen_at;
}

-- To the millisecond.
abbrev pub stored_session : Session → Session
stored_session s = record s {
  expires_at = millis_to_dt (dt_to_millis s.expires_at);
  last_seen_at = millis_to_dt (dt_to_millis s.last_seen_at);
}

row_to_session-row_of :
    (s : Session)
    → length s.id_hash ≡ 32
    → length s.user_id ≡ 16
    → length s.csrf_token ≡ 32
    → row_to_session (row_of s) ≡ ok (stored_session s)
unfolding row_to_session bytes_of
row_to_session-row_of s h1 h2 h3 = ground (arith, h1, h2, h3)

find-live :
    (id : Bytes) (now : ℕ) (rows : List SessionRow) {row : SessionRow}
    → Table.find (has_id id) rows ≡ some row
    → now < row.expires_at
    → Table.find (live id now) rows ≡ some row
unfolding Table.find live
find-live id now [] h k = cc
find-live id now (s ∷ rows) {row} h k = ground (arith, find-live id now rows {row = row})

found_after :
    (row : SessionRow) (rows : List SessionRow)
    → any (has_id row.id) rows ≡ false
    → Table.find (has_id row.id) (rows ++ row ∷ []) ≡ some row
unfolding has_id Table.find
found_after row rows h =
    find-append_none (has_id row.id) rows (row ∷ []) (find-none_of_any (has_id row.id) rows h)
    ∙ rw (list_eq_refl row.id) refl

selected :
    (id : Bytes) (now : ℕ) (db : Db) {row : SessionRow} {s : Session}
    → Table.find (has_id id) db.sessions ≡ some row
    → now < row.expires_at
    → row_to_session row ≡ ok s
    → select (λ d. Table.find (live id now) d.sessions) row_to_session db ≡ ok (some s, db)
unfolding select optional
selected id now db found fresh decoded = rw (find-live id now db.sessions found fresh, decoded) refl

-- The session of a cookie that `create` returned.
pub record IsIssued ⦃os : Platform⦄ (user_id : Bytes) (issued : IssuedSession) (t : World)
    : Type 0 where
  pub stored :
      Table.find (has_id issued.session.id_hash) t.db.sessions ≡ some (row_of issued.session)
  pub hashed : Crypto.sha256 (as_bytes issued.raw_token) ≡ ok issued.session.id_hash
  pub csrf_length : length issued.session.csrf_token ≡ 32
  pub user : issued.session.user_id ≡ user_id

module _ ⦃os : Platform⦄ where
  inserted :
      (row : SessionRow) (s : World) {u : Unit}
      → (execute (insert_session row) s).0 ≡ ok u
      → Table.find (has_id row.id) (execute (insert_session row) s).1.db.sessions ≡ some row
  unfolding execute execute_with insert_session
  inserted row s h = ground (arith, found_after row s.db.sessions)

  -- The last statement of `create`; `s` is the world that it starts from.
  abbrev storing : IssuedSession → M World StorageError IssuedSession
  storing issued = do within sqlite (execute (insert_session (row_of issued.session))); pure issued

  storing-found :
      (given : IssuedSession) (s : World) {issued : IssuedSession} {t : World}
      → storing given s ≡ (ok issued, t)
      → (given ≡ issued)
        × (Table.find (has_id given.session.id_hash) t.db.sessions ≡ some (row_of given.session))
  storing-found given s {t = t} h =
      let row = row_of given.session in
      let (u, done, h1) = >>=-eq-ok (within sqlite (execute (insert_session row))) _ s h in
      let ran = within-runs sqlite (execute (insert_session row)) s done in
      (
        pure-eq-ok given _ h1,
        subst (λ v. Table.find (has_id row.id) v.db.sessions ≡ some row)
            (ap (λ p. p.1) ran ∙ pure-eq-state given _ h1)
            (inserted row s (within-eq-ok sqlite (execute (insert_session row)) s done)),
      )

  create-IsIssued :
      (user_id : Bytes) (ip ua : Text) (ttl_hours : ℕ) (w : World) {issued : IssuedSession}
      {t : World}
      → IsFilled os
      → create user_id ip ua ttl_hours w ≡ (ok issued, t)
      → IsIssued user_id issued t
  unfolding create
  create-IsIssued user_id ip ua ttl_hours w {t = t} filled h =
      let (raw, drawn, h1) = >>=-eq-ok (within crypto (Crypto.bytes 32)) _ w h in
      let token = os.base64_url raw in
      let (id, hashed, h2) =
        >>=-eq-ok (lift (convert crypto (Crypto.sha256 (as_bytes token)))) _ _ h1 in
      let (csrf, filling, h3) = >>=-eq-ok (within crypto (Crypto.bytes 32)) _ _ h2 in
      let (now, timed, h4) = >>=-eq-ok now_utc _ _ h3 in
      let (expires_at, added, h5) = >>=-eq-ok (or_panic (add_hours now ttl_hours)) _ _ h4 in
      let (same, found) = storing-found _ _ h5 in
      subst (λ i. IsIssued user_id i t) same
        (record {
          stored = found;
          hashed = convert-eq-ok crypto (Crypto.sha256 (as_bytes token)) (lift-value _ _ hashed);
          csrf_length = length-bytes filled 32 _ (within-eq-ok crypto (Crypto.bytes 32) _ filling);
          user = refl;
        })

  -- A cookie that was issued signs its user in: where `create` succeeds for a user's identifier, the
  -- platform fills its buffers, the session has not expired by the clock of `find_valid`, and its two
  -- statements do not fail, `find_valid` answers the session that `create` returned, with its
  -- instants to the millisecond.
  pub find_valid-create :
      (user_id : Bytes) (ip ua : Text) (ttl_hours : ℕ) (w : World) {issued : IssuedSession}
      {t : World}
      → IsFilled os
      → length user_id ≡ 16
      → create user_id ip ua ttl_hours w ≡ (ok issued, t)
      → dt_to_millis (os.now_utc t.calls) < dt_to_millis issued.session.expires_at
      → os.sqlite_fault (suc t.calls) ≡ none
      → os.sqlite_fault (suc (suc t.calls)) ≡ none
      → (find_valid issued.raw_token t).0 ≡ ok (some (stored_session issued.session))
  unfolding find_valid now_utc touch_statement
  find_valid-create user_id ip ua ttl_hours w {issued} {t} filled long h fresh sound sound_touch =
      let is = create-IsIssued user_id ip ua ttl_hours w filled h in
      let s = issued.session in
      let decoded =
        row_to_session-row_of s (length-sha256 filled _ is.hashed) (ap length is.user ∙ long)
          is.csrf_length in
      ap (λ p. p.0)
        (Runs-bind _ _ (Runs-lift _ t (ap (convert crypto) is.hashed)) (
          Runs-bind _ _ (Runs-of now_utc t refl) (
            Runs-bind _ _
              (Runs-within _ _ (
                execute-Runs _ sound (
                  selected s.id_hash (dt_to_millis (os.now_utc t.calls)) t.db is.stored fresh
                    decoded)))
              (Runs-bind _ _ (Runs-within _ _ (execute-Runs _ sound_touch refl))
                (Runs-pure _ _))))).at
