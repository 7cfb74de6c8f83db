-- ===== src/Storage/Shares/Created.antt =====
-- What `create` of crates/storage/src/shares.rs stores for the token and the code that it returns.
use fips_dropbox.Prelude.{
  ℕ, ◌≡◌, refl, ap, ◌∙◌, subst, false, Option, none, some, List, [], ◌∷◌, ◌++◌, ◌||◌, arith, any,
  list_eq, list_eq_refl,
}
use fips_dropbox.Prelude.Table
use fips_dropbox.Prelude.Table.Laws.{find-append_none, find-none_of_any}
use fips_dropbox.Text.{Bytes, Text, as_bytes}
use fips_dropbox.Time.{Instant, dt_to_millis}
use fips_dropbox.Result.{ok, convert, convert-eq-ok}
use fips_dropbox.Effect.{
  M, pure, lift, within, within-runs, lift-value, within-eq-ok, pure-eq-ok, pure-eq-state, ◌>>◌,
  >>=-eq-ok,
}
use fips_dropbox.Errors.{StorageError, crypto, sqlite}
use fips_dropbox.Platform.{Platform}
use fips_dropbox.World
use fips_dropbox.World.{World, execute, execute_with}
use fips_dropbox.Crypto
use fips_dropbox.Crypto.Token.{url_token, access_code}
use fips_dropbox.Storage.Rows.{ShareRow}
use fips_dropbox.Storage.Records.{Share, ShareSecrets}
use fips_dropbox.Storage.Shares.{has_id, share_violates, insert_share, create}

-- The row of a share that `create` returned with its secrets.
pub record IsCreated ⦃os : Platform⦄ (print_id : Bytes) (expires_at : Instant) (max_downloads : ℕ)
    (share : Share) (secrets : ShareSecrets) (t : World) : Type 0 where
  pub row : ShareRow
  pub id : share.id ≡ row.id
  pub stored : Table.find (has_id row.id) t.db.shares ≡ some row
  pub print : row.print_id ≡ print_id
  pub token : Crypto.sha256 (as_bytes secrets.url_token) ≡ ok row.token_hash
  pub code : Crypto.sha256 (as_bytes secrets.access_code) ≡ ok row.access_code_hash
  pub expires : row.expires_at ≡ dt_to_millis expires_at
  pub limit : row.max_downloads ≡ max_downloads
  pub unused : row.download_count ≡ 0
  pub unrevoked : row.revoked_at ≡ none

pub IsCreated-to :
    ⦃os : Platform⦄ {print_id : Bytes} {expires_at : Instant} {max_downloads : ℕ} {share : Share}
    {secrets : ShareSecrets} {t u : World}
    → (c : IsCreated print_id expires_at max_downloads share secrets t)
    → Table.find (has_id c.row.id) u.db.shares ≡ some c.row
    → IsCreated print_id expires_at max_downloads share secrets u
IsCreated-to c found = record {
  row = c.row;
  id = c.id;
  stored = found;
  print = c.print;
  token = c.token;
  code = c.code;
  expires = c.expires;
  limit = c.limit;
  unused = c.unused;
  unrevoked = c.unrevoked;
}

no_clash_id :
    (row : ShareRow) (rows : List ShareRow)
    → any (λ s. list_eq s.id row.id || list_eq s.token_hash row.token_hash) rows ≡ false
    → any (has_id row.id) rows ≡ false
unfolding has_id
no_clash_id row [] h = refl
no_clash_id row (s ∷ rows) h = ground (arith, no_clash_id row rows)

found_after :
    (row : ShareRow) (rows : List ShareRow)
    → any (λ s. list_eq s.id row.id || list_eq s.token_hash row.token_hash) rows ≡ false
    → Table.find (has_id row.id) (rows ++ row ∷ []) ≡ some row
unfolding has_id Table.find
found_after row rows h =
    find-append_none (has_id row.id) rows (row ∷ [])
      (find-none_of_any (has_id row.id) rows (no_clash_id row rows h))
    ∙ ground (arith, list_eq_refl row.id)

module _ ⦃os : Platform⦄ where
  inserted :
      (row : ShareRow) (s : World) {u : Unit}
      → (execute (insert_share row) s).0 ≡ ok u
      → Table.find (has_id row.id) (execute (insert_share row) s).1.db.shares ≡ some row
  unfolding execute execute_with insert_share share_violates
  inserted row s h = ground (arith, found_after row s.db.shares)

  -- The last statement of `create`; `s` is the world that it starts from.
  abbrev storing : ShareRow → Share → ShareSecrets → M World StorageError (Share × ShareSecrets)
  storing row share secrets = do within sqlite (execute (insert_share row)); pure (share, secrets)

  storing-IsCreated :
      (row : ShareRow) (share : Share) (secrets : ShareSecrets) (s : World)
      {made : Share × ShareSecrets} {t : World}
      → storing row share secrets s ≡ (ok made, t)
      → ((share, secrets) ≡ made) × (Table.find (has_id row.id) t.db.shares ≡ some row)
  storing-IsCreated row share secrets s {t = t} h =
      let (u, done, h1) = >>=-eq-ok (within sqlite (execute (insert_share row))) _ s h in
      let ran = within-runs sqlite (execute (insert_share row)) s done in
      (
        pure-eq-ok (share, secrets) _ h1,
        subst (λ v. Table.find (has_id row.id) v.db.shares ≡ some row)
            (ap (λ p. p.1) ran ∙ pure-eq-state (share, secrets) _ h1)
            (inserted row s (within-eq-ok sqlite (execute (insert_share row)) s done)),
      )

  -- `create` stores a share of its arguments, under the hashes of the token and the code that it
  -- returns, with no downloads and not revoked.
  pub create-IsCreated :
      (print_id vendor_id : Bytes) (expires_at : Instant) (max_downloads : ℕ)
      (sender_note : Option Text) (by : Bytes) (w : World) {made : Share × ShareSecrets} {t : World}
      → create print_id vendor_id expires_at max_downloads sender_note by w ≡ (ok made, t)
      → IsCreated print_id expires_at max_downloads made.0 made.1 t
  unfolding create
  create-IsCreated print_id vendor_id expires_at max_downloads sender_note by w {t = t} h =
      let (id, is_id, h1) = >>=-eq-ok World.now_v7 _ w h in
      let (token, drawn, h2) = >>=-eq-ok (within crypto url_token) _ _ h1 in
      let (code, cut, h3) = >>=-eq-ok (within crypto access_code) _ _ h2 in
      let (th, hashed, h4) =
        >>=-eq-ok (lift (convert crypto (Crypto.sha256 (as_bytes token)))) _ _ h3 in
      let (ch, coded, h5) =
        >>=-eq-ok (lift (convert crypto (Crypto.sha256 (as_bytes code)))) _ _ h4 in
      let (now, timed, h6) = >>=-eq-ok World.now_utc _ _ h5 in
      let (same, found) = storing-IsCreated _ _ _ _ h6 in
      subst (λ m. IsCreated print_id expires_at max_downloads m.0 m.1 t) same
        (record {
          row = _;
          id = refl;
          stored = found;
          print = refl;
          token = convert-eq-ok crypto (Crypto.sha256 (as_bytes token)) (lift-value _ _ hashed);
          code = convert-eq-ok crypto (Crypto.sha256 (as_bytes code)) (lift-value _ _ coded);
          expires = refl;
          limit = refl;
          unused = refl;
          unrevoked = refl;
        })
