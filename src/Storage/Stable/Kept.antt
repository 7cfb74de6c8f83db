-- ===== src/Storage/Stable/Kept.antt =====
-- What the functions that write prints, blobs and shares keep.
use fips_dropbox.Prelude.{
  ℕ, none, ◌≡◌, refl, Bool, false, Option, some, List, arith, any, inl, inr, Bool-cases,
}
use fips_dropbox.Text.{Text, Bytes}
use fips_dropbox.Result.{Result, ok, err, panic}
use fips_dropbox.Effect.{M, ◌>>=◌}
use fips_dropbox.Effect.Keeps.{Keeps}
use fips_dropbox.Errors.{SqliteError}
use fips_dropbox.Platform.{Platform}
use fips_dropbox.World
use fips_dropbox.World.{World, called, write_blob, remove_blob}
use fips_dropbox.Storage.Rows.{PrintRow, ShareRow, Db}
use fips_dropbox.Storage.Prints
use fips_dropbox.Storage.Shares
use fips_dropbox.Storage.Stable.{
  IsStable, IsFramed, OfShares, OfShares-IsFramed, After, StatementKeeps, Keeps-io_write, clashes,
}
use fips_dropbox.Storage.Stable.Steps.{crypto_rules, After-insert}

-- A property of worlds that the requests keep, with what they write of prints and shares.
pub record IsKept ⦃os : Platform⦄ (I : World → Type 0) : Type 0 where
  pub framed : IsFramed I
  pub insert_print :
      (kek : Bytes) (filename : Text) (plaintext uploaded_by : Bytes) (cui_attested : Bool)
      → Keeps I (Prints.insert kek filename plaintext uploaded_by cui_attested)
  pub insert_share :
      (row : ShareRow)
      → row.download_count ≡ 0
      → row.revoked_at ≡ none
      → StatementKeeps I (Shares.insert_share row)
  pub consume : (id : Bytes) → Keeps I (Shares.try_consume_download id)
  pub revoke : (id : Bytes) (now : ℕ) → StatementKeeps I (Shares.revoke_statement id now)

-- What `insert` does to the blob of a path keeps the property.
pub record BlobKeeps (I : World → Type 0) (path : Text) : Type 0 where
  pub writes : (bytes : Bytes) (w : World) → I w → I (write_blob path bytes w)
  pub removes : (w : World) → I w → I (remove_blob path w)

module _ ⦃os : Platform⦄ {I : World → Type 0} (framed : IsFramed I) where
  attempt-Keeps :
      {E F A : Type 0} (m : M World E A) → Keeps I m → Keeps I (Prints.attempt {F = F} m)
  unfolding Prints.attempt
  attempt-Keeps m k = record { at = k.at }

  Keeps-write_blob :
      {E : Type 0} (wrap : ℕ → E) (path : Text) (bytes : Bytes)
      → BlobKeeps I path
      → Keeps I (World.io_write wrap (write_blob path) bytes)
  Keeps-write_blob wrap path bytes blob =
      Keeps-io_write framed wrap (write_blob path) bytes blob.writes

  removed :
      (path : Text) (fault : Option ℕ) (w : World)
      → BlobKeeps I path
      → os.io_fault w.calls ≡ fault
      → I w
      → I (Prints.try_remove path w).1
  unfolding Prints.try_remove
  removed path none w blob e h =
      rw (e, Prints.try_remove) (blob.removes (called w) (framed.after_call w h))
  removed path (some n) w blob e h = rw (e, Prints.try_remove) (framed.after_call w h)

  try_remove-Keeps : (path : Text) → BlobKeeps I path → Keeps I (Prints.try_remove path)
  try_remove-Keeps path blob = record {
    at = λ w h. removed path (os.io_fault w.calls) w blob refl h;
  }

  settle-Keeps :
      (path : Text) (inserted : Result SqliteError Unit)
      → BlobKeeps I path
      → Keeps I (Prints.settle path inserted)
  unfolding Prints.settle
  settle-Keeps path (ok u) blob = search crypto_rules
  settle-Keeps path (err e) blob = search (crypto_rules, try_remove-Keeps)
  settle-Keeps path panic blob = search crypto_rules

  -- The identifier that the rest of the action takes is the one of this call.
  after_now_v7 :
      {E B : Type 0} (rest : Bytes → M World E B) (w : World)
      → I (called w)
      → Keeps I (rest (os.now_v7 w.calls))
      → I ((World.now_v7 >>= rest) w).1
  unfolding World.now_v7 ◌>>=◌
  after_now_v7 rest w h each = each.at (called w) h

  -- What holds after the call that gives a new print its identifier holds after `insert`.
  pub after_insert_print :
      (kek : Bytes) (filename : Text) (plaintext uploaded_by : Bytes) (cui_attested : Bool)
      (w : World)
      → ((row : PrintRow) → StatementKeeps I (Prints.insert_print row))
      → BlobKeeps I (Prints.rel_blob_path (os.now_v7 w.calls))
      → I (called w)
      → I (Prints.insert kek filename plaintext uploaded_by cui_attested w).1
  unfolding Prints.insert
  after_insert_print kek filename plaintext uploaded_by cui_attested w rows blob h =
      after_now_v7 _ w h
        (search (crypto_rules, attempt-Keeps, settle-Keeps, Keeps-write_blob, rows) depth 15)

  pub insert-Keeps :
      ((row : PrintRow) → StatementKeeps I (Prints.insert_print row))
      → ((w : World) → I w → BlobKeeps I (Prints.rel_blob_path (os.now_v7 w.calls)))
      → (kek : Bytes) (filename : Text) (plaintext uploaded_by : Bytes) (cui_attested : Bool)
      → Keeps I (Prints.insert kek filename plaintext uploaded_by cui_attested)
  insert-Keeps rows blobs kek filename plaintext uploaded_by cui_attested = record {
    at = λ w h.
        after_insert_print kek filename plaintext uploaded_by cui_attested w rows (blobs w h)
          (framed.after_call w h);
  }

  -- A property that the statement keeps at any time.
  pub consume-Keeps :
      ((id : Bytes) (now : ℕ) → StatementKeeps I (Shares.consume_statement id now))
      → (id : Bytes) → Keeps I (Shares.try_consume_download id)
  unfolding Shares.try_consume_download
  consume-Keeps each id = search (crypto_rules, framed, each) depth 10

module _ ⦃os : Platform⦄ {P : List ShareRow → Type 0} where
  statement-Keeps : (row : PrintRow) → StatementKeeps (OfShares P) (Prints.insert_print row)
  unfolding Prints.insert_print
  statement-Keeps row = record {
    at = λ w h. After-insert (OfShares P) _ w _ (record { at = h.at });
  }

  blobs-Keeps : (path : Text) → BlobKeeps (OfShares P) path
  unfolding write_blob remove_blob
  blobs-Keeps path = record {
    writes = λ bytes w h. record { at = h.at };
    removes = λ w h. record { at = h.at };
  }

pub no_clash :
    (row : ShareRow) (db : Db)
    → Shares.share_violates row db ≡ false
    → any (clashes row) db.shares ≡ false
unfolding Shares.share_violates
no_clash row db h = ground arith

module _ ⦃os : Platform⦄ {P : List ShareRow → Type 0} (stable : IsStable P) where
  insert_share-Keeps :
      (row : ShareRow)
      → row.download_count ≡ 0
      → row.revoked_at ≡ none
      → StatementKeeps (OfShares P) (Shares.insert_share row)
  unfolding Shares.insert_share
  insert_share-Keeps row zero_count unrevoked = record {
    at = λ w h. elim (Bool-cases (Shares.share_violates row w.db)) [
      | inl bad ↦ rw (bad, After) tt
      | inr good ↦
          rw (good, After)
            (record {
              at = stable.insert w.db.shares row zero_count unrevoked (no_clash row w.db good) h.at;
            })
    ];
  }

  -- A stable property of the shares is kept.
  pub OfShares-IsKept : IsKept (OfShares P)
  unfolding Shares.consume_statement Shares.revoke_statement
  OfShares-IsKept = record {
    framed = OfShares-IsFramed;
    insert_print = insert-Keeps OfShares-IsFramed statement-Keeps (λ w h. blobs-Keeps _);
    insert_share = insert_share-Keeps;
    consume =
        consume-Keeps OfShares-IsFramed
          λ id now. record { at = λ w h. record { at = stable.consume w.db.shares id now h.at } };
    revoke = λ id now. record { at = λ w h. record { at = stable.revoke w.db.shares id now h.at } };
  }
