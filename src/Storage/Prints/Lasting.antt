-- ===== src/Storage/Prints/Lasting.antt =====
-- A stored file stays readable whatever is requested later.
use fips_dropbox.Prelude.{
  ℕ, suc, subst, ◌≢◌, ◌≤◌, ◌≡◌, refl, ap, ◌∙◌, Bool, some, [], ◌∷◌, ◌++◌, arith, length,
}
use fips_dropbox.Prelude.Table
use fips_dropbox.Prelude.Table.Laws.{find-append}
use fips_dropbox.Text.{Text, Bytes}
use fips_dropbox.Platform.{Platform}
use fips_dropbox.World
use fips_dropbox.World.{World, called, write_blob, remove_blob}
use fips_dropbox.World.Blobs.{read_blob-blobs, read_blob-remove_blob, read_blob-write_blob_ne}
use fips_dropbox.Crypto.Filled.{IsFilled}
use fips_dropbox.Storage.Rows.{PrintRow, Db}
use fips_dropbox.Storage.Shares
use fips_dropbox.Storage.Prints.{has_id, rel_blob_path, insert_print, insert}
use fips_dropbox.Storage.Prints.Stored.{insert-IsReadable}
use fips_dropbox.Storage.Records.{Print}
use fips_dropbox.Cng.Gcm.{IsGcm}
use fips_dropbox.Result.{ok}
use fips_dropbox.Storage.Prints.Paths.{IsUnique, rel_blob_path-injective}
use fips_dropbox.Storage.Prints.Readable.{IsReadable, IsReadable-to}
use fips_dropbox.Storage.Stable.{IsFramed, StatementKeeps}
use fips_dropbox.Storage.Stable.Steps.{After-insert}
use fips_dropbox.Storage.Stable.Kept.{
  IsKept, BlobKeeps, insert-Keeps, consume-Keeps, after_insert_print,
}

not_since : (n c : ℕ) → n ≡ c → ¬ (suc c ≤ n)
not_since n c e later = omega (arith, e, later)

-- At least so many calls were made.
record Since (n : ℕ) (w : World) : Type 0 where
  at : n ≤ w.calls

-- The file that call `c` gave its identifier to, stored under its own path.
pub record Lasts ⦃os : Platform⦄ (c : ℕ) (kek plaintext : Bytes) (filename : Text) (w : World)
    : Type 0 where
  pub since : suc c ≤ w.calls
  pub readable : IsReadable kek (os.now_v7 c) plaintext filename w

module _ ⦃os : Platform⦄ {c : ℕ} {kek plaintext : Bytes} {filename : Text} where
  -- A file lasts where its row is still found and its blob is the same.
  Lasts-to :
      (w t : World)
      → w.calls ≤ t.calls
      → ((r : PrintRow)
          → Table.find (has_id (os.now_v7 c)) w.db.prints ≡ some r
          → Table.find (has_id (os.now_v7 c)) t.db.prints ≡ some r)
      → (World.read_blob (rel_blob_path (os.now_v7 c)) t
          ≡ World.read_blob (rel_blob_path (os.now_v7 c)) w)
      → Lasts c kek plaintext filename w
      → Lasts c kek plaintext filename t
  Lasts-to w t later rows blobs h = record {
    since = omega (arith, h.since, later);
    readable = IsReadable-to w t rows blobs h.readable;
  }

  pub Lasts-IsFramed : IsFramed (Lasts c kek plaintext filename)
  unfolding World.read_blob
  Lasts-IsFramed = record {
    after_call = λ w. Lasts-to w (called w) (omega arith) (λ r found. found) refl;
    same = λ w t calls db blobs.
        Lasts-to w t (omega (arith, calls))
          (λ r found. ap (λ d. Table.find (has_id (os.now_v7 c)) d.prints) db ∙ found)
          (read_blob-blobs (rel_blob_path (os.now_v7 c)) t w blobs);
    tables = λ w db shares prints.
        Lasts-to w (record w { db = db }) (omega arith)
          (λ r found. ap (Table.find (has_id (os.now_v7 c))) prints ∙ found) refl;
  }

  -- The blobs at other paths may come and go.
  BlobKeeps-other :
      (path : Text)
      → path ≢ rel_blob_path (os.now_v7 c)
      → BlobKeeps (Lasts c kek plaintext filename) path
  unfolding write_blob remove_blob
  BlobKeeps-other path other = record {
    writes = λ bytes w.
        Lasts-to w (write_blob path bytes w) (omega arith) (λ r found. found)
          (read_blob-write_blob_ne (rel_blob_path (os.now_v7 c)) path bytes w other);
    removes = λ w.
        Lasts-to w (remove_blob path w) (omega arith) (λ r found. found)
          (read_blob-remove_blob (rel_blob_path (os.now_v7 c)) path w other);
  }

  -- A change of the tables alone that leaves the prints.
  tables :
      (w : World) (db : Db)
      → db.prints ≡ w.db.prints
      → Lasts c kek plaintext filename w
      → Lasts c kek plaintext filename (record w { db = db })
  unfolding World.read_blob
  tables w db prints =
      Lasts-to w (record w { db = db }) (omega arith)
        (λ r found. ap (Table.find (has_id (os.now_v7 c))) prints ∙ found) refl

  insert_print-Keeps :
      (row : PrintRow) → StatementKeeps (Lasts c kek plaintext filename) (insert_print row)
  unfolding insert_print World.read_blob
  insert_print-Keeps row = record {
    at = λ w h. After-insert (Lasts c kek plaintext filename) _ w _ (
        Lasts-to w (record w { db = record w.db { prints = w.db.prints ++ row ∷ [] } })
          (omega arith) (λ r found. find-append (has_id (os.now_v7 c)) w.db.prints (row ∷ []) found)
          refl h);
  }

  -- A file lasts whatever is requested, where identifiers are unique.
  pub Lasts-IsKept : IsUnique os → IsFilled os → IsKept (Lasts c kek plaintext filename)
  unfolding Shares.insert_share Shares.consume_statement Shares.revoke_statement
  Lasts-IsKept unique filled = record {
    framed = Lasts-IsFramed;
    insert_print = insert-Keeps Lasts-IsFramed insert_print-Keeps λ w h. BlobKeeps-other _ λ same.
        absurd (
          not_since _ _
            (unique.ids w.calls c
              (rel_blob_path-injective _ _ unique (filled.uuid w.calls) (filled.uuid c) same))
            h.since);
    insert_share = λ row zero_count unrevoked. record {
      at = λ w h. After-insert (Lasts c kek plaintext filename) _ w _ (tables w _ refl h);
    };
    consume = consume-Keeps Lasts-IsFramed λ id now. record { at = λ w h. tables w _ refl h };
    revoke = λ id now. record { at = λ w h. tables w _ refl h };
  }

module _ ⦃os : Platform⦄ where
  Since-IsFramed : (n : ℕ) → IsFramed (Since n)
  Since-IsFramed n = record {
    after_call = λ w h. record { at = omega (arith, h.at) };
    same = λ w t calls db blobs h. record { at = omega (arith, calls, h.at) };
    tables = λ w db shares prints h. record { at = h.at };
  }

  insert-Since :
      (kek : Bytes) (filename : Text) (plaintext uploaded_by : Bytes) (cui_attested : Bool)
      (w : World)
      → Since (suc w.calls) (insert kek filename plaintext uploaded_by cui_attested w).1
  unfolding insert_print write_blob remove_blob
  insert-Since kek filename plaintext uploaded_by cui_attested w =
      after_insert_print (Since-IsFramed (suc w.calls)) kek filename plaintext uploaded_by
        cui_attested w
        (λ row. record {
          at = λ v h. After-insert (Since (suc w.calls)) _ v _ (record { at = h.at });
        })
        (record {
          writes = λ bytes v h. record { at = h.at };
          removes = λ v h. record { at = h.at };
        })
        (record { at = omega arith })

  -- A file that `insert` stores lasts.
  pub insert-Lasts :
      (kek : Bytes) (filename : Text) (plaintext uploaded_by : Bytes) (cui_attested : Bool)
      (w : World) {print : Print} {t : World}
      → IsGcm os
      → IsFilled os
      → length uploaded_by ≡ 16
      → insert kek filename plaintext uploaded_by cui_attested w ≡ (ok print, t)
      → Lasts w.calls kek plaintext filename t × (print.id ≡ os.now_v7 w.calls)
  insert-Lasts kek filename plaintext uploaded_by cui w gcm filled by h =
      let (readable, its_id) =
        insert-IsReadable kek filename plaintext uploaded_by cui w gcm filled by h in
      (
        record {
          since =
              subst (λ p. suc w.calls ≤ p.1.calls) h
                (insert-Since kek filename plaintext uploaded_by cui w).at;
          readable = readable;
        },
        its_id,
      )
