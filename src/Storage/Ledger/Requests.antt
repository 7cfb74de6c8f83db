-- ===== src/Storage/Ledger/Requests.antt =====
-- The statements on the table of shares, at the clock of their calls: each is a step of the ledger, or
-- changes nothing in it.
use fips_dropbox.Prelude.{
  ℕ, suc, ◌≡◌, refl, sym, subst, none, some, arith, Bool-cases, Option-cases, inl, inr,
}
use fips_dropbox.Text.{Text, Bytes}
use fips_dropbox.Time.{dt_to_millis}
use fips_dropbox.Effect.{◌>>=◌}
use fips_dropbox.Platform.{Platform}
use fips_dropbox.World.{World, now_utc, execute, execute_with, write_blob, remove_blob}
use fips_dropbox.Storage.Rows.{PrintRow, ShareRow}
use fips_dropbox.Storage.Prints
use fips_dropbox.Storage.Shares
use fips_dropbox.Storage.Shares.{
  usable, count_download, revocable, mark_revoked, try_consume_download,
}
use fips_dropbox.Storage.Consume.{call_millis, try_consume-shares}
use fips_dropbox.Storage.Stable.{IsFramed, After, StatementKeeps}
use fips_dropbox.Storage.Stable.Steps.{After-insert}
use fips_dropbox.Storage.Stable.Kept.{IsKept, BlobKeeps, insert-Keeps, no_clash}
use fips_dropbox.Storage.Ledger.{Ledger, Reach, wait, next, ledger_of}
use fips_dropbox.Storage.Ledger.Refinement.{Reach-update, appended, follows, withdraws, issues}

-- The clock at each call, in the unit of the columns.
abbrev pub clock : ⦃os : Platform⦄ → ℕ → ℕ
clock ⦃os⦄ n = dt_to_millis (os.now_utc n)

-- The shares stand for a ledger that steps since the call `start` lead to.
pub record IsReached ⦃os : Platform⦄ (s : Ledger) (start : ℕ) (w : World) : Type 0 where
  pub at : Reach clock s start (ledger_of w.db.shares) w.calls

module _ ⦃os : Platform⦄ where
  try_consume-calls :
      (id : Bytes) (w : World) → (try_consume_download id w).1.calls ≡ suc (suc w.calls)
  unfolding try_consume_download Shares.consume_statement ◌>>=◌ now_utc execute execute_with
  try_consume-calls id w = ground arith

  try_consume-failed :
      (id : Bytes) (w : World) {code : ℕ}
      → os.sqlite_fault (suc w.calls) ≡ some code
      → (try_consume_download id w).1.db.shares ≡ w.db.shares
  unfolding try_consume_download ◌>>=◌ now_utc execute execute_with
  try_consume-failed id w fault = ground arith

module _ ⦃os : Platform⦄ {s : Ledger} {start : ℕ} where
  framed : IsFramed (IsReached s start)
  framed = record {
    after_call = λ w h. record { at = wait h.at (omega arith) };
    same = λ w t calls db blobs h. record {
      at =
          subst (Reach clock s start (ledger_of t.db.shares)) (sym calls)
            (subst (λ d. Reach clock s start (ledger_of d.shares) w.calls) (sym db) h.at);
    };
    tables = λ w db shares prints h. record {
      at = subst (λ rows. Reach clock s start (ledger_of rows) w.calls) (sym shares) h.at;
    };
  }

  insert_print-Keeps :
      (row : PrintRow) → StatementKeeps (IsReached s start) (Prints.insert_print row)
  unfolding Prints.insert_print
  insert_print-Keeps row = record {
    at = λ w h. After-insert (IsReached s start) _ w _ (record { at = h.at });
  }

  blobs-Keeps : (path : Text) → BlobKeeps (IsReached s start) path
  unfolding write_blob remove_blob
  blobs-Keeps path = record {
    writes = λ bytes w h. record { at = h.at };
    removes = λ w h. record { at = h.at };
  }

  insert_share-Keeps :
      (row : ShareRow)
      → row.download_count ≡ 0
      → row.revoked_at ≡ none
      → StatementKeeps (IsReached s start) (Shares.insert_share row)
  unfolding Shares.insert_share
  insert_share-Keeps row unused unrevoked = record {
    at = λ w h. elim (Bool-cases (Shares.share_violates row w.db)) [
      | inl bad ↦ rw (bad, After) tt
      | inr good ↦
          let free = no_clash row w.db good in
          rw (good, After)
            (record {
              at =
                  subst (λ t. Reach clock s start t w.calls) (appended w.db.shares row free)
                    (next h.at (issues (clock w.calls) w.db.shares row unused unrevoked free));
            })
    ];
  }

  -- A download that is counted follows the link at the clock of this call.
  try_consume-IsReached :
      (id : Bytes) (w : World)
      → IsReached s start w
      → IsReached s start (try_consume_download id w).1
  unfolding usable count_download
  try_consume-IsReached id w h = elim (Option-cases (os.sqlite_fault (suc w.calls))) [
    | inl fine ↦ record {
      at =
          rw (try_consume-shares id w fine, try_consume-calls id w)
            (wait
              (Reach-update id (usable id (call_millis w)) count_download (λ r hit. ground arith)
                (λ r. refl) clock s start w.calls w.db.shares
                (follows id (call_millis w) w.db.shares) h.at)
              (omega arith));
    }
    | inr (code, fault) ↦ record {
      at = rw (try_consume-failed id w fault, try_consume-calls id w) (wait h.at (omega arith));
    }
  ]

  revoke-Keeps :
      (id : Bytes) (now : ℕ) → StatementKeeps (IsReached s start) (Shares.revoke_statement id now)
  unfolding Shares.revoke_statement revocable mark_revoked
  revoke-Keeps id now = record {
    at = λ w h. record {
      at =
          Reach-update id (revocable id) (mark_revoked now) (λ r hit. ground arith) (λ r. refl)
            clock s start w.calls w.db.shares (withdraws id (clock w.calls) now w.db.shares) h.at;
    };
  }

  -- Requests lead the ledger by its steps.
  pub IsReached-IsKept : IsKept (IsReached s start)
  IsReached-IsKept = record {
    framed = framed;
    insert_print = insert-Keeps framed insert_print-Keeps (λ w h. blobs-Keeps _);
    insert_share = insert_share-Keeps;
    consume = λ id. record { at = try_consume-IsReached id };
    revoke = revoke-Keeps;
  }
