-- ===== src/Storage/Stable.antt =====
-- Properties of the world that every storage function that a request runs keeps.
pub mod Steps
pub mod Functions
pub mod Kept
use fips_dropbox.Prelude.{
  ℕ, ◌≡◌, refl, sym, subst, take, Bool, true, false, Option, none, some, List, [], ◌∷◌, ◌++◌, any,
  ◌||◌, list_eq, Bool-cases, inl, inr, arith, Option-cases, if◌then◌else◌,
}
use fips_dropbox.Prelude.Table
use fips_dropbox.Text.{Text, Bytes}
use fips_dropbox.Result
use fips_dropbox.Result.{Result, ok, err, panic}
use fips_dropbox.Effect.{M}
use fips_dropbox.Effect.Keeps.{Keeps, keeps_rules}
use fips_dropbox.Errors.{SqliteError}
use fips_dropbox.Platform.{Platform}
use fips_dropbox.World
use fips_dropbox.World.{
  World, Statement, called, commit, execute, execute_with, now_utc, now_v7, random_bytes, io_write,
  write_blob,
}
use fips_dropbox.Storage.Rows.{ShareRow, Db}
use fips_dropbox.Storage.Decode.{optional, decode_all}
use fips_dropbox.Storage.Queries.{select, select_all}
use fips_dropbox.Storage.Shares.{usable, count_download, revocable, mark_revoked, share_violates}

-- A row that has the identifier or the token hash of another.
abbrev pub clashes : ShareRow → ShareRow → Bool
clashes row s = list_eq s.id row.id || list_eq s.token_hash row.token_hash

-- A property of the table that a new share with no downloads, a counted download and a revocation
-- keep.
pub record IsStable (P : List ShareRow → Type 0) : Type 0 where
  pub insert :
      (rows : List ShareRow) (row : ShareRow)
      → row.download_count ≡ 0
      → row.revoked_at ≡ none
      → any (clashes row) rows ≡ false
      → P rows
      → P (rows ++ row ∷ [])
  pub consume :
      (rows : List ShareRow) (id : Bytes) (now : ℕ)
      → P rows
      → P (Table.update (usable id now) count_download rows)
  pub revoke :
      (rows : List ShareRow) (id : Bytes) (now : ℕ)
      → P rows
      → P (Table.update (revocable id) (mark_revoked now) rows)

-- What holds of the table of shares.
pub record OfShares (P : List ShareRow → Type 0) (w : World) : Type 0 where
  pub at : P w.db.shares

-- A property of worlds that looks at the shares, the prints, the blobs and the number of calls only,
-- and that a call outside the program keeps.
pub record IsFramed (I : World → Type 0) : Type 0 where
  pub after_call : (w : World) → I w → I (called w)
  pub same : (w t : World) → t.calls ≡ w.calls → t.db ≡ w.db → t.blobs ≡ w.blobs → I w → I t
  pub tables :
      (w : World) (db : Db)
      → db.shares ≡ w.db.shares
      → db.prints ≡ w.db.prints
      → I w
      → I (record w { db = db })

pub OfShares-IsFramed : {P : List ShareRow → Type 0} → IsFramed (OfShares P)
OfShares-IsFramed {P} = record {
  after_call = λ w h. record { at = h.at };
  same = λ w t calls db blobs h. record { at = subst (λ d. P d.shares) (sym db) h.at };
  tables = λ w db shares prints h. record { at = subst P (sym shares) h.at };
}

module _ (I : World → Type 0) where
  abbrev pub After : {A : Type 0} → World → Result SqliteError (A × Db) → Type 0
  After w (ok (a, db)) = I (record w { db = db })
  After w (err e) = Unit
  After w panic = Unit

  pub record StatementKeeps {A : Type 0} (statement : Statement A) : Type 0 where
    pub at : (w : World) → I w → After w (statement w.db)

  after_commit :
      {A : Type 0} (r : Result SqliteError (A × Db)) (w : World)
      → I w
      → After w r
      → I (commit r w).1
  after_commit (ok (a, db)) w h k = k
  after_commit (err e) w h k = h
  after_commit panic w h k = h

  After-query :
      {A : Type 0} (r : Result SqliteError A) (w : World)
      → I w
      → After w (Result.◌>>=◌ r λ found. ok (found, w.db))
  After-query (ok a) w h = h
  After-query (err e) w h = tt
  After-query panic w h = tt

module _ {I : World → Type 0} (framed : IsFramed I) where
  -- An action that is one call outside the program.
  pub Keeps-call : {E A : Type 0} (m : M World E A) → ((w : World) → (m w).1 ≡ called w) → Keeps I m
  Keeps-call m one = record { at = λ w h. subst I (sym (one w)) (framed.after_call w h) }

  after_execute :
      {A : Type 0} (fault : Option ℕ) (statement : Statement A) (w : World)
      → I w
      → StatementKeeps I statement
      → I (execute_with fault statement w).1
  unfolding execute_with
  after_execute (some code) statement w h k = framed.after_call w h
  after_execute none statement w h k =
      after_commit I (statement w.db) (called w) (framed.after_call w h)
        (k.at (called w) (framed.after_call w h))

  pub Keeps-execute :
      ⦃os : Platform⦄
      → {A : Type 0} (statement : Statement A) → StatementKeeps I statement
      → Keeps I (execute statement)
  unfolding execute
  Keeps-execute ⦃os⦄ statement k = record {
    at = λ w h. after_execute (os.sqlite_fault w.calls) statement w h k;
  }

module _ ⦃os : Platform⦄ {I : World → Type 0} (framed : IsFramed I) where
  pub Keeps-now_utc : {E : Type 0} → Keeps I (now_utc {E = E})
  unfolding now_utc
  Keeps-now_utc = Keeps-call framed now_utc (λ w. refl)

  pub Keeps-now_v7 : {E : Type 0} → Keeps I (now_v7 {E = E})
  unfolding now_v7
  Keeps-now_v7 = Keeps-call framed now_v7 (λ w. refl)

  pub Keeps-random_bytes : (n : ℕ) → Keeps I (random_bytes n)
  unfolding random_bytes
  Keeps-random_bytes n = Keeps-call framed (random_bytes n) (λ w. refl)

  pub Keeps-io : {E : Type 0} (wrap : ℕ → E) → Keeps I (World.io wrap)
  unfolding World.io
  Keeps-io wrap = Keeps-call framed (World.io wrap) (λ w. ground arith)

  after_write :
      {E : Type 0} (wrap : ℕ → E) (store : Bytes → World → World) (bytes : Bytes) (fault : Option ℕ)
      (w : World)
      → ((b : Bytes) (v : World) → I v → I (store b v))
      → os.io_fault w.calls ≡ fault
      → I w
      → I (io_write wrap store bytes w).1
  unfolding io_write
  after_write wrap store bytes none w each e h =
      rw (e, io_write) (each bytes (called w) (framed.after_call w h))
  after_write wrap store bytes (some n) w each e h =
      rw (e, io_write) (each (take n bytes) (called w) (framed.after_call w h))

  -- A write whose bytes, all or the first of them, keep the property wherever they go.
  pub Keeps-io_write :
      {E : Type 0} (wrap : ℕ → E) (store : Bytes → World → World) (bytes : Bytes)
      → ((b : Bytes) (w : World) → I w → I (store b w))
      → Keeps I (io_write wrap store bytes)
  Keeps-io_write wrap store bytes each = record {
    at = λ w h. after_write wrap store bytes (os.io_fault w.calls) w each refl h;
  }

-- A query changes no table.
pub StatementKeeps-select :
    {I : World → Type 0} {R A : Type 0} (query : Db → Option R) (decode : R → Result SqliteError A)
    → StatementKeeps I (select query decode)
unfolding select
StatementKeeps-select {I} query decode = record {
  at = λ w h. After-query I (optional decode (query w.db)) w h;
}

pub StatementKeeps-select_all :
    {I : World → Type 0} {R A : Type 0} (query : Db → List R) (decode : R → Result SqliteError A)
    → StatementKeeps I (select_all query decode)
unfolding select_all
StatementKeeps-select_all {I} query decode = record {
  at = λ w h. After-query I (decode_all decode (query w.db)) w h;
}

pub ruleset world_rules = (
  keeps_rules, Keeps-execute, Keeps-now_utc, Keeps-now_v7, Keeps-random_bytes, Keeps-io,
  StatementKeeps-select, StatementKeeps-select_all,
)
