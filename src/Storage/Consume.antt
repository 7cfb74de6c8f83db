-- ===== src/Storage/Consume.antt =====
-- `try_consume_download` of crates/storage/src/shares.rs: which downloads it counts.
use mathlib.Core.Option
use fips_dropbox.Prelude.{
  ℕ, suc, ◌+◌, ◌<◌, ◌≡◌, ◌↔◌, refl, ap, ◌∙◌, inl, inr, Bool, true, false, some, none, List, [], ◌∷◌,
  arith, list_eq, list_eq_sym, eq_of_list_eq, Bool-cases, ◌==◌, if◌then◌else◌,
}
use fips_dropbox.Prelude.Table
use fips_dropbox.Prelude.Table.Laws.{
  All, All-map, updated, find-update, count-zero_of_All, update_none, find_holds,
}
use fips_dropbox.Text.{Bytes}
use fips_dropbox.Time.{dt_to_millis}
use fips_dropbox.Result.{ok, ok_unique}
use fips_dropbox.Effect.{◌>>=◌}
use fips_dropbox.Platform.{Platform}
use fips_dropbox.World.{World, execute, execute_with, now_utc}
use fips_dropbox.Storage.Rows.{ShareRow}
use fips_dropbox.Storage.Shares.{
  has_id, usable, count_download, consume_statement, try_consume_download,
}
use fips_dropbox.Storage.Stable.{clashes}

-- No two rows share an identifier or a token hash.
abbrev pub IsKeyed : List ShareRow → Type 0
IsKeyed [] = Unit
IsKeyed (s ∷ rows) = All (λ t. clashes t s ≡ false) rows × IsKeyed rows

elsewhere :
    (id : Bytes) (now : ℕ) (s t : ShareRow)
    → has_id id s ≡ true
    → clashes t s ≡ false
    → usable id now t ≡ false
unfolding has_id usable
elsewhere id now s t h apart =
    ground (arith, eq_of_list_eq s.id id, list_eq_sym s.id t.id, list_eq_sym t.id id)

count-usable_absent :
    (id : Bytes) (now : ℕ) (rows : List ShareRow)
    → Table.find (has_id id) rows ≡ none
    → Table.count (usable id now) rows ≡ 0
unfolding Table.find Table.count usable
count-usable_absent id now [] h = refl
count-usable_absent id now (t ∷ rows) h = ground (arith, count-usable_absent id now rows)

missed-usable :
    (id : Bytes) (now : ℕ) (s : ShareRow) → has_id id s ≡ false → usable id now s ≡ false
unfolding usable
missed-usable id now s h = ground arith

count-usable :
    (id : Bytes) (now : ℕ) (rows : List ShareRow) {s : ShareRow}
    → IsKeyed rows
    → Table.find (has_id id) rows ≡ some s
    → Table.count (usable id now) rows ≡ (if usable id now s then 1 else 0)
unfolding Table.find Table.count
count-usable id now [] keyed found = cc
count-usable id now (t ∷ rows) {s} keyed found = elim (Bool-cases (has_id id t)) [
  | inl hit ↦ ground (
    arith,
    count-zero_of_All (usable id now) rows (
        All-map (λ r. clashes r t ≡ false) (λ r. usable id now r ≡ false)
          (λ r. elsewhere id now t r hit) rows keyed.0),
  )
  | inr miss ↦ ground (arith, missed-usable id now t miss, count-usable id now rows {s = s} keyed.1)
]

-- What the update leaves of a row found by another identifier.
other-updated :
    (id other : Bytes) (now : ℕ) (rows : List ShareRow)
    → list_eq other id ≡ false
    → Table.find (has_id other) (Table.update (usable id now) count_download rows)
      ≡ Table.find (has_id other) rows
unfolding Table.find Table.update usable has_id count_download
other-updated id other now [] apart = refl
other-updated id other now (s ∷ rows) apart = ground (
  arith,
  other-updated id other now rows apart,
  eq_of_list_eq s.id id,
  eq_of_list_eq s.id other,
  list_eq_sym other id,
)

same-updated :
    (id : Bytes) (now : ℕ) (rows : List ShareRow) {s : ShareRow}
    → Table.find (has_id id) rows ≡ some s
    → Table.find (has_id id) (Table.update (usable id now) count_download rows)
      ≡ some (updated (usable id now) count_download s)
unfolding has_id count_download
same-updated id now rows found =
    find-update (usable id now) (has_id id) count_download (λ r. refl) rows
    ∙ ap (Option.map (updated (usable id now) count_download)) found

-- What a share must be to be downloaded, by its columns.
pub record IsOpen (now : ℕ) (s : ShareRow) : Type 0 where
  pub unrevoked : s.revoked_at ≡ none
  pub unexpired : now < s.expires_at
  pub below_limit : s.download_count < s.max_downloads

-- The row with one download more, and every other column as it was.
abbrev pub one_more : ShareRow → ShareRow
one_more s = record s { download_count = s.download_count + 1 }

usable_iff :
    (id : Bytes) (now : ℕ) (s : ShareRow)
    → has_id id s ≡ true
    → (usable id now s ≡ true) ↔ IsOpen now s
unfolding usable
usable_iff id now s hit = (
  λ h. record { unrevoked = ground arith; unexpired = ground arith; below_limit = ground arith },
  λ o. ground (arith, o.unrevoked, o.unexpired, o.below_limit),
)

-- The clock of the call, in the unit of the columns.
abbrev pub call_millis : ⦃os : Platform⦄ → World → ℕ
call_millis ⦃os⦄ w = dt_to_millis (os.now_utc w.calls)

module _ ⦃os : Platform⦄ (id : Bytes) (w : World) where
  try_consume-value :
      os.sqlite_fault (suc w.calls) ≡ none
      → (try_consume_download id w).0
        ≡ ok (Table.count (usable id (call_millis w)) w.db.shares == 1)
  unfolding try_consume_download consume_statement ◌>>=◌ now_utc execute execute_with
  try_consume-value fine = ground arith

  pub try_consume-shares :
      os.sqlite_fault (suc w.calls) ≡ none
      → (try_consume_download id w).1.db.shares
        ≡ Table.update (usable id (call_millis w)) count_download w.db.shares
  unfolding try_consume_download consume_statement ◌>>=◌ now_utc execute execute_with
  try_consume-shares fine = ground arith

  -- A call that answers met no fault of the engine.
  try_consume-fine :
      {b : Bool} → (try_consume_download id w).0 ≡ ok b → os.sqlite_fault (suc w.calls) ≡ none
  unfolding try_consume_download ◌>>=◌ now_utc execute execute_with
  try_consume-fine h = ground arith

  -- By the predicate and the update of the statement.
  pub try_consume-usable :
      {s : ShareRow}
      → IsKeyed w.db.shares
      → Table.find (has_id id) w.db.shares ≡ some s
      → os.sqlite_fault (suc w.calls) ≡ none
      → ((try_consume_download id w).0 ≡ ok (usable id (call_millis w) s))
        × (Table.find (has_id id) (try_consume_download id w).1.db.shares
            ≡ some (if usable id (call_millis w) s then count_download s else s))
        × ((other : Bytes)
            → list_eq other id ≡ false
            → Table.find (has_id other) (try_consume_download id w).1.db.shares
              ≡ Table.find (has_id other) w.db.shares)
  try_consume-usable {s} keyed found fine = (
    ground (
      arith,
      try_consume-value fine,
      count-usable id (call_millis w) w.db.shares {s = s} keyed found,
    ),
    rw (try_consume-shares fine) (same-updated id (call_millis w) w.db.shares found),
    λ other apart.
        rw (try_consume-shares fine) (other-updated id other (call_millis w) w.db.shares apart),
  )

  -- With distinct keys and without a fault of the database, `try_consume_download` answers `true`
  -- exactly if the share of that identifier is not revoked, expires after the clock of the call, and
  -- has fewer downloads than its limit; then its count, and nothing else of it, is one higher;
  -- otherwise it is left as it was; every share of another identifier is left as it was.
  pub try_consume-exact :
      {s : ShareRow}
      → IsKeyed w.db.shares
      → Table.find (has_id id) w.db.shares ≡ some s
      → os.sqlite_fault (suc w.calls) ≡ none
      → (answer : Bool) × ((try_consume_download id w).0 ≡ ok answer)
        × ((answer ≡ true) ↔ IsOpen (call_millis w) s)
        × (Table.find (has_id id) (try_consume_download id w).1.db.shares
            ≡ some (if answer then one_more s else s))
        × ((other : Bytes)
            → list_eq other id ≡ false
            → Table.find (has_id other) (try_consume_download id w).1.db.shares
              ≡ Table.find (has_id other) w.db.shares)
  unfolding count_download
  try_consume-exact {s} keyed found fine =
      let (answered, after, others) = try_consume-usable {s = s} keyed found fine in
      (
        usable id (call_millis w) s,
        answered,
        usable_iff id (call_millis w) s (find_holds (has_id id) w.db.shares {r = s} found),
        after,
        others,
      )

  -- If `try_consume_download` answers `true`, with distinct keys, the share was stored, not revoked,
  -- not expired and not used up, and one more download of it is counted.
  pub try_consume-true :
      {s : ShareRow}
      → IsKeyed w.db.shares
      → Table.find (has_id id) w.db.shares ≡ some s
      → (try_consume_download id w).0 ≡ ok true
      → IsOpen (call_millis w) s
        × (Table.find (has_id id) (try_consume_download id w).1.db.shares ≡ some (one_more s))
  try_consume-true {s} keyed found h =
      let (answer, answered, open_iff, after, others) =
        try_consume-exact {s = s} keyed found (try_consume-fine h) in
      let yes : answer ≡ true = ok_unique _ answered h in
      (open_iff.0 yes, after ∙ ap (λ b. some (if b then one_more s else s)) yes)

  -- Without such a share nothing is consumed: the call answers `false`, and no row changes.
  try_consume-absent :
      Table.find (has_id id) w.db.shares ≡ none
      → os.sqlite_fault (suc w.calls) ≡ none
      → ((try_consume_download id w).0 ≡ ok false)
        × ((try_consume_download id w).1.db.shares ≡ w.db.shares)
  try_consume-absent absent fine = (
    rw (try_consume-value fine, count-usable_absent id (call_millis w) w.db.shares absent) refl,
    try_consume-shares fine
        ∙ update_none (usable id (call_millis w)) count_download w.db.shares
            (count-usable_absent id (call_millis w) w.db.shares absent),
  )
