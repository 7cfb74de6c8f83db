-- ===== src/Storage/Ledger/Refinement.antt =====
-- The statements on the table of shares are steps of the ledger, or change nothing in it.
use fips_dropbox.Prelude.{
  ℕ, ◌≡◌, refl, sym, ap, subst, ◌∙◌, fun_ext, inl, inr, Bool, true, false, Option, none, some, List,
  [], ◌∷◌, ◌++◌, arith, any, list_eq, list_eq_of_eq, eq_of_list_eq, Bool-cases, Option-cases,
  is_some, if◌then◌else◌,
}
use mathlib.Core.Option
use fips_dropbox.Prelude.Table
use fips_dropbox.Prelude.Table.Laws.{
  updated, find-append, find-append_none, find-update, find-update_ne,
}
use fips_dropbox.Text.{Bytes}
use fips_dropbox.Storage.Rows.{ShareRow}
use fips_dropbox.Storage.Shares.{has_id, usable, count_download, revocable, mark_revoked}
use fips_dropbox.Storage.Stable.{clashes}
use fips_dropbox.Storage.Ledger.{
  Ledger, put, Step, issue, follow, withdraw, Reach, next, link_of, ledger_of,
}

-- Two identifiers of one row are the same.
one_id :
    (id k : Bytes) (r : ShareRow) → has_id id r ≡ true → has_id k r ≡ true → list_eq id k ≡ true
unfolding has_id
one_id id k r h g =
    let one : r.id ≡ id = eq_of_list_eq r.id id h in
    let two : r.id ≡ k = eq_of_list_eq r.id k g in list_eq_of_eq id k (cc)

-- An update of rows of one identifier is an update of its link.
module _ (id : Bytes) (p : ShareRow → Bool) (f : ShareRow → ShareRow)
    (only : (r : ShareRow) → p r ≡ true → has_id id r ≡ true)
    (same : (r : ShareRow) → (f r).id ≡ r.id) where
  same_has_id : (k : Bytes) (r : ShareRow) → has_id k (f r) ≡ has_id k r
  unfolding has_id
  same_has_id k r = ap (λ i. list_eq i k) (same r)

  apart_id : (k : Bytes) → list_eq id k ≡ false → (r : ShareRow) → has_id k r ≡ true → p r ≡ false
  apart_id k apart r g = elim (Bool-cases (p r)) [
    | inr miss ↦ miss
    | inl hit ↦ absurd (ground (arith, one_id id k r (only r hit) g))
  ]

  found_updated :
      (rows : List ShareRow) {r : ShareRow}
      → Table.find (has_id id) rows ≡ some r
      → Table.find (has_id id) (Table.update p f rows) ≡ some (if p r then f r else r)
  found_updated rows found =
      find-update p (has_id id) f (same_has_id id) rows ∙ ap (Option.map (updated p f)) found

  ledger-update :
      (rows : List ShareRow) {r : ShareRow}
      → Table.find (has_id id) rows ≡ some r
      → p r ≡ true
      → put id (link_of (f r)) (ledger_of rows) ≡ ledger_of (Table.update p f rows)
  unfolding ledger_of
  ledger-update rows {r} found hit = fun_ext at
    where
      at :
          (k : Bytes)
          → put id (link_of (f r)) (ledger_of rows) k ≡ ledger_of (Table.update p f rows) k
      at k = elim (Bool-cases (list_eq id k)) [
        | inl e ↦
            let one : id ≡ k = eq_of_list_eq id k e in
            rw (e, sym one, found_updated rows {r = r} found, hit) refl
        | inr e ↦ rw (e, find-update_ne p (has_id k) f (same_has_id k) (apart_id k e) rows) refl
      ]

  -- Where the update does not touch the row that is found, the ledger stays.
  ledger-update_miss :
      (rows : List ShareRow)
      → ((r : ShareRow) → Table.find (has_id id) rows ≡ some r → p r ≡ false)
      → ledger_of rows ≡ ledger_of (Table.update p f rows)
  unfolding ledger_of
  ledger-update_miss rows miss = fun_ext at
    where
      here_at :
          (o : Option ShareRow)
          → Table.find (has_id id) rows ≡ o
          → Option.map link_of o ≡ Option.map link_of (Option.map (updated p f) o)
      here_at none e = refl
      here_at (some r) e = rw (miss r e) refl

      at : (k : Bytes) → ledger_of rows k ≡ ledger_of (Table.update p f rows) k
      at k = elim (Bool-cases (list_eq id k)) [
        | inl e ↦
            let one : id ≡ k = eq_of_list_eq id k e in
            rw (sym one, find-update p (has_id id) f (same_has_id id) rows) (here_at _ refl)
        | inr e ↦ rw (find-update_ne p (has_id k) f (same_has_id k) (apart_id k e) rows) refl
      ]

  -- An update that is a step of the link that is found, where it touches it.
  pub Reach-update :
      (clock : ℕ → ℕ) (s : Ledger) (start n : ℕ) (rows : List ShareRow)
      → ((r : ShareRow)
          → Table.find (has_id id) rows ≡ some r
          → p r ≡ true
          → Step (clock n) (ledger_of rows) (put id (link_of (f r)) (ledger_of rows)))
      → Reach clock s start (ledger_of rows) n
      → Reach clock s start (ledger_of (Table.update p f rows)) n
  Reach-update clock s start n rows step reach = by_row _ refl
    where
      After : Ledger → Type 0
      After t = Reach clock s start t n

      missed :
          ((r : ShareRow) → Table.find (has_id id) rows ≡ some r → p r ≡ false)
          → After (ledger_of (Table.update p f rows))
      missed miss = subst After (ledger-update_miss rows miss) reach

      by_row :
          (o : Option ShareRow)
          → Table.find (has_id id) rows ≡ o
          → After (ledger_of (Table.update p f rows))
      by_row none found = missed (λ r also. cc)
      by_row (some r) found = elim (Bool-cases (p r)) [
        | inl hit ↦
            subst After (ledger-update rows {r = r} found hit) (next reach (step r found hit))
        | inr miss ↦ missed (λ q also. ap p (Option.some-injective q r (sym also ∙ found)) ∙ miss)
      ]

absent_of_free :
    (rows : List ShareRow) (row : ShareRow)
    → any (clashes row) rows ≡ false
    → Table.find (has_id row.id) rows ≡ none
unfolding Table.find has_id
absent_of_free [] row free = refl
absent_of_free (r ∷ rows) row free = ground (arith, absent_of_free rows row)

pub appended :
    (rows : List ShareRow) (row : ShareRow)
    → any (clashes row) rows ≡ false
    → put row.id (link_of row) (ledger_of rows) ≡ ledger_of (rows ++ row ∷ [])
unfolding ledger_of Table.find has_id
appended rows row free = fun_ext at
  where
    not_same :
        (k : Bytes) (r : ShareRow) → Table.find (has_id k) rows ≡ some r → list_eq row.id k ≡ false
    not_same k r found = elim (Bool-cases (list_eq row.id k)) [
      | inr e ↦ e
      | inl e ↦
          let one : row.id ≡ k = eq_of_list_eq row.id k e in
          absurd (cc (rw one at (absent_of_free rows row free)))
    ]

    at : (k : Bytes) → put row.id (link_of row) (ledger_of rows) k ≡ ledger_of (rows ++ row ∷ []) k
    at k = elim (Option-cases (Table.find (has_id k) rows)) [
      | inl absent ↦ rw (find-append_none (has_id k) rows (row ∷ []) absent, absent) (ground arith)
      | inr (r, found) ↦
          let miss : list_eq row.id k ≡ false = not_same k r found in
          rw (find-append (has_id k) rows (row ∷ []) found, found, miss) refl
    ]

-- Counting a download is following the link at the time that the statement compares with.
pub follows :
    (id : Bytes) (now : ℕ) (rows : List ShareRow) (r : ShareRow)
    → Table.find (has_id id) rows ≡ some r
    → usable id now r ≡ true
    → Step now (ledger_of rows) (put id (link_of (count_download r)) (ledger_of rows))
unfolding usable count_download ledger_of
follows id now rows r found hit =
    follow id (link_of r) (ap (Option.map link_of) found) (ground arith) (ground arith)
      (ground arith)

pub withdraws :
    (id : Bytes) (now time : ℕ) (rows : List ShareRow) (r : ShareRow)
    → Table.find (has_id id) rows ≡ some r
    → revocable id r ≡ true
    → Step now (ledger_of rows) (put id (link_of (mark_revoked time r)) (ledger_of rows))
unfolding revocable mark_revoked ledger_of
withdraws id now time rows r found hit =
    withdraw id (link_of r) (ap (Option.map link_of) found) (ground arith)

pub issues :
    (now : ℕ) (rows : List ShareRow) (row : ShareRow)
    → row.download_count ≡ 0
    → row.revoked_at ≡ none
    → any (clashes row) rows ≡ false
    → Step now (ledger_of rows) (put row.id (link_of row) (ledger_of rows))
unfolding ledger_of
issues now rows row unused unrevoked free =
    issue row.id (link_of row) (ap (Option.map link_of) (absent_of_free rows row free)) unused
      (ap is_some unrevoked)
