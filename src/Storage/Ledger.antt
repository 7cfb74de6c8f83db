-- ===== src/Storage/Ledger.antt =====
-- What the table of shares promises, with the columns and the order of the rows forgotten: a ledger
-- of links, and the steps that it can take.
pub mod Refinement
pub mod Requests
use fips_dropbox.Prelude.{
  ℕ, ◌+◌, ◌<◌, ◌≤◌, ◌≡◌, ◌≢◌, sym, ap, ◌∙◌, inl, inr, Bool, true, false, Option, none, some, List,
  list_eq, eq_of_list_eq, Bool-cases, is_some, if◌then◌else◌,
}
use mathlib.Core.Option
use fips_dropbox.Prelude.Table
use fips_dropbox.Text.{Bytes}
use fips_dropbox.Storage.Rows.{ShareRow}
use fips_dropbox.Storage.Shares.{has_id}

-- A link: how often it may be followed, how often it was, until when, and whether it was withdrawn.
pub record Link : Type 0 where
  pub limit : ℕ
  pub used : ℕ
  pub until : ℕ
  pub withdrawn : Bool

abbrev pub Ledger : Type 0
Ledger = Bytes → Option Link

abbrev pub put : Bytes → Link → Ledger → Ledger
put id l t = λ k. if list_eq id k then some l else t k

abbrev pub followed : Link → Link
followed l = record l { used = l.used + 1 }

-- The steps at one time: a new link nobody has followed, one that is followed, within its limit and
-- its time, and one that is withdrawn.
pub data Step (now : ℕ) (t : Ledger) : Ledger → Type 0 where
  issue :
      (id : Bytes) (l : Link)
      → t id ≡ none
      → l.used ≡ 0
      → l.withdrawn ≡ false
      → Step now t (put id l t)
  follow :
      (id : Bytes) (l : Link)
      → t id ≡ some l
      → l.withdrawn ≡ false
      → now < l.until
      → l.used < l.limit
      → Step now t (put id (followed l) t)
  withdraw :
      (id : Bytes) (l : Link)
      → t id ≡ some l
      → l.withdrawn ≡ false
      → Step now t (put id (record l { withdrawn = true }) t)

-- From `s` at the call `start`, the ledger and the call that steps lead to, each at the reading that
-- the clock has at its call; calls go on in between.
pub data Reach (clock : ℕ → ℕ) (s : Ledger) (start : ℕ) : Ledger → ℕ → Type 0 where
  here : Reach clock s start s start
  wait : {t : Ledger} {n m : ℕ} → Reach clock s start t n → n ≤ m → Reach clock s start t m
  next :
      {t u : Ledger} {n : ℕ}
      → Reach clock s start t n
      → Step (clock n) t u
      → Reach clock s start u n

abbrev pub link_of : ShareRow → Link
link_of r = record {
  limit = r.max_downloads;
  used = r.download_count;
  until = r.expires_at;
  withdrawn = is_some r.revoked_at;
}

-- The ledger that a table of shares stands for.
unfoldable pub ledger_of : List ShareRow → Ledger
ledger_of rows id = Option.map link_of (Table.find (has_id id) rows)

-- What is put under one identifier leaves a link alone that does not stand there.
put_elsewhere :
    (t : Ledger) (id k : Bytes) (l new : Link)
    → t k ≢ some l
    → t id ≡ some l
    → put k new t id ≡ some l
put_elsewhere t id k l new clash there = elim (Bool-cases (list_eq k id)) [
  | inl e ↦ absurd (clash (ap t (eq_of_list_eq k id e) ∙ there))
  | inr e ↦ rw e there
]

-- An open link is not a withdrawn one.
not_open :
    (t : Ledger) (k : Bytes) (l old : Link)
    → t k ≡ some old
    → old.withdrawn ≡ false
    → l.withdrawn ≡ true
    → t k ≢ some l
not_open t k l old found open_one gone same =
    let one : old ≡ l = Option.some-injective old l (sym found ∙ same) in
    cc (ap (λ m. m.withdrawn) one, gone, open_one)

-- A step leaves a withdrawn link alone.
Step-withdrawn :
    (now : ℕ) (t u : Ledger) (id : Bytes) (l : Link)
    → Step now t u
    → l.withdrawn ≡ true
    → t id ≡ some l
    → u id ≡ some l
Step-withdrawn now t _ id l (issue k new free unused open_one) gone there =
    put_elsewhere t id k l new (λ same. cc) there
Step-withdrawn now t _ id l (follow k old found open_one soon below) gone there =
    put_elsewhere t id k l _ (not_open t k l old found open_one gone) there
Step-withdrawn now t _ id l (withdraw k old found open_one) gone there =
    put_elsewhere t id k l _ (not_open t k l old found open_one gone) there

pub Reach-withdrawn :
    (clock : ℕ → ℕ) (s : Ledger) (start : ℕ) (t : Ledger) (n : ℕ) (id : Bytes) (l : Link)
    → Reach clock s start t n
    → l.withdrawn ≡ true
    → s id ≡ some l
    → t id ≡ some l
Reach-withdrawn clock s start _ _ id l here gone there = there
Reach-withdrawn clock s start t _ id l (wait {n = n} reach later) gone there =
    Reach-withdrawn clock s start t n id l reach gone there
Reach-withdrawn clock s start u n id l (next {t = t} reach step) gone there =
    Step-withdrawn (clock n) t u id l step gone
      (Reach-withdrawn clock s start t n id l reach gone there)
