-- ===== src/Service/History/Shares.antt =====
-- What holds of the shares after any sequence of requests.
use mathlib.Core.Option
use fips_dropbox.Prelude.{
  ℕ, ◌≤◌, ◌≡◌, refl, ap, ◌∙◌, Bool, true, false, some, List, [], ◌∷◌, ◌++◌, arith, any, is_some,
  if◌then◌else◌,
}
use fips_dropbox.Prelude.Table
use fips_dropbox.Prelude.Table.Laws.{All, updated, find-append, find-update, All-append, All-update}
use fips_dropbox.Text.{Bytes}
use fips_dropbox.Platform.{Platform}
use fips_dropbox.World.{World}
use fips_dropbox.Storage.Rows.{ShareRow}
use fips_dropbox.Storage.Shares.{has_id, usable, count_download, revocable, mark_revoked}
use fips_dropbox.Storage.Consume.{IsKeyed}
use fips_dropbox.Storage.Stable.{IsStable, clashes}
use fips_dropbox.Storage.Stable.Kept.{OfShares-IsKept}
use fips_dropbox.Service.{App}
use fips_dropbox.Service.History.{Request, serve}
use fips_dropbox.Service.History.Operations.{serve-Keeps}

-- No share was downloaded more often than it allows.
abbrev pub IsWithinLimit : ShareRow → Type 0
IsWithinLimit s = s.download_count ≤ s.max_downloads

-- `r` is what became of `s`.
pub record Descends (s r : ShareRow) : Type 0 where
  pub id : r.id ≡ s.id
  pub print_id : r.print_id ≡ s.print_id
  pub vendor_id : r.vendor_id ≡ s.vendor_id
  pub token_hash : r.token_hash ≡ s.token_hash
  pub access_code_hash : r.access_code_hash ≡ s.access_code_hash
  pub expires_at : r.expires_at ≡ s.expires_at
  pub max_downloads : r.max_downloads ≡ s.max_downloads
  pub sender_note : r.sender_note ≡ s.sender_note
  pub created_by : r.created_by ≡ s.created_by
  pub created_at : r.created_at ≡ s.created_at
  pub download_count : s.download_count ≤ r.download_count
  pub revoked_at : is_some s.revoked_at ≡ true → r.revoked_at ≡ s.revoked_at

pub limit-IsStable : IsStable (All IsWithinLimit)
unfolding usable count_download mark_revoked
limit-IsStable = record {
  insert = λ rows row zero_count unrevoked free h.
      All-append IsWithinLimit rows (row ∷ []) h (omega arith, tt);
  consume = λ rows id now h.
      All-update IsWithinLimit (usable id now) count_download (λ s hit k. ground arith) rows h;
  revoke = λ rows id now h.
      All-update IsWithinLimit (revocable id) (mark_revoked now) (λ s hit k. k) rows h;
}

IsKeyed-append :
    (rows : List ShareRow) (row : ShareRow)
    → any (clashes row) rows ≡ false
    → IsKeyed rows
    → IsKeyed (rows ++ row ∷ [])
IsKeyed-append [] row free h = (tt, tt)
IsKeyed-append (s ∷ rows) row free h = (
  All-append (λ t. clashes t s ≡ false) rows (row ∷ []) h.0 (ground arith, tt),
  IsKeyed-append rows row (ground arith) h.1,
)

-- An update that leaves the two keys of each row alone.
IsKeyed-update :
    (p : ShareRow → Bool) (f : ShareRow → ShareRow)
    → ((s : ShareRow) → ((f s).id ≡ s.id) × ((f s).token_hash ≡ s.token_hash))
    → (rows : List ShareRow) → IsKeyed rows
    → IsKeyed (Table.update p f rows)
unfolding Table.update
IsKeyed-update p f same [] h = tt
IsKeyed-update p f same (s ∷ rows) h = (
  All-update (λ t. clashes t (updated p f s) ≡ false) p f (λ t hit k. rw ((same t).0, (same t).1) k)
      rows (apart (p s)),
  IsKeyed-update p f same rows h.1,
)
  where
    apart : (b : Bool) → All (λ t. clashes t (if b then f s else s) ≡ false) rows
    apart true = rw ((same s).0, (same s).1) h.0
    apart false = h.0

pub IsKeyed-IsStable : IsStable IsKeyed
unfolding count_download mark_revoked
IsKeyed-IsStable = record {
  insert = λ rows row zero_count unrevoked free h. IsKeyed-append rows row free h;
  consume =
      λ rows id now h. IsKeyed-update (usable id now) count_download (λ s. (refl, refl)) rows h;
  revoke =
      λ rows id now h. IsKeyed-update (revocable id) (mark_revoked now) (λ s. (refl, refl)) rows h;
}

count_download-Descends : (s r : ShareRow) → Descends s r → Descends s (count_download r)
unfolding count_download
count_download-Descends s r d = record {
  id = d.id;
  print_id = d.print_id;
  vendor_id = d.vendor_id;
  token_hash = d.token_hash;
  access_code_hash = d.access_code_hash;
  expires_at = d.expires_at;
  max_downloads = d.max_downloads;
  sender_note = d.sender_note;
  created_by = d.created_by;
  created_at = d.created_at;
  download_count = omega (arith, d.download_count);
  revoked_at = d.revoked_at;
}

mark_revoked-Descends :
    (s r : ShareRow) (id : Bytes) (now : ℕ)
    → revocable id r ≡ true
    → Descends s r
    → Descends s (mark_revoked now r)
unfolding revocable mark_revoked
mark_revoked-Descends s r id now hit d = record {
  id = d.id;
  print_id = d.print_id;
  vendor_id = d.vendor_id;
  token_hash = d.token_hash;
  access_code_hash = d.access_code_hash;
  expires_at = d.expires_at;
  max_downloads = d.max_downloads;
  sender_note = d.sender_note;
  created_by = d.created_by;
  created_at = d.created_at;
  download_count = d.download_count;
  revoked_at = λ was. absurd (ground (arith, d.revoked_at was));
}

pub Descends-refl : (s : ShareRow) → Descends s s
Descends-refl s = record {
  id = refl;
  print_id = refl;
  vendor_id = refl;
  token_hash = refl;
  access_code_hash = refl;
  expires_at = refl;
  max_downloads = refl;
  sender_note = refl;
  created_by = refl;
  created_at = refl;
  download_count = omega arith;
  revoked_at = λ was. refl;
}

-- The share of this identifier, once in the state `s`, is still there.
abbrev pub Continues : Bytes → ShareRow → List ShareRow → Type 0
Continues id s rows = (r : ShareRow) × (Table.find (has_id id) rows ≡ some r) × Descends s r

Continues-update :
    (id : Bytes) (s : ShareRow) (p : ShareRow → Bool) (f : ShareRow → ShareRow)
    → ((r : ShareRow) → (f r).id ≡ r.id)
    → ((r : ShareRow) → p r ≡ true → Descends s r → Descends s (f r))
    → (rows : List ShareRow) → Continues id s rows
    → Continues id s (Table.update p f rows)
unfolding has_id
Continues-update id s p f same keep rows (r, found, d) = (
  updated p f r,
  (find-update p (has_id id) f (λ t. rw (same t) refl) rows ∙ ap (Option.map (updated p f)) found),
  one (p r) refl,
)
  where
    one : (b : Bool) → p r ≡ b → Descends s (if b then f r else r)
    one true e = keep r e d
    one false e = d

pub Continues-IsStable : (id : Bytes) (s : ShareRow) → IsStable (Continues id s)
unfolding count_download mark_revoked
Continues-IsStable id s = record {
  insert = λ rows row zero_count unrevoked free (r, found, d).
      (r, find-append (has_id id) rows (row ∷ []) found, d);
  consume = λ rows at now.
      Continues-update id s (usable at now) count_download (λ r. refl)
        (λ r hit d. count_download-Descends s r d) rows;
  revoke = λ rows at now.
      Continues-update id s (revocable at) (mark_revoked now) (λ r. refl)
        (λ r hit d. mark_revoked-Descends s r at now hit d) rows;
}

module _ ⦃os : Platform⦄ (app : App) (w : World) (requests : List Request) where
  -- If no share was downloaded more often than it allows before a sequence of requests, none is
  -- after it, whatever the requests are and however they end.
  pub serve-IsWithinLimit :
      All IsWithinLimit w.db.shares → All IsWithinLimit (serve app w requests).db.shares
  serve-IsWithinLimit h =
      (serve-Keeps (OfShares-IsKept limit-IsStable) app requests w (record { at = h })).at

  -- If no two shares have an identifier or a token hash in common before a sequence of requests, no
  -- two have after it.
  pub serve-IsKeyed : IsKeyed w.db.shares → IsKeyed (serve app w requests).db.shares
  serve-IsKeyed h =
      (serve-Keeps (OfShares-IsKept IsKeyed-IsStable) app requests w (record { at = h })).at

  -- A share that is stored before a sequence of requests is still stored after it: with the same
  -- identifier, print, vendor, hashes, expiry, limit, note, creator and time of creation, with no
  -- fewer downloads counted, and, if it was revoked, revoked at the same time.
  pub serve-Continues :
      (id : Bytes) (s : ShareRow)
      → Table.find (has_id id) w.db.shares ≡ some s
      → Continues id s (serve app w requests).db.shares
  serve-Continues id s found =
      (serve-Keeps (OfShares-IsKept (Continues-IsStable id s)) app requests w
        (record { at = (s, found, Descends-refl s) })).at
