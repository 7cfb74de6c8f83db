-- ===== src/Prelude/Table/Laws.antt =====
-- How the statements on a table act on what a query finds, and on what holds of all rows.
use Prim.Native.Nat.{◌≤◌}
use mathlib.Core.Path.{◌≡◌, refl, subst}
use mathlib.Core.Bool.{Bool, true, false}
use mathlib.Core.Logic.{inl, inr}
use mathlib.Core.Option
use mathlib.Core.Option.{Option, none, some}
use mathlib.Core.List.{List, [], ◌∷◌, ◌++◌}
use native.Mathlib.Omega.{arith}
use fips_dropbox.Prelude.Lists.{any}
use fips_dropbox.Prelude.Tests.{if◌then◌else◌, Bool-cases}
use fips_dropbox.Prelude.Table.{find, update, count, delete}

abbrev pub All {ℓ κ} : {A : Type ℓ} → (A → Type κ) → List A → Type κ
All P [] = Unit
All P (x ∷ xs) = P x × All P xs

module _ {R : Type 0} where
  -- The row that an `UPDATE` puts in the place of a row.
  abbrev pub updated : (R → Bool) → (R → R) → R → R
  updated p f r = if p r then f r else r

  pub find-append :
      (p : R → Bool) (xs ys : List R) {r : R} → find p xs ≡ some r → find p (xs ++ ys) ≡ some r
  unfolding find
  find-append p [] ys h = cc
  find-append p (x ∷ xs) ys {r} h = ground (arith, find-append p xs ys {r = r})

  pub find-append_none :
      (p : R → Bool) (xs ys : List R) → find p xs ≡ none → find p (xs ++ ys) ≡ find p ys
  unfolding find
  find-append_none p [] ys h = refl
  find-append_none p (x ∷ xs) ys h = ground (arith, find-append_none p xs ys)

  pub find-none_of_any : (p : R → Bool) (xs : List R) → any p xs ≡ false → find p xs ≡ none
  unfolding find
  find-none_of_any p [] h = refl
  find-none_of_any p (x ∷ xs) h = ground (arith, find-none_of_any p xs)

  pub find_holds : (p : R → Bool) (rs : List R) {r : R} → find p rs ≡ some r → p r ≡ true
  unfolding find
  find_holds p [] h = cc
  find_holds p (x ∷ rs) {r} h = ground (arith, find_holds p rs {r = r})

  -- A query by columns that the update leaves alone finds the updated row.
  pub find-update :
      (p q : R → Bool) (f : R → R)
      → ((r : R) → q (f r) ≡ q r)
      → (rs : List R) → find q (update p f rs) ≡ Option.map (updated p f) (find q rs)
  unfolding find update
  find-update p q f same [] = refl
  find-update p q f same (r ∷ rs) = ground (arith, same r, find-update p q f same rs)

  pub find-All :
      (P : R → Type 0) (p : R → Bool) (rs : List R) {r : R} → All P rs → find p rs ≡ some r → P r
  unfolding find
  find-All P p [] h e = cc
  find-All P p (x ∷ rs) {r} h e = elim (Bool-cases (p x)) [
    | inl hit ↦ subst P (Option.some-injective x r (rw hit at e)) h.0
    | inr miss ↦ find-All P p rs h.1 (rw miss at e)
  ]

  pub All-append : (P : R → Type 0) (xs ys : List R) → All P xs → All P ys → All P (xs ++ ys)
  All-append P [] ys h k = k
  All-append P (x ∷ xs) ys h k = (h.0, All-append P xs ys h.1 k)

  pub All-update :
      (P : R → Type 0) (p : R → Bool) (f : R → R)
      → ((r : R) → p r ≡ true → P r → P (f r))
      → (rs : List R) → All P rs
      → All P (update p f rs)
  unfolding update
  All-update P p f keep [] h = tt
  All-update P p f keep (r ∷ rs) h = (one (p r) refl, All-update P p f keep rs h.1)
    where
      one : (b : Bool) → p r ≡ b → P (if b then f r else r)
      one true e = keep r e h.0
      one false e = h.0

  pub All-delete : (P : R → Type 0) (p : R → Bool) (rs : List R) → All P rs → All P (delete p rs)
  unfolding delete
  All-delete P p [] h = tt
  All-delete P p (r ∷ rs) h = elim (Bool-cases (p r)) [
    | inl hit ↦ rw (hit, delete, All) (All-delete P p rs h.1)
    | inr miss ↦ rw (miss, delete, All) (h.0, All-delete P p rs h.1)
  ]

  pub count-zero_of_find : (p : R → Bool) (rs : List R) → find p rs ≡ none → count p rs ≡ 0
  unfolding find count
  count-zero_of_find p [] h = refl
  count-zero_of_find p (r ∷ rs) h = ground (arith, count-zero_of_find p rs)

  pub count-pos_of_find : (p : R → Bool) (rs : List R) {r : R} → find p rs ≡ some r → 1 ≤ count p rs
  unfolding find count
  count-pos_of_find p [] h = cc
  count-pos_of_find p (x ∷ rs) {r} h = ground (arith, count-pos_of_find p rs {r = r})

  pub update_none : (p : R → Bool) (f : R → R) (rs : List R) → count p rs ≡ 0 → update p f rs ≡ rs
  unfolding update count
  update_none p f [] h = refl
  update_none p f (r ∷ rs) h = ground (arith, update_none p f rs)

  pub find-delete-none : (p : R → Bool) (rs : List R) → find p (delete p rs) ≡ none
  unfolding find delete
  find-delete-none p [] = refl
  find-delete-none p (r ∷ rs) = ground (arith, find-delete-none p rs)

  -- Deleting other rows leaves what a query finds.
  pub find-delete_ne :
      (p q : R → Bool)
      → ((r : R) → q r ≡ true → p r ≡ false)
      → (rs : List R) → find q (delete p rs) ≡ find q rs
  unfolding find delete
  find-delete_ne p q apart [] = refl
  find-delete_ne p q apart (r ∷ rs) = ground (arith, apart r, find-delete_ne p q apart rs)

  pub count-zero_of_All : (p : R → Bool) (rs : List R) → All (λ r. p r ≡ false) rs → count p rs ≡ 0
  unfolding count
  count-zero_of_All p [] h = refl
  count-zero_of_All p (r ∷ rs) h = ground (arith, h.0, count-zero_of_All p rs h.1)

  pub All-map : (P Q : R → Type 0) → ((r : R) → P r → Q r) → (rs : List R) → All P rs → All Q rs
  All-map P Q f [] h = tt
  All-map P Q f (r ∷ rs) h = (f r h.0, All-map P Q f rs h.1)

  -- Updating other rows leaves what a query finds.
  pub find-update_ne :
      (p q : R → Bool) (f : R → R)
      → ((r : R) → q (f r) ≡ q r)
      → ((r : R) → q r ≡ true → p r ≡ false)
      → (rs : List R) → find q (update p f rs) ≡ find q rs
  unfolding find update
  find-update_ne p q f same apart [] = refl
  find-update_ne p q f same apart (r ∷ rs) =
      ground (arith, same r, apart r, find-update_ne p q f same apart rs)
