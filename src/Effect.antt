-- ===== src/Effect.antt =====
-- Code that changes a state and may fail or panic: what was written before an error stays written.
pub mod Keeps
pub mod Gives
pub mod Succeeds
pub mod Runs
use fips_dropbox.Prelude.{◌≡◌, refl, ap, Option, none, some}
use fips_dropbox.Result.{Result, ok, err, panic, convert, convert-eq-ok}

abbrev pub M : Type 0 → Type 0 → Type 0 → Type 0
M S E A = S → Result E A × S

module _ {S E A : Type 0} where
  pub pure : A → M S E A
  pure a s = (ok a, s)

  pub fail : E → M S E A
  fail e s = (err e, s)

  pub lift : Result E A → M S E A
  lift r s = (r, s)

  pub gets : (S → A) → M S E A
  gets f s = (ok (f s), s)

  -- `expect`, `unwrap` and a slice out of range
  pub or_panic : Option A → M S E A
  or_panic none s = (panic, s)
  or_panic (some a) s = (ok a, s)

-- A call whose errors are converted on the way out.
pub within : {S E F A : Type 0} → (E → F) → M S E A → M S F A
within f m s = (convert f (m s).0, (m s).1)

pub modify : {S E : Type 0} → (S → S) → M S E Unit
modify f s = (ok tt, f s)

-- `match o { None => …, Some(a) => … }`
abbrev pub maybe : {S E A B : Type 0} → Option A → M S E B → (A → M S E B) → M S E B
maybe none m f = m
maybe (some a) m f = f a

module _ {S E A B : Type 0} where
  abbrev pub continue : Result E A → (A → M S E B) → M S E B
  continue (ok a) f s = f a s
  continue (err e) f s = (err e, s)
  continue panic f s = (panic, s)

  infixl 5 ◌>>=◌
  -- Opening this opens the other ways to build an action too.
  unfoldable pub ◌>>=◌ : M S E A → (A → M S E B) → M S E B
  unfolding pure fail lift gets or_panic within modify
  ◌>>=◌ m f s = let (r, s') = m s in continue r f s'

infixl 5 ◌>>◌
abbrev pub ◌>>◌ : {S E B : Type 0} → M S E Unit → M S E B → M S E B
m >> k = m >>= λ _. k

module _ {S E A B : Type 0} where
  continue-eq-ok :
      (r : Result E A) (f : A → M S E B) (u : S) {b : B} {t : S}
      → continue r f u ≡ (ok b, t)
      → (a : A) × (r ≡ ok a) × (f a u ≡ (ok b, t))
  continue-eq-ok (ok a) f u h = (a, refl, h)
  continue-eq-ok (err e) f u h = cc
  continue-eq-ok panic f u h = cc

  -- Inversion of a successful bind.
  pub >>=-eq-ok :
      (m : M S E A) (f : A → M S E B) (s : S) {b : B} {t : S}
      → (m >>= f) s ≡ (ok b, t)
      → (a : A) × ((m s).0 ≡ ok a) × (f a (m s).1 ≡ (ok b, t))
  unfolding ◌>>=◌
  >>=-eq-ok m f s h = continue-eq-ok (m s).0 f (m s).1 h

module _ {S E A : Type 0} (r : Result E A) (s : S) {a : A} where
  pub lift-eq-ok : {t : S} → lift r s ≡ (ok a, t) → r ≡ ok a
  unfolding lift
  lift-eq-ok h = ap (λ p. p.0) h

  pub lift-value : (lift r s).0 ≡ ok a → r ≡ ok a
  unfolding lift
  lift-value h = h

pub pure-eq-ok :
    {S E A : Type 0} (a : A) (s : S) {b : A} {t : S} → pure {E = E} a s ≡ (ok b, t) → a ≡ b
unfolding pure
pure-eq-ok a s h = cc

pub pure-eq-state :
    {S E A : Type 0} (a : A) (s : S) {b : A} {t : S} → pure {E = E} a s ≡ (ok b, t) → s ≡ t
unfolding pure
pure-eq-state a s h = cc

module _ {S E F A : Type 0} (f : E → F) (m : M S E A) (s : S) where
  pub within-eq-ok : {a : A} → (within f m s).0 ≡ ok a → (m s).0 ≡ ok a
  unfolding within
  within-eq-ok h = convert-eq-ok f (m s).0 h

  pub within-state : (within f m s).1 ≡ (m s).1
  unfolding within
  within-state = refl

  -- What `within` says of the call inside it.
  pub within-runs : {a : A} → (within f m s).0 ≡ ok a → m s ≡ (ok a, (within f m s).1)
  unfolding within
  within-runs h = ap (λ r. (r, (m s).1)) (convert-eq-ok f (m s).0 h)

pub run-eq-ok :
    {S E A : Type 0} (m : M S E A) (s : S) {a : A} → (m s).0 ≡ ok a → m s ≡ (ok a, (m s).1)
run-eq-ok m s h = ap (λ r. (r, (m s).1)) h

-- A panic ends the action.
pub >>=-or_panic-none :
    {S E A B : Type 0} (o : Option A) (next : A → M S E B) (s : S)
    → o ≡ none
    → (or_panic o >>= next) s ≡ (panic, s)
unfolding ◌>>=◌
>>=-or_panic-none none next s h = refl
>>=-or_panic-none (some a) next s h = cc
