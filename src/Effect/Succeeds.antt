-- ===== src/Effect/Succeeds.antt =====
-- Actions that succeed and keep an invariant, one rule for each way to build one.
use fips_dropbox.Prelude.{◌≡◌, refl, ap, arith, sym, subst, Bool, true, false, not, if◌then◌else◌}
use fips_dropbox.Result.{Result, ok, err, panic, convert}
use fips_dropbox.Effect.{M, pure, lift, gets, within, modify, continue, ◌>>=◌}

-- Where `P` holds the action answers something in `Q`, and `P` holds after it.
pub record Succeeds {S E A : Type 0} (P : S → Type 0) (Q : A → Type 0) (action : M S E A)
    : Type 0 where
  pub at : (s : S) → P s → (a : A) × ((action s).0 ≡ ok a) × Q a × P (action s).1

module _ {S E A : Type 0} {P : S → Type 0} {Q : A → Type 0} where
  pub Succeeds-pure : (a : A) → Q a → Succeeds P Q (pure {E = E} a)
  unfolding pure
  Succeeds-pure a q = record { at = λ s held. (a, refl, q, held) }

  pub Succeeds-lift : (r : Result E A) (a : A) → r ≡ ok a → Q a → Succeeds P Q (lift r)
  unfolding lift
  Succeeds-lift r a e q = record { at = λ s held. (a, e, q, held) }

  pub Succeeds-gets :
      (look : S → A) → ((s : S) → P s → Q (look s)) → Succeeds P Q (gets {E = E} look)
  unfolding gets
  Succeeds-gets look known = record { at = λ s held. (look s, refl, known s held, held) }

pub Succeeds-unless :
    {S E A : Type 0} {P : S → Type 0} {Q : A → Type 0} (b : Bool) (m n : M S E A)
    → b ≡ true
    → Succeeds P Q n
    → Succeeds P Q (if not b then m else n)
Succeeds-unless true m n e k = k
Succeeds-unless false m n e k = cc

pub Succeeds-modify :
    {S E : Type 0} {P : S → Type 0} (f : S → S)
    → ((s : S) → P s → P (f s))
    → Succeeds P (λ u. Unit) (modify {E = E} f)
unfolding modify
Succeeds-modify f keeps = record { at = λ s held. (tt, refl, tt, keeps s held) }

pub Succeeds-within :
    {S E F A : Type 0} {P : S → Type 0} {Q : A → Type 0} (f : E → F) (m : M S E A)
    → Succeeds P Q m
    → Succeeds P Q (within f m)
unfolding within
Succeeds-within f m g = record {
  at = λ s held. let (a, e, q, kept) = g.at s held in (a, ap (convert f) e, q, kept);
}

module _ {S E A B : Type 0} {P : S → Type 0} {Q : A → Type 0} {R : B → Type 0} where
  after_continue :
      (rest : A → M S E B) (each : (a : A) → Q a → Succeeds P R (rest a)) (r : Result E A) (s : S)
      → (a : A) → r ≡ ok a
      → Q a
      → P s
      → (b : B) × ((continue r rest s).0 ≡ ok b) × R b × P (continue r rest s).1
  after_continue rest each (ok c) s a e q held = (each c (subst Q (sym (ground arith)) q)).at s held
  after_continue rest each (err error) s a e q held = absurd (cc)
  after_continue rest each panic s a e q held = absurd (cc)

  pub Succeeds-bind :
      (first : M S E A) (rest : A → M S E B)
      → Succeeds P Q first
      → ((a : A) → Q a → Succeeds P R (rest a))
      → Succeeds P R (first >>= rest)
  unfolding ◌>>=◌
  Succeeds-bind first rest once each = record {
    at = λ s held.
        let (a, e, q, kept) = once.at s held in
        after_continue rest each (first s).0 (first s).1 a e q kept;
  }
