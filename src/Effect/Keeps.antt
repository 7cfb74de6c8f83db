-- ===== src/Effect/Keeps.antt =====
-- Invariants of actions, one rule for each way to build one.
use fips_dropbox.Prelude.{◌≡◌, subst, Bool, true, false, Option, none, some, if◌then◌else◌}
use fips_dropbox.Result.{Result, ok, err, panic}
use fips_dropbox.Effect.{
  M, pure, fail, lift, gets, or_panic, modify, within, maybe, continue, ◌>>=◌,
}

-- The invariant `P` outlasts the action, whatever the action answers.
pub record Keeps {S E A : Type 0} (P : S → Type 0) (action : M S E A) : Type 0 where
  pub at : (before : S) → P before → P (action before).1

module _ {S E A : Type 0} {P : S → Type 0} where
  -- The invariant at the end of a run.
  pub Keeps-to :
      (m : M S E A) (s : S) {r : Result E A} {t : S} → m s ≡ (r, t) → Keeps P m → P s → P t
  Keeps-to m s e k h = subst (λ p. P p.1) e (k.at s h)

  pub Keeps-or_panic : (o : Option A) → Keeps P (or_panic {E = E} o)
  unfolding or_panic
  Keeps-or_panic none = record { at = λ before held. held }
  Keeps-or_panic (some a) = record { at = λ before held. held }

  pub Keeps-gets : (look : S → A) → Keeps P (gets {E = E} look)
  unfolding gets
  Keeps-gets look = record { at = λ before held. held }

  pub Keeps-fail : (e : E) → Keeps P (fail {A = A} e)
  unfolding fail
  Keeps-fail e = record { at = λ before held. held }

  pub Keeps-pure : (answer : A) → Keeps P (pure {E = E} answer)
  unfolding pure
  Keeps-pure answer = record { at = λ before held. held }

  pub Keeps-lift : (r : Result E A) → Keeps P (lift r)
  unfolding lift
  Keeps-lift r = record { at = λ before held. held }

  pub Keeps-if : (b : Bool) (m n : M S E A) → Keeps P m → Keeps P n → Keeps P (if b then m else n)
  Keeps-if true m n km kn = km
  Keeps-if false m n km kn = kn

pub Keeps-modify :
    {S E : Type 0} {P : S → Type 0} (f : S → S)
    → ((s : S) → P s → P (f s))
    → Keeps P (modify {E = E} f)
unfolding modify
Keeps-modify f k = record { at = k }

pub Keeps-within :
    {S E F A : Type 0} {P : S → Type 0} (f : E → F) (m : M S E A) → Keeps P m → Keeps P (within f m)
unfolding within
Keeps-within f m k = record { at = k.at }

module _ {S E A B : Type 0} {P : S → Type 0} where
  pub Keeps-maybe :
      (o : Option A) (m : M S E B) (f : A → M S E B)
      → Keeps P m
      → ((a : A) → Keeps P (f a))
      → Keeps P (maybe o m f)
  Keeps-maybe none m f km kf = km
  Keeps-maybe (some a) m f km kf = kf a

  after_continue :
      (rest : A → M S E B) (each : (a : A) → Keeps P (rest a)) (r : Result E A) (s : S)
      → P s
      → P (continue r rest s).1
  after_continue rest each panic s held = held
  after_continue rest each (err e) s held = held
  after_continue rest each (ok a) s held = (each a).at s held

  pub Keeps-bind :
      (first : M S E A) (rest : A → M S E B)
      → Keeps P first
      → ((a : A) → Keeps P (rest a))
      → Keeps P (first >>= rest)
  unfolding ◌>>=◌
  Keeps-bind first rest once each = record {
    at = λ s held. after_continue rest each (first s).0 (first s).1 (once.at s held);
  }

pub ruleset keeps_rules = (
  Keeps-or_panic, Keeps-maybe, Keeps-within, Keeps-if, Keeps-gets, Keeps-fail, Keeps-lift,
  Keeps-bind, Keeps-pure,
)
