-- ===== src/Effect/Gives.antt =====
-- What an action that succeeds answers, one rule for each way to build one.
use fips_dropbox.Prelude.{
  ◌≡◌, refl, subst, arith, Bool, true, false, Option, none, some, if◌then◌else◌,
}
use fips_dropbox.Result.{Result, ok, err, panic, convert-eq-ok}
use fips_dropbox.Effect.{M, pure, fail, lift, within, maybe, continue, ◌>>=◌}

-- Every answer of the action is in `P`.
pub record Gives {S E A : Type 0} (P : A → Type 0) (action : M S E A) : Type 0 where
  pub at : (s : S) (a : A) → (action s).0 ≡ ok a → P a

module _ {S E A : Type 0} {P : A → Type 0} where
  pub Gives-pure : (a : A) → P a → Gives P (pure {S = S} {E = E} a)
  unfolding pure
  Gives-pure a holds = record { at = λ s b e. subst P (ground arith) holds }

  pub Gives-fail : (e : E) → Gives P (fail {S = S} {A = A} e)
  unfolding fail
  Gives-fail e = record { at = λ s a found. cc }

  pub Gives-lift : (r : Result E A) → ((a : A) → r ≡ ok a → P a) → Gives P (lift {S = S} r)
  unfolding lift
  Gives-lift r each = record { at = λ s a e. each a e }

  pub Gives-maybe :
      {C : Type 0} (o : Option C) (m : M S E A) (f : C → M S E A)
      → Gives P m
      → ((c : C) → Gives P (f c))
      → Gives P (maybe o m f)
  Gives-maybe none m f gm gf = gm
  Gives-maybe (some c) m f gm gf = gf c

  pub Gives-if : (b : Bool) (m n : M S E A) → Gives P m → Gives P n → Gives P (if b then m else n)
  Gives-if true m n gm gn = gm
  Gives-if false m n gm gn = gn

module _ {S E A : Type 0} where
  -- Nothing is claimed.
  pub Gives-any : (m : M S E A) → Gives (λ a. Unit) m
  Gives-any m = record { at = λ s a e. tt }

pub Gives-within :
    {S E F A : Type 0} {P : A → Type 0} (f : E → F) (m : M S E A) → Gives P m → Gives P (within f m)
unfolding within
Gives-within f m g = record { at = λ s a e. g.at s a (convert-eq-ok f (m s).0 e) }

module _ {S E A B : Type 0} {P : B → Type 0} {Q : A → Type 0} where
  after_continue :
      (rest : A → M S E B) (each : (a : A) → Q a → Gives P (rest a)) (r : Result E A) (s : S)
      (b : B)
      → ((a : A) → r ≡ ok a → Q a)
      → (continue r rest s).0 ≡ ok b
      → P b
  after_continue rest each (ok a) s b known e = (each a (known a refl)).at s b e
  after_continue rest each (err error) s b known e = cc
  after_continue rest each panic s b known e = cc

  pub Gives-bind :
      (first : M S E A) (rest : A → M S E B)
      → Gives Q first
      → ((a : A) → Q a → Gives P (rest a))
      → Gives P (first >>= rest)
  unfolding ◌>>=◌
  Gives-bind first rest once each = record {
    at = λ s b e. after_continue rest each (first s).0 (first s).1 b (once.at s) e;
  }
