-- ===== src/Effect/Runs.antt =====
-- What an action that succeeds does from a state, one rule for each way to build one.
use fips_dropbox.Prelude.{
  ◌≡◌, refl, sym, ap, ◌∙◌, subst, Bool, true, false, Option, none, some, if◌then◌else◌,
}
use fips_dropbox.Result.{Result, ok, convert}
use fips_dropbox.Effect.{M, pure, lift, gets, within, modify, maybe, continue, ◌>>=◌}

-- From `s` the action answers `a` and leaves `t`.
pub record Runs {S E A : Type 0} (action : M S E A) (s : S) (a : A) (t : S) : Type 0 where
  pub at : action s ≡ (ok a, t)

module _ {S E A : Type 0} where
  pub Runs-pure : (a : A) (s : S) → Runs (pure {E = E} a) s a s
  unfolding pure
  Runs-pure a s = record { at = refl }

  pub Runs-of : (m : M S E A) (s : S) {a : A} → (m s).0 ≡ ok a → Runs m s a (m s).1
  Runs-of m s h = record { at = ap (λ r. (r, (m s).1)) h }

  pub Runs-lift : (r : Result E A) (s : S) {a : A} → r ≡ ok a → Runs (lift r) s a s
  unfolding lift
  Runs-lift r s h = record { at = ap (λ x. (x, s)) h }

  pub Runs-gets : (look : S → A) (s : S) {a : A} → look s ≡ a → Runs (gets {E = E} look) s a s
  unfolding gets
  Runs-gets look s h = record { at = ap (λ x. (ok x, s)) h }

  pub Runs-if :
      (b : Bool) (m n : M S E A) {s t : S} {a : A}
      → b ≡ true
      → Runs m s a t
      → Runs (if b then m else n) s a t
  Runs-if true m n e r = r
  Runs-if false m n e r = cc

pub Runs-modify : {S E : Type 0} (f : S → S) (s : S) → Runs (modify {E = E} f) s tt (f s)
unfolding modify
Runs-modify f s = record { at = refl }

pub Runs-within :
    {S E F A : Type 0} (f : E → F) (m : M S E A) {s t : S} {a : A}
    → Runs m s a t
    → Runs (within f m) s a t
unfolding within
Runs-within f m r = record { at = ap (λ p. (convert f p.0, p.1)) r.at }

module _ {S E A B : Type 0} {s t : S} {a : A} {b : B} where
  pub Runs-maybe :
      (o : Option A) (m : M S E B) (f : A → M S E B)
      → o ≡ some a
      → Runs (f a) s b t
      → Runs (maybe o m f) s b t
  Runs-maybe none m f e r = cc
  Runs-maybe (some c) m f e r = subst (λ x. Runs (maybe x m f) s b t) (sym e) r

  pub Runs-bind :
      {u : S} (first : M S E A) (rest : A → M S E B)
      → Runs first s a t
      → Runs (rest a) t b u
      → Runs (first >>= rest) s b u
  unfolding ◌>>=◌
  Runs-bind first rest once after = record {
    at = ap (λ p. continue p.0 rest p.1) once.at ∙ after.at;
  }
