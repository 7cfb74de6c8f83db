-- ===== src/Result.antt =====
-- `Result<A, E>`, with the panic that unwinds through the code.
use fips_dropbox.Prelude.{◌≡◌, refl}

pub data Result (E A : Type 0) : Type 0 where
  ok : A → Result E A
  err : E → Result E A
  panic : Result E A

infixl 5 ◌>>=◌ ◌>>◌
abbrev pub ◌>>=◌ : {E A B : Type 0} → Result E A → (A → Result E B) → Result E B
panic >>= next = panic
err e >>= next = err e
ok a >>= next = next a

abbrev pub ◌>>◌ : {E B : Type 0} → Result E Unit → Result E B → Result E B
first >> second = first >>= λ done. second

-- `?` through a `From` conversion of the error.
abbrev pub convert : {A E F : Type 0} → (E → F) → Result E A → Result F A
convert f (ok a) = ok a
convert f (err e) = err (f e)
convert f panic = panic

-- Inversion of a successful bind.
pub >>=-eq-ok :
    {E A B : Type 0} (r : Result E A) (next : A → Result E B) {answer : B}
    → (r >>= next) ≡ ok answer
    → (found : A) × (r ≡ ok found) × (next found ≡ ok answer)
>>=-eq-ok panic next h = cc
>>=-eq-ok (err e) next h = cc
>>=-eq-ok (ok found) next h = (found, refl, h)

pub convert-eq-ok :
    {E F A : Type 0} (f : E → F) (r : Result E A) {a : A} → convert f r ≡ ok a → r ≡ ok a
convert-eq-ok f (ok b) h = cc
convert-eq-ok f (err e) h = cc
convert-eq-ok f panic h = cc

pub ok_unique : {E A : Type 0} {a b : A} (r : Result E A) → r ≡ ok a → r ≡ ok b → a ≡ b
ok_unique r h k = cc
