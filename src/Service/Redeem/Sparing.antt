-- ===== src/Service/Redeem/Sparing.antt =====
-- Rules on actions that are never refused for an access code, and on actions that leave the shares
-- alone where they are.
use fips_dropbox.Prelude.{
  ◌≡◌, ◌≢◌, refl, sym, ◌∙◌, Bool, true, false, Option, none, some, List, arith, if◌then◌else◌,
}
use fips_dropbox.Result.{Result, ok, err, panic, convert}
use fips_dropbox.Effect.{M, pure, fail, lift, within, maybe, continue, ◌>>=◌}
use fips_dropbox.Effect.Keeps.{Keeps}
use fips_dropbox.Storage.Stable.{OfShares}
use fips_dropbox.Errors.{ServiceError, invalid_credentials}
use fips_dropbox.World.{World}
use fips_dropbox.Storage.Rows.{ShareRow}
use fips_dropbox.Service.{
  with_store, with_audit, spawn_blocking, locked_store, locked_audit, after_store, after_audit,
  join,
}

-- An action that is never refused for an access code.
pub record Never {A : Type 0} (action : M World ServiceError A) : Type 0 where
  pub at : (w : World) → (action w).0 ≢ err invalid_credentials

module _ {A B : Type 0} where
  Never-continue :
      (r : Result ServiceError A) (rest : A → M World ServiceError B) (w : World)
      → r ≢ err invalid_credentials
      → ((a : A) → Never (rest a))
      → (continue r rest w).0 ≢ err invalid_credentials
  Never-continue (ok a) rest w not_here each = (each a).at w
  Never-continue (err e) rest w not_here each = λ same. not_here (ground arith)
  Never-continue panic rest w not_here each = λ same. cc

  pub Never-bind :
      (first : M World ServiceError A) (rest : A → M World ServiceError B)
      → Never first
      → ((a : A) → Never (rest a))
      → Never (first >>= rest)
  unfolding ◌>>=◌
  Never-bind first rest once each = record {
    at = λ w. Never-continue (first w).0 rest (first w).1 (once.at w) each;
  }

module _ {A : Type 0} where
  pub Never-pure : (a : A) → Never (pure a)
  unfolding ◌>>=◌
  Never-pure a = record { at = λ w same. cc }

  pub Never-fail : (e : ServiceError) → e ≢ invalid_credentials → Never {A = A} (fail e)
  unfolding ◌>>=◌
  Never-fail e other = record { at = λ w same. other (ground arith) }

  Never-convert :
      {E : Type 0} (wrap : E → ServiceError)
      → ((e : E) → wrap e ≢ invalid_credentials)
      → (r : Result E A) → convert wrap r ≢ err invalid_credentials
  Never-convert wrap other (ok a) same = cc
  Never-convert wrap other (err e) same = other e (ground arith)
  Never-convert wrap other panic same = cc

  pub Never-within :
      {E : Type 0} (wrap : E → ServiceError) (m : M World E A)
      → ((e : E) → wrap e ≢ invalid_credentials)
      → Never (within wrap m)
  unfolding ◌>>=◌
  Never-within wrap m other = record { at = λ w. Never-convert wrap other (m w).0 }

  pub Never-lift : (r : Result ServiceError A) → r ≢ err invalid_credentials → Never (lift r)
  unfolding ◌>>=◌
  Never-lift r other = record { at = λ w. other }

  pub Never-maybe :
      {C : Type 0} (o : Option C) (m : M World ServiceError A) (f : C → M World ServiceError A)
      → Never m
      → ((c : C) → Never (f c))
      → Never (maybe o m f)
  Never-maybe none m f nm nf = nm
  Never-maybe (some c) m f nm nf = nf c

  after_audit-value : (r : Result ServiceError A) (w : World) → (after_audit r w).0 ≡ r
  unfolding after_audit
  after_audit-value (ok a) w = refl
  after_audit-value (err e) w = refl
  after_audit-value panic w = refl

  Never-locked_audit :
      (poisoned : Bool) (m : M World ServiceError A) (w : World)
      → Never m
      → (locked_audit poisoned m w).0 ≢ err invalid_credentials
  unfolding locked_audit
  Never-locked_audit true m w never same = cc
  Never-locked_audit false m w never same =
      never.at w (sym (after_audit-value (m w).0 (m w).1) ∙ same)

  pub Never-with_audit : (m : M World ServiceError A) → Never m → Never (with_audit m)
  unfolding with_audit
  Never-with_audit m never = record { at = λ w. Never-locked_audit w.audit_poisoned m w never }

-- An action that leaves the shares alone where it is refused for an access code.
pub record Spares {A : Type 0} (action : M World ServiceError A) : Type 0 where
  pub at :
      (w : World) → (action w).0 ≡ err invalid_credentials → (action w).1.db.shares ≡ w.db.shares

-- The shares are these.
abbrev pub Are : List ShareRow → World → Type 0
Are rows = OfShares (λ now. now ≡ rows)

module _ {A : Type 0} where
  pub Spares-kept :
      (m : M World ServiceError A) → ((rows : List ShareRow) → Keeps (Are rows) m) → Spares m
  Spares-kept m keeps = record { at = λ w e. ((keeps w.db.shares).at w (record { at = refl })).at }

  pub Spares-Never : (m : M World ServiceError A) → Never m → Spares m
  Spares-Never m never = record { at = λ w e. absurd (never.at w e) }

  pub Spares-if :
      (b : Bool) (m n : M World ServiceError A) → Spares m → Spares n → Spares (if b then m else n)
  Spares-if true m n sm sn = sm
  Spares-if false m n sm sn = sn

  pub Spares-maybe :
      {C : Type 0} (o : Option C) (m : M World ServiceError A) (f : C → M World ServiceError A)
      → Spares m
      → ((c : C) → Spares (f c))
      → Spares (maybe o m f)
  Spares-maybe none m f sm sf = sm
  Spares-maybe (some c) m f sm sf = sf c

module _ {A B : Type 0} where
  Spares-continue :
      (rows : List ShareRow) (r : Result ServiceError A) (rest : A → M World ServiceError B)
      (w : World)
      → w.db.shares ≡ rows
      → ((a : A) → Spares (rest a))
      → (continue r rest w).0 ≡ err invalid_credentials
      → (continue r rest w).1.db.shares ≡ rows
  Spares-continue rows (ok a) rest w kept each e = (each a).at w e ∙ kept
  Spares-continue rows (err error) rest w kept each e = kept
  Spares-continue rows panic rest w kept each e = kept

  pub Spares-bind :
      (first : M World ServiceError A) (rest : A → M World ServiceError B)
      → ((rows : List ShareRow) → Keeps (Are rows) first)
      → ((a : A) → Spares (rest a))
      → Spares (first >>= rest)
  unfolding ◌>>=◌
  Spares-bind first rest keeps each = record {
    at = λ w e.
        Spares-continue w.db.shares (first w).0 rest (first w).1
          ((keeps w.db.shares).at w (record { at = refl })).at each e;
  }

module _ {A : Type 0} where
  after_store-at :
      (rows : List ShareRow) (r : Result ServiceError A) (w : World)
      → (r ≡ err invalid_credentials → w.db.shares ≡ rows)
      → (after_store r w).0 ≡ err invalid_credentials
      → (after_store r w).1.db.shares ≡ rows
  unfolding after_store
  after_store-at rows (ok a) w kept e = kept e
  after_store-at rows (err error) w kept e = kept e
  after_store-at rows panic w kept e = cc

  locked_store-at :
      (poisoned : Bool) (m : M World ServiceError A) (w : World)
      → Spares m
      → (locked_store poisoned m w).0 ≡ err invalid_credentials
      → (locked_store poisoned m w).1.db.shares ≡ w.db.shares
  unfolding locked_store
  locked_store-at true m w spares e = refl
  locked_store-at false m w spares e =
      after_store-at w.db.shares (m w).0 (m w).1 (λ same. spares.at w same) e

  pub Spares-with_store : (m : M World ServiceError A) → Spares m → Spares (with_store m)
  unfolding with_store
  Spares-with_store m spares = record { at = λ w. locked_store-at w.store_poisoned m w spares }

  join-eq :
      (r : Result ServiceError A) → join r ≡ err invalid_credentials → r ≡ err invalid_credentials
  unfolding join
  join-eq (ok a) e = e
  join-eq (err error) e = e
  join-eq panic e = cc

  pub Spares-spawn_blocking : (m : M World ServiceError A) → Spares m → Spares (spawn_blocking m)
  unfolding spawn_blocking
  Spares-spawn_blocking m spares = record { at = λ w e. spares.at w (join-eq (m w).0 e) }
