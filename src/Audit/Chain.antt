-- ===== src/Audit/Chain.antt =====
-- What `verify_chain` accepts, where it reports a break, and that a chain pins its whole history.
use fips_dropbox.Prelude.{
  ℕ, suc, ◌+◌, ◌<◌, ◌≡◌, ◌⊎◌, inl, inr, refl, ap, true, false, none, some, List, [], ◌∷◌, ◌++◌, ◌∙◌,
  arith, take, length, list_eq, list_eq_of_eq, eq_of_list_eq, list_eq_refl, Bool-cases,
  if◌then◌else◌,
}
use fips_dropbox.Text.{Text}
use fips_dropbox.Result
use fips_dropbox.Result.{Result, ok, err, panic, >>=-eq-ok}
use fips_dropbox.Platform.{Platform}
use fips_dropbox.Errors.{AuditError}
use fips_dropbox.Event.{Event, ChainVerification}
use fips_dropbox.Audit.{genesis_hash, broken_at, event_hash, verify_from, verify_chain}

module _ ⦃os : Platform⦄ where
  -- `ev` is linked to the hash `prev`, and carries its own.
  abbrev pub Links : Text → Event → Type 0
  Links prev ev = (ev.prev_hash ≡ prev) × (event_hash ev ≡ ok ev.hash)

  -- An unbroken chain that begins at the hash `prev`.
  abbrev pub IsChain : Text → List Event → Type 0
  IsChain prev [] = Unit
  IsChain prev (ev ∷ events) = Links prev ev × IsChain ev.hash events

  -- The hash that the next event has to name.
  abbrev pub head_hash : Text → List Event → Text
  head_hash prev [] = prev
  head_hash prev (ev ∷ events) = head_hash ev.hash events

  pub IsChain-append :
      (prev : Text) (xs ys : List Event)
      → IsChain prev xs
      → IsChain (head_hash prev xs) ys
      → IsChain prev (xs ++ ys)
  IsChain-append prev [] ys h k = k
  IsChain-append prev (x ∷ xs) ys h k = (h.0, IsChain-append x.hash xs ys h.1 k)

  pub head_hash-append :
      (prev : Text) (xs ys : List Event)
      → head_hash prev (xs ++ ys) ≡ head_hash (head_hash prev xs) ys
  head_hash-append prev [] ys = refl
  head_hash-append prev (x ∷ xs) ys = head_hash-append x.hash xs ys

  verify_from_complete :
      (prev : Text) (i : ℕ) (events : List Event)
      → IsChain prev events
      → verify_from prev i events
        ≡ ok (record { valid = true; break_at = none; events_checked = i + length events })
  unfolding verify_from
  verify_from_complete prev i [] h = ground arith
  verify_from_complete prev i (ev ∷ events) ((p, e), h) =
      rw (list_eq_of_eq ev.prev_hash prev p, e, list_eq_refl ev.hash)
        (rw (verify_from_complete ev.hash (suc i) events h) (ground arith))

  -- What a verification that began at event `i` says: the chain is whole, or its first `n` events
  -- are a chain and the next breaks it.
  abbrev pub Explains : Text → ℕ → List Event → ChainVerification → Type 0
  Explains prev i events v =
      ((v.valid ≡ true)
        × (v.break_at ≡ none)
        × (v.events_checked ≡ i + length events)
        × IsChain prev events)
      ⊎ ((n : ℕ) × (v.valid ≡ false)
          × (v.break_at ≡ some (i + n))
          × (v.events_checked ≡ i + n)
          × (n < length events)
          × IsChain prev (take n events)
          × ¬ IsChain prev (take (suc n) events))

  explains_break :
      (prev : Text) (i : ℕ) (ev : Event) (events : List Event) (v : ChainVerification)
      → ◌≡◌ {A = Result AuditError ChainVerification} (ok (broken_at i)) (ok v)
      → ¬ Links prev ev
      → Explains prev i (ev ∷ events) v
  explains_break prev i ev events v e apart =
      inr (0, ground arith, ground arith, ground arith, omega arith, tt, λ c. apart c.0)

  explains_next :
      (prev : Text) (i : ℕ) (ev : Event) (events : List Event) (v : ChainVerification)
      → Links prev ev
      → Explains ev.hash (suc i) events v
      → Explains prev i (ev ∷ events) v
  explains_next prev i ev events v link (inl (a, b, c, d)) = inl (a, b, omega arith, (link, d))
  explains_next prev i ev events v link (inr (n, a, b, c, d, e, f)) =
      inr (suc n, a, b ∙ ap some (omega arith), omega arith, omega arith, (link, e), λ k. f k.1)

  step :
      (prev : Text) (i : ℕ) (ev : Event) (events : List Event) (v : ChainVerification)
      (hash : Result AuditError Text) (rest : Result AuditError ChainVerification)
      → event_hash ev ≡ hash
      → (rest ≡ ok v → Explains ev.hash (suc i) events v)
      → (if list_eq ev.prev_hash prev
          then Result.◌>>=◌ hash
              (λ computed. if list_eq computed ev.hash then rest else ok (broken_at i))
          else ok (broken_at i))
        ≡ ok v
      → Explains prev i (ev ∷ events) v
  step prev i ev events v (err e) rest eh ih h = elim (Bool-cases (list_eq ev.prev_hash prev)) [
    | inl same ↦ cc (rw same at h)
    | inr apart ↦
        explains_break prev i ev events v (rw apart at h)
          (λ link. cc (list_eq_of_eq ev.prev_hash prev link.0))
  ]
  step prev i ev events v panic rest eh ih h = elim (Bool-cases (list_eq ev.prev_hash prev)) [
    | inl same ↦ cc (rw same at h)
    | inr apart ↦
        explains_break prev i ev events v (rw apart at h)
          (λ link. cc (list_eq_of_eq ev.prev_hash prev link.0))
  ]
  step prev i ev events v (ok computed) rest eh ih h =
      elim (Bool-cases (list_eq ev.prev_hash prev)) [
        | inr apart ↦
            explains_break prev i ev events v (rw apart at h)
              (λ link. cc (list_eq_of_eq ev.prev_hash prev link.0))
        | inl same ↦ elim (Bool-cases (list_eq computed ev.hash)) [
          | inl right ↦
              explains_next prev i ev events v
                (
                  eq_of_list_eq ev.prev_hash prev same,
                  eh ∙ ap ok (eq_of_list_eq computed ev.hash right),
                )
                (ih (rw (same, right) at h))
          | inr wrong ↦
              explains_break prev i ev events v (rw (same, wrong) at h)
                (λ link. ground (arith, list_eq_of_eq computed ev.hash))
        ]
      ]

  verify_from_explains :
      (prev : Text) (i : ℕ) (events : List Event) (v : ChainVerification)
      → verify_from prev i events ≡ ok v
      → Explains prev i events v
  unfolding verify_from
  verify_from_explains prev i [] v h = inl (ground arith, ground arith, ground arith, tt)
  verify_from_explains prev i (ev ∷ events) v h =
      step prev i ev events v (event_hash ev) (verify_from ev.hash (suc i) events) refl
        (verify_from_explains ev.hash (suc i) events v) h

  -- Of any list of events that `verify_chain` decides: a valid verdict means an unbroken chain from
  -- the genesis hash, all events counted; an invalid one names the first event that breaks it.
  pub verify_chain_explains :
      (events : List Event) (v : ChainVerification)
      → verify_chain events ≡ ok v
      → Explains genesis_hash 0 events v
  unfolding verify_chain
  verify_chain_explains events v h = verify_from_explains genesis_hash 0 events v h

  -- An unbroken chain is accepted, with every event counted.
  pub verify_chain_complete :
      (events : List Event)
      → IsChain genesis_hash events
      → verify_chain events
        ≡ ok (record { valid = true; break_at = none; events_checked = length events })
  unfolding verify_chain
  verify_chain_complete events h =
      verify_from_complete genesis_hash 0 events h ∙ ap verdict (omega arith)
    where
      verdict : ℕ → Result AuditError ChainVerification
      verdict n = ok (record { valid = true; break_at = none; events_checked = n })
