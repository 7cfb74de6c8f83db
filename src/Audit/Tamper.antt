-- ===== src/Audit/Tamper.antt =====
-- Two valid logs of one length and one last hash are the same log, or exhibit two JSON texts with
-- one digest.
use fips_dropbox.Prelude.{
  ◌≡◌, ◌≢◌, ◌⊎◌, inl, inr, refl, sym, ap, false, some, List, [], ◌∷◌, ◌∙◌, arith, length, list_eq,
  eq_of_list_eq, list_eq_of_eq, Bool-cases, Option-cases,
}
use fips_dropbox.Text.{Text}
use fips_dropbox.Result.{ok}
use fips_dropbox.Platform.{Platform}
use fips_dropbox.Event.{Event}
use fips_dropbox.Audit.{clear_hash, ok_or_serde, is_blank, digest_text, event_hash}
use fips_dropbox.Audit.Lines.{IsOneLine}
use fips_dropbox.Audit.Chain.{IsChain, head_hash}

-- What the code relies on of serde_json's compact form of an event: it is read back as the event,
-- and it is one line that is not blank.
pub record IsJson (os : Platform) : Type 0 where
  pub read_back :
      (ev : Event) (line : Text)
      → os.event_to_json ev ≡ some line
      → os.event_from_json line ≡ some ev
  pub one_line : (ev : Event) (line : Text) → os.event_to_json ev ≡ some line → IsOneLine line
  pub not_blank :
      (ev : Event) (line : Text) → os.event_to_json ev ≡ some line → is_blank line ≡ false

module _ ⦃os : Platform⦄ (json : IsJson os) where
  -- Two texts that the hash of the log does not tell apart.
  abbrev pub Collision : Type 0
  Collision = (a b h : Text) × (a ≢ b) × (digest_text a ≡ ok h) × (digest_text b ≡ ok h)

  canonical_of_hash :
      (ev : Event) (h : Text)
      → event_hash ev ≡ ok h
      → (line : Text) × (os.event_to_json (clear_hash ev) ≡ some line) × (digest_text line ≡ ok h)
  unfolding event_hash ok_or_serde
  canonical_of_hash ev h e = elim (Option-cases (os.event_to_json (clear_hash ev))) [
    | inl bad ↦ cc (rw bad at e)
    | inr (line, good) ↦ (line, good, rw good at e)
  ]

  eq_of_clear_hash : (a b : Event) → clear_hash a ≡ clear_hash b → a.hash ≡ b.hash → a ≡ b
  unfolding clear_hash
  eq_of_clear_hash a b e h = ground arith

  -- One hash means one event, or a collision.
  same_event :
      (a b : Event)
      → a.hash ≡ b.hash
      → event_hash a ≡ ok a.hash
      → event_hash b ≡ ok b.hash
      → (a ≡ b) ⊎ Collision
  same_event a b e ha hb =
      let (s, ta, da) = canonical_of_hash a a.hash ha in
      let (t, tb, db) = canonical_of_hash b b.hash hb in
      elim (Bool-cases (list_eq s t)) [
        | inl same ↦ inl (
            eq_of_clear_hash a b
              (cc (
                json.read_back (clear_hash a) s ta,
                json.read_back (clear_hash b) t tb,
                eq_of_list_eq s t same,
              ))
              e)
        | inr apart ↦ inr (s, t, a.hash, (λ p. cc (list_eq_of_eq s t p)), da, db ∙ ap ok (sym e))
      ]

  same_history :
      (p q : Text) (xs ys : List Event)
      → IsChain p xs
      → IsChain q ys
      → length xs ≡ length ys
      → head_hash p xs ≡ head_hash q ys
      → (xs ≡ ys) × (p ≡ q) ⊎ Collision
  same_history p q [] [] h k l e = inl (refl, e)
  same_history p q [] (y ∷ ys) h k l e = absurd (omega arith)
  same_history p q (x ∷ xs) [] h k l e = absurd (omega arith)
  same_history p q (x ∷ xs) (y ∷ ys) (hx, h) (ky, k) l e =
      elim (same_history x.hash y.hash xs ys h k (omega arith) e) [
        | inr clash ↦ inr clash
        | inl (rest, hashes) ↦ elim (same_event x y hashes hx.1 ky.1) [
          | inr clash ↦ inr clash
          | inl one ↦ inl (cc, sym hx.0 ∙ ap (λ ev. ev.prev_hash) one ∙ ky.0)
        ]
      ]

  -- Two unbroken chains of one length that end in the same hash are event for event the same, or
  -- they exhibit two different JSON texts with the same digest.
  pub chain_pins_history :
      (prev : Text) (xs ys : List Event)
      → IsChain prev xs
      → IsChain prev ys
      → length xs ≡ length ys
      → head_hash prev xs ≡ head_hash prev ys
      → (xs ≡ ys) ⊎ Collision
  chain_pins_history prev xs ys h k l e = elim (same_history prev prev xs ys h k l e) [
    | inl (same, _) ↦ inl same
    | inr clash ↦ inr clash
  ]
