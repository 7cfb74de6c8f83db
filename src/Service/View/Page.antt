-- ===== src/Service/View/Page.antt =====
-- The page of the audit log that `list_audit_events` cuts.
use fips_dropbox.Prelude.{
  ℕ, zero, suc, ◌+◌, ◌-◌, ◌≡◌, List, [], ◌∷◌, length, drop, arith, ltb, if◌then◌else◌,
}
use mathlib.Core.List.{reverse_aux}
use fips_dropbox.Event.{Event}
use fips_dropbox.Service.View.{page_of}

length-drop : {A : Type 0} (n : ℕ) (xs : List A) → length (drop n xs) ≡ length xs - n
length-drop zero xs = omega arith
length-drop (suc n) [] = omega arith
length-drop (suc n) (x ∷ xs) = omega (arith, length-drop n xs)

length-reverse_aux :
    {A : Type 0} (xs ys : List A) → length (reverse_aux xs ys) ≡ length xs + length ys
length-reverse_aux [] ys = omega arith
length-reverse_aux (x ∷ xs) ys = omega (arith, length-reverse_aux xs (x ∷ ys))

-- A page of the audit log has `limit` events, or all of them if there are fewer.
length-page_of :
    (limit : ℕ) (events : List Event)
    → length (page_of limit events) ≡ (if ltb (length events) limit then length events else limit)
unfolding page_of
length-page_of limit events = ground (
  arith,
  length-reverse_aux (drop (length events - limit) events) [],
  length-drop (length events - limit) events,
)
