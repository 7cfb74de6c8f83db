-- ===== src/Crypto/Compare.antt =====
-- `constant_time_eq`, which crates/crypto/src/mac.rs and crates/storage/src/{users,shares}.rs
-- each define, and what it decides.
mod Bits
use fips_dropbox.Prelude.{
  ℕ, ◌≡◌, refl, ◌↔◌, Bool, true, false, [], ◌∷◌, bit_or, bit_xor, arith, length, ◌==◌,
  if◌then◌else◌,
}
use fips_dropbox.Text.{Bytes}
use Bits.{bit_or-eq-zero, bit_or_zero, bit_xor-eq-zero, bit_xor_self}

-- `for (x, y) in a.iter().zip(b) { diff |= x ^ y; }`
difference : ℕ → Bytes → Bytes → ℕ
difference diff (x ∷ a) (y ∷ b) = difference (bit_or diff (bit_xor x y)) a b
difference diff _ _ = diff

unfoldable pub constant_time_eq : Bytes → Bytes → Bool
unfolding difference
constant_time_eq a b = if length a == length b then difference 0 a b == 0 else false

difference-zero : (diff : ℕ) (a b : Bytes) → difference diff a b ≡ 0 → diff ≡ 0
unfolding difference
difference-zero diff [] b h = h
difference-zero diff (x ∷ a) [] h = h
difference-zero diff (x ∷ a) (y ∷ b) h =
    (bit_or-eq-zero diff (bit_xor x y) (difference-zero (bit_or diff (bit_xor x y)) a b h)).0

eq_of_difference : (diff : ℕ) (a b : Bytes) → length a ≡ length b → difference diff a b ≡ 0 → a ≡ b
unfolding difference
eq_of_difference diff [] [] e h = refl
eq_of_difference diff [] (y ∷ b) e h = absurd (omega arith)
eq_of_difference diff (x ∷ a) [] e h = absurd (omega arith)
eq_of_difference diff (x ∷ a) (y ∷ b) e h =
    let step : bit_or diff (bit_xor x y) ≡ 0 = difference-zero (bit_or diff (bit_xor x y)) a b h in
    let same : x ≡ y = bit_xor-eq-zero x y (bit_or-eq-zero diff (bit_xor x y) step).1 in
    let rest : a ≡ b = eq_of_difference (bit_or diff (bit_xor x y)) a b (omega arith) h in cc

difference_self : (a : Bytes) → difference 0 a a ≡ 0
unfolding difference
difference_self [] = refl
difference_self (x ∷ a) = rw (bit_xor_self x, bit_or_zero) (difference_self a)

-- The comparison accepts exactly equal byte strings.
pub constant_time_eq_iff : (a b : Bytes) → (constant_time_eq a b ≡ true) ↔ (a ≡ b)
unfolding constant_time_eq
constant_time_eq_iff a b = (
  λ h. eq_of_difference 0 a b (ground arith) (ground arith),
  λ e. rw e (ground (arith, difference_self b)),
)
