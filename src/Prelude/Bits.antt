-- ===== src/Prelude/Bits.antt =====
-- When the exclusive or, and the or, of two numbers is zero.
use Prim.Native.Nat.{
  ℕ, zero, suc, ◌/◌, ◌%◌, ◌≤◌, digits, differ, max, bit_xor, bit_or, bit_xor-bitwise,
  bit_or-bitwise,
}
use mathlib.Core.Path.{◌≡◌, refl, sym, ◌∙◌}
use native.Mathlib.Omega.{arith}

differ_zero : (a b : ℕ) → differ a b ≡ 0 → a ≡ b
differ_zero zero b h = sym h
differ_zero (suc a) zero h = h
differ_zero (suc a) (suc b) h = let e = differ_zero a b h in omega (arith, e)

differ_self : (a : ℕ) → differ a a ≡ 0
differ_self zero = refl
differ_self (suc a) = differ_self a

max_zero : (a b : ℕ) → max a b ≡ 0 → (a ≡ 0) × (b ≡ 0)
max_zero a b h = (omega (arith, h), omega (arith, h))

xor_zero : (n a b : ℕ) → a ≤ n → digits (λ b. b) differ n a b ≡ 0 → a ≡ b
xor_zero zero zero b h e = sym e
xor_zero zero (suc a) b h e = absurd (omega (arith, h))
xor_zero (suc n) zero b h e = sym e
xor_zero (suc n) (suc a) b h e =
    let high = xor_zero n (suc a / 2) (b / 2) (omega (arith, h)) (omega (arith, e)) in
    let low = differ_zero (suc a % 2) (b % 2) (omega (arith, e)) in omega (arith, high, low)

xor_self : (n a : ℕ) → a ≤ n → digits (λ b. b) differ n a a ≡ 0
xor_self zero zero h = refl
xor_self zero (suc a) h = absurd (omega (arith, h))
xor_self (suc n) zero h = refl
xor_self (suc n) (suc a) h =
    omega (arith, xor_self n (suc a / 2) (omega (arith, h)), differ_self (suc a % 2))

or_zero : (n a b : ℕ) → a ≤ n → digits (λ b. b) max n a b ≡ 0 → (a ≡ 0) × (b ≡ 0)
or_zero zero zero b h e = (refl, e)
or_zero zero (suc a) b h e = absurd (omega (arith, h))
or_zero (suc n) zero b h e = (refl, e)
or_zero (suc n) (suc a) b h e =
    let (high, _) = or_zero n (suc a / 2) (b / 2) (omega (arith, h)) (omega (arith, e)) in
    let (low, _) = max_zero (suc a % 2) (b % 2) (omega (arith, e)) in
    absurd (omega (arith, high, low))

pub bit_xor_zero : (a b : ℕ) → bit_xor a b ≡ 0 → a ≡ b
bit_xor_zero a b h = xor_zero a a b (omega arith) (sym (bit_xor-bitwise a b) ∙ h)

pub bit_xor_self : (a : ℕ) → bit_xor a a ≡ 0
bit_xor_self a = bit_xor-bitwise a a ∙ xor_self a a (omega arith)

pub bit_or_zero : (a b : ℕ) → bit_or a b ≡ 0 → (a ≡ 0) × (b ≡ 0)
bit_or_zero a b h = or_zero a a b (omega arith) (sym (bit_or-bitwise a b) ∙ h)
