-- ===== src/Common/Bits.antt =====
-- Exclusive or at variables: the lowest digit, and the laws that follow from it by induction.
use Prim.Native.Nat.{digits, differ, bit_and, bit_xor, bit_and-bitwise, bit_xor-bitwise}
use native.Mathlib.Nat.{pow-suc}
use otus_c_2025_3_kushko.Common.{
  ℕ, zero, suc, ◌+◌, ◌*◌, ◌/◌, ◌%◌, ◌^◌, ◌≤◌, ◌<◌, ◌≡◌, refl, ap, ap₂, sym, ◌∙◌, arith, min,
}

differ_bits : (a b : ℕ) → differ (a % 2) (b % 2) ≡ (a % 2 + b % 2) % 2
differ_bits a b = go (a % 2) (b % 2) (omega arith) (omega arith)
  where
    go : (c d : ℕ) → c < 2 → d < 2 → differ c d ≡ (c + d) % 2
    go zero d hc hd = omega arith
    go (suc zero) zero hc hd = refl
    go (suc zero) (suc zero) hc hd = refl
    go (suc zero) (suc (suc d)) hc hd = absurd (omega arith)
    go (suc (suc c)) d hc hd = absurd (omega arith)

-- The count of digits to go does not matter, once it is enough.
module _ (z : ℕ → ℕ) (f : ℕ → ℕ → ℕ) where
  digits_enough : (n m a b : ℕ) → a ≤ n → a ≤ m → digits z f n a b ≡ digits z f m a b
  digits_enough zero zero a b h k = refl
  digits_enough zero (suc m) zero b h k = refl
  digits_enough zero (suc m) (suc a) b h k = absurd (omega arith)
  digits_enough (suc n) zero zero b h k = refl
  digits_enough (suc n) zero (suc a) b h k = absurd (omega arith)
  digits_enough (suc n) (suc m) zero b h k = refl
  digits_enough (suc n) (suc m) (suc a) b h k =
      ap (λ t. t * 2 + f (suc a % 2) (b % 2))
        (digits_enough n m (suc a / 2) (b / 2) (omega arith) (omega arith))

pub xor_step : (a b : ℕ) → bit_xor a b ≡ bit_xor (a / 2) (b / 2) * 2 + (a % 2 + b % 2) % 2
xor_step zero b = omega (arith, bit_xor-bitwise 0 b, bit_xor-bitwise 0 (b / 2))
xor_step (suc a) b = omega (
  arith,
  bit_xor-bitwise (suc a) b,
  bit_xor-bitwise (suc a / 2) (b / 2),
  differ_bits (suc a) b,
  digits_enough (λ t. t) differ a (suc a / 2) (suc a / 2) (b / 2) (omega arith) (omega arith),
)

and_step : (a b : ℕ) → bit_and a b ≡ bit_and (a / 2) (b / 2) * 2 + min (a % 2) (b % 2)
and_step zero b = omega (arith, bit_and-bitwise 0 b, bit_and-bitwise 0 (b / 2))
and_step (suc a) b = omega (
  arith,
  bit_and-bitwise (suc a) b,
  bit_and-bitwise (suc a / 2) (b / 2),
  digits_enough (λ _. 0) min a (suc a / 2) (suc a / 2) (b / 2) (omega arith) (omega arith),
)

pub zero-xor : (b : ℕ) → bit_xor 0 b ≡ b
zero-xor b = bit_xor-bitwise 0 b

xor-zero_upto : (n a : ℕ) → a ≤ n → bit_xor a 0 ≡ a
xor-zero_upto n zero h = refl
xor-zero_upto zero (suc a) h = absurd (omega arith)
xor-zero_upto (suc n) (suc a) h =
    omega (arith, xor_step (suc a) 0, xor-zero_upto n (suc a / 2) (omega arith))

pub xor-zero : (a : ℕ) → bit_xor a 0 ≡ a
xor-zero a = xor-zero_upto a a (omega arith)

xor-self_upto : (n a : ℕ) → a ≤ n → bit_xor a a ≡ 0
xor-self_upto n zero h = refl
xor-self_upto zero (suc a) h = absurd (omega arith)
xor-self_upto (suc n) (suc a) h =
    omega (arith, xor_step (suc a) (suc a), xor-self_upto n (suc a / 2) (omega arith))

pub xor_self : (a : ℕ) → bit_xor a a ≡ 0
xor_self a = xor-self_upto a a (omega arith)

xor_comm_upto : (n a b : ℕ) → a ≤ n → bit_xor a b ≡ bit_xor b a
xor_comm_upto n zero b h = zero-xor b ∙ sym (xor-zero b)
xor_comm_upto zero (suc a) b h = absurd (omega arith)
xor_comm_upto (suc n) (suc a) b h = omega (
  arith,
  xor_step (suc a) b,
  xor_step b (suc a),
  xor_comm_upto n (suc a / 2) (b / 2) (omega arith),
)

pub xor_comm : (a b : ℕ) → bit_xor a b ≡ bit_xor b a
xor_comm a b = xor_comm_upto a a b (omega arith)

-- The two parts of an exclusive or.
pub xor-half : (a b : ℕ) → bit_xor a b / 2 ≡ bit_xor (a / 2) (b / 2)
xor-half a b = omega (arith, xor_step a b)

pub xor-odd : (a b : ℕ) → bit_xor a b % 2 ≡ (a % 2 + b % 2) % 2
xor-odd a b = omega (arith, xor_step a b)

xor_assoc_upto : (n a b c : ℕ) → a ≤ n → bit_xor (bit_xor a b) c ≡ bit_xor a (bit_xor b c)
xor_assoc_upto n zero b c h = ap (λ t. bit_xor t c) (zero-xor b) ∙ sym (zero-xor (bit_xor b c))
xor_assoc_upto zero (suc a) b c h = absurd (omega arith)
xor_assoc_upto (suc n) (suc a) b c h = omega (
  arith,
  xor_step (bit_xor (suc a) b) c,
  xor_step (suc a) (bit_xor b c),
  ap (λ t. bit_xor t (c / 2)) (xor-half (suc a) b),
  ap (λ t. bit_xor (suc a / 2) t) (xor-half b c),
  xor-odd (suc a) b,
  xor-odd b c,
  xor_assoc_upto n (suc a / 2) (b / 2) (c / 2) (omega arith),
)

pub xor_assoc : (a b c : ℕ) → bit_xor (bit_xor a b) c ≡ bit_xor a (bit_xor b c)
xor_assoc a b c = xor_assoc_upto a a b c (omega arith)

pub xor_swap :
    (a b c d : ℕ) → bit_xor (bit_xor a b) (bit_xor c d) ≡ bit_xor (bit_xor a c) (bit_xor b d)
xor_swap a b c d =
    xor_assoc a b (bit_xor c d)
    ∙ ap (λ t. bit_xor a t)
        (sym (xor_assoc b c d) ∙ ap (λ t. bit_xor t d) (xor_comm b c) ∙ xor_assoc c b d)
    ∙ sym (xor_assoc a c (bit_xor b d))

pub xor-cancel : (a b : ℕ) → bit_xor (bit_xor a b) b ≡ a
xor-cancel a b = xor_assoc a b b ∙ ap (λ t. bit_xor a t) (xor_self b) ∙ xor-zero a

pub xor-lt : (k a b : ℕ) → a < 2 ^ k → b < 2 ^ k → bit_xor a b < 2 ^ k
xor-lt zero a b ha hb =
    let za : a ≡ 0 = omega arith in let zb : b ≡ 0 = omega arith in omega (arith, ap₂ bit_xor za zb)
xor-lt (suc k) a b ha hb = omega (
  arith,
  pow-suc 2 k,
  xor_step a b,
  xor-lt k (a / 2) (b / 2) (omega (arith, pow-suc 2 k)) (omega (arith, pow-suc 2 k)),
)

-- Disjoint digits add up.
pub xor-fields : (k q r : ℕ) → r < 2 ^ k → bit_xor (q * 2 ^ k) r ≡ q * 2 ^ k + r
xor-fields zero q r h =
    let z : r ≡ 0 = omega arith in
    omega (arith, ap (λ t. bit_xor (q * 2 ^ 0) t) z, xor-zero (q * 2 ^ 0))
xor-fields (suc k) q r h =
    let e : q * 2 ^ suc k ≡ 2 * (q * 2 ^ k) = omega (arith, ap (λ (t : ℕ). q * t) (pow-suc 2 k)) in
    let half : q * 2 ^ suc k / 2 ≡ q * 2 ^ k = omega arith in
    omega (
      arith,
      xor_step (q * 2 ^ suc k) r,
      ap (λ t. bit_xor t (r / 2)) half,
      xor-fields k q (r / 2) (omega (arith, pow-suc 2 k)),
    )

and-zero_upto : (n a : ℕ) → a ≤ n → bit_and a 0 ≡ 0
and-zero_upto n zero h = refl
and-zero_upto zero (suc a) h = absurd (omega arith)
and-zero_upto (suc n) (suc a) h =
    omega (arith, and_step (suc a) 0, and-zero_upto n (suc a / 2) (omega arith))

pub and-one : (a : ℕ) → bit_and a 1 ≡ a % 2
and-one a = omega (arith, and_step a 1, and-zero_upto (a / 2) (a / 2) (omega arith))

and-fifteen : (a : ℕ) → bit_and a 15 ≡ a % 16
and-fifteen a =
    omega
      (arith, and_step a 15, and_step (a / 2) 7, and_step (a / 2 / 2) 3, and-one (a / 2 / 2 / 2))

-- `& 0xFF`
pub and-byte : (a : ℕ) → bit_and a 255 ≡ a % 256
and-byte a = omega (
  arith,
  and_step a 255,
  and_step (a / 2) 127,
  and_step (a / 2 / 2) 63,
  and_step (a / 2 / 2 / 2) 31,
  and-fifteen (a / 2 / 2 / 2 / 2),
)
