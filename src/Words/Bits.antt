-- ===== src/Words/Bits.antt =====
-- Words and their bytes: `bit_or` of numbers that share no bit, `bit_and` with a mask of ones, and
-- reading back what was put.
use Prim.Native.Nat.{max, digits, bit_or-bitwise, bit_and-bitwise}
use phpatcher.Base.{
  ℕ, zero, suc, ◌+◌, ◌*◌, ◌/◌, ◌%◌, ◌^◌, ◌≤◌, ◌<◌, min, bit_and, bit_or, [], ◌∷◌, ◌≡◌, refl, ◌∙◌,
  arith,
}
use phpatcher.Words.{IsU32, put_u32le, get_u32le}

double_shift : (b k : ℕ) → b * 2 ^ suc k ≡ b * 2 ^ k * 2
double_shift b k = grind arith

-- The first number ends below the `k`-th bit, where the second begins.
digits_disjoint :
    (n k a b : ℕ) → a ≤ n → a < 2 ^ k → digits (λ b. b) max n a (b * 2 ^ k) ≡ a + b * 2 ^ k
digits_disjoint zero k zero b _ _ = omega arith
digits_disjoint zero k (suc a) b bound _ = absurd (omega arith)
digits_disjoint (suc n) k zero b _ _ = omega arith
digits_disjoint (suc n) zero (suc a) b _ small = absurd (omega arith)
digits_disjoint (suc n) (suc k) (suc a) b bound small =
    let even = double_shift b k in
    let half : b * 2 ^ suc k / 2 ≡ b * 2 ^ k = omega (arith, even) in
    let low : b * 2 ^ suc k % 2 ≡ 0 = omega (arith, even) in
    let smaller : suc a / 2 < 2 ^ k = grind arith in
    let rest = digits_disjoint n k (suc a / 2) b (omega arith) smaller in
    rw (half, rest, low) (omega (arith, even))

-- The same with the high part first.
digits_disjoint_high :
    (n k a b c : ℕ) → c ≤ n → c ≡ b * 2 ^ k → a < 2 ^ k → digits (λ b. b) max n c a ≡ c + a
digits_disjoint_high zero k a b zero _ _ _ = omega arith
digits_disjoint_high zero k a b (suc c) bound _ _ = absurd (omega arith)
digits_disjoint_high (suc n) k a b zero _ _ _ = omega arith
digits_disjoint_high (suc n) zero a b (suc c) bound e small =
    let rest =
      digits_disjoint_high n zero (a / 2) (suc c / 2) (suc c / 2) (omega arith) (omega arith)
        (omega arith) in
    rw rest (omega arith)
digits_disjoint_high (suc n) (suc k) a b (suc c) bound e small =
    let even = double_shift b k in
    let smaller : a / 2 < 2 ^ k = grind arith in
    let rest =
      digits_disjoint_high n k (a / 2) b (suc c / 2) (omega arith) (omega (arith, even)) smaller in
    rw rest (omega (arith, even))

pub bit_or_high : (k a b : ℕ) → a < 2 ^ k → bit_or (b * 2 ^ k) a ≡ b * 2 ^ k + a
bit_or_high k a b small =
    bit_or-bitwise (b * 2 ^ k) a
    ∙ digits_disjoint_high (b * 2 ^ k) k a b (b * 2 ^ k) (omega arith) refl small

bit_or_disjoint : (k a b : ℕ) → a < 2 ^ k → bit_or a (b * 2 ^ k) ≡ a + b * 2 ^ k
bit_or_disjoint k a b small =
    bit_or-bitwise a (b * 2 ^ k) ∙ digits_disjoint a k a b (omega arith) small

-- The `k` lowest bits, one by one.
abbrev low_bits : ℕ → ℕ → ℕ
low_bits zero a = 0
low_bits (suc k) a = low_bits k (a / 2) * 2 + a % 2

abbrev ones : ℕ → ℕ
ones zero = 0
ones (suc k) = ones k * 2 + 1

low_bits-zero : (k : ℕ) → low_bits k 0 ≡ 0
low_bits-zero zero = refl
low_bits-zero (suc k) = omega (arith, low_bits-zero k)

digits_mask : (n k a : ℕ) → a ≤ n → digits (λ _. 0) min n a (ones k) ≡ low_bits k a
digits_mask zero zero zero _ = refl
digits_mask (suc n) zero zero _ = refl
digits_mask zero (suc k) zero _ = omega (arith, low_bits-zero k)
digits_mask (suc n) (suc k) zero _ = omega (arith, low_bits-zero k)
digits_mask zero k (suc a) bound = absurd (omega arith)
digits_mask (suc n) zero (suc a) bound = omega (arith, digits_mask n zero (suc a / 2) (omega arith))
digits_mask (suc n) (suc k) (suc a) bound =
    let half : (ones k * 2 + 1) / 2 ≡ ones k = omega arith in
    let low : (ones k * 2 + 1) % 2 ≡ 1 = omega arith in
    rw (half, low, digits_mask n k (suc a / 2) (omega arith)) (omega arith)

bit_and-low_byte : (v : ℕ) → bit_and v 0xff ≡ v % 256
bit_and-low_byte v = bit_and-bitwise v 0xff ∙ (digits_mask v 8 v (omega arith) ∙ omega arith)

pub bit_and-low_word : (v : ℕ) → bit_and v 0xffffffff ≡ v % 2 ^ 32
bit_and-low_word v = bit_and-bitwise v 0xffffffff ∙ (digits_mask v 32 v (omega arith) ∙ omega arith)

-- The bytes that the two writers make.
pub put_u32le_bytes :
    (v : ℕ) → put_u32le v ≡ v % 256 ∷ v / 2 ^ 8 % 256 ∷ v / 2 ^ 16 % 256 ∷ v / 2 ^ 24 % 256 ∷ []
unfolding put_u32le
put_u32le_bytes v =
    rw
      (
        bit_and-low_byte v,
        bit_and-low_byte (v / 2 ^ 8),
        bit_and-low_byte (v / 2 ^ 16),
        bit_and-low_byte (v / 2 ^ 24),
      )
      refl

pub get_u32le_bytes :
    (v : ℕ)
    → IsU32 v
    → get_u32le (v % 256) (v / 2 ^ 8 % 256) (v / 2 ^ 16 % 256) (v / 2 ^ 24 % 256) ≡ v
unfolding get_u32le
get_u32le_bytes v fits = rw (bit_or_disjoint 8 (v % 256) (v / 2 ^ 8 % 256) (omega arith)) (
    rw (bit_or_disjoint 16 (v % 256 + v / 2 ^ 8 % 256 * 2 ^ 8) (v / 2 ^ 16 % 256) (omega arith)) (
      bit_or_disjoint 24 (v % 256 + v / 2 ^ 8 % 256 * 2 ^ 8 + v / 2 ^ 16 % 256 * 2 ^ 16)
        (v / 2 ^ 24 % 256) (omega arith)
      ∙ omega arith))
