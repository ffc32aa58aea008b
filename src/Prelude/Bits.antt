-- ===== src/Prelude/Bits.antt =====
-- The bit operations of C on unsigned words: one equation for the lowest digit, and what follows
-- from it for single bits, low masks and shifted masks.
use Prim.Native.Nat.{
  ℕ, zero, suc, ◌+◌, ◌-◌, ◌*◌, ◌/◌, ◌%◌, ◌^◌, ◌≤◌, ◌<◌, min, max, digits, bitwise, bit_and, bit_or,
  bit_and-bitwise, bit_or-bitwise,
}
use mathlib.Core.Path.{◌≡◌, refl, ap, ◌∙◌}
use native.Mathlib.Nat.{le_refl, pow-suc, one-le-pow, mul_comm, div-add-mod, div-div-eq-div-mul}
use native.Mathlib.Omega.{arith}

-- Fuel that is left over changes nothing in the library's recursion over binary digits.
spare_fuel :
    (rest : ℕ → ℕ) (digit : ℕ → ℕ → ℕ) (less more x y : ℕ)
    → less ≤ more
    → x ≤ less
    → digits rest digit more x y ≡ digits rest digit less x y
spare_fuel rest digit zero zero x y h l = refl
spare_fuel rest digit zero (suc more) zero y h l = refl
spare_fuel rest digit zero (suc more) (suc x) y h l = absurd (omega arith)
spare_fuel rest digit (suc less) zero x y h l = absurd (omega arith)
spare_fuel rest digit (suc less) (suc more) zero y h l = refl
spare_fuel rest digit (suc less) (suc more) (suc x) y h l =
    let same = spare_fuel rest digit less more (suc x / 2) (y / 2) (omega arith) (omega arith) in
    rw same

-- An operation on words is that on the lowest digits, and the operation again on the halves.
halves :
    (rest : ℕ → ℕ) (digit : ℕ → ℕ → ℕ) (x y : ℕ)
    → bitwise rest digit (suc x) y
      ≡ 2 * bitwise rest digit (suc x / 2) (y / 2) + digit (suc x % 2) (y % 2)
halves rest digit x y =
    let spared =
      spare_fuel rest digit (suc x / 2) x (suc x / 2) (y / 2) (omega arith) (omega arith) in
    omega (arith, spared)

pub bit_and_step : (x y : ℕ) → bit_and x y ≡ 2 * bit_and (x / 2) (y / 2) + min (x % 2) (y % 2)
bit_and_step zero y = simp bit_and-bitwise (omega arith)
bit_and_step (suc x) y = simp bit_and-bitwise (halves (λ n. 0) min x y)

pub bit_or_step : (x y : ℕ) → bit_or x y ≡ 2 * bit_or (x / 2) (y / 2) + max (x % 2) (y % 2)
bit_or_step zero y = simp bit_or-bitwise (omega arith)
bit_or_step (suc x) y = simp bit_or-bitwise (halves (λ n. n) max x y)

-- Bit `i` of a word.
abbrev pub bit : ℕ → ℕ → ℕ
bit zero x = x % 2
bit (suc i) x = bit i (x / 2)

pub bit-bit_and : (i a b : ℕ) → bit i (bit_and a b) ≡ min (bit i a) (bit i b)
bit-bit_and zero a b = omega (arith, bit_and_step a b)
bit-bit_and (suc i) a b =
    let e : bit_and a b / 2 ≡ bit_and (a / 2) (b / 2) = omega (arith, bit_and_step a b) in
    rw e (bit-bit_and i (a / 2) (b / 2))

pub bit-bit_or : (i a b : ℕ) → bit i (bit_or a b) ≡ max (bit i a) (bit i b)
bit-bit_or zero a b = omega (arith, bit_or_step a b)
bit-bit_or (suc i) a b =
    let e : bit_or a b / 2 ≡ bit_or (a / 2) (b / 2) = omega (arith, bit_or_step a b) in
    rw e (bit-bit_or i (a / 2) (b / 2))

pub bit-le_one : (i x : ℕ) → bit i x ≤ 1
bit-le_one zero x = omega arith
bit-le_one (suc i) x = bit-le_one i (x / 2)

-- `~x` at width `w`.
pub bit-complement : (w i x : ℕ) → i < w → x < 2 ^ w → bit i (2 ^ w - 1 - x) ≡ 1 - bit i x
bit-complement zero i x h l = absurd (omega arith)
bit-complement (suc w) zero x h l = omega (arith, pow-suc 2 w, one-le-pow w 2)
bit-complement (suc w) (suc i) x h l =
    let e : (2 ^ suc w - 1 - x) / 2 ≡ 2 ^ w - 1 - x / 2 = omega (arith, pow-suc 2 w) in
    rw e (bit-complement w i (x / 2) (omega arith) (omega (arith, pow-suc 2 w)))

half_double : (x m : ℕ) → x / 2 / m ≡ x / (2 * m)
half_double x m = div-div-eq-div-mul x 2 m

-- A remainder by twice `m` has the lowest digit of the word, and over it the remainder by `m`.
mod_double : (x m : ℕ) → (x % (2 * m) % 2 ≡ x % 2) × (x % (2 * m) / 2 ≡ x / 2 % m)
mod_double x m = omega (
  arith,
  half_double x m,
  div-add-mod x (2 * m),
  div-add-mod (x / 2) m,
  ap (λ (t : ℕ). m * t) (half_double x m),
)

-- The bits below `w` survive a cast to `w` bits.
pub bit-mod : (w i x : ℕ) → i < w → bit i (x % 2 ^ w) ≡ bit i x
bit-mod zero i x h = absurd (omega arith)
bit-mod (suc w) zero x h = rw (pow-suc 2 w, mul_comm (2 ^ w) 2) (mod_double x (2 ^ w)).0
bit-mod (suc w) (suc i) x h =
    rw (pow-suc 2 w, mul_comm (2 ^ w) 2, (mod_double x (2 ^ w)).1)
      (bit-mod w i (x / 2) (omega arith))

-- A mask of nothing, and a union with nothing.
module _ (fuel : ℕ) (both : (x : ℕ) → x ≤ fuel → (bit_and x 0 ≡ 0) × (bit_or x 0 ≡ x)) where
  beside_nothing_suc : (x : ℕ) → x ≤ suc fuel → (bit_and x 0 ≡ 0) × (bit_or x 0 ≡ x)
  beside_nothing_suc zero l = (refl, refl)
  beside_nothing_suc (suc x) l =
      let half = both (suc x / 2) (omega arith) in
      (omega (arith, half.0, bit_and_step (suc x) 0), omega (arith, half.1, bit_or_step (suc x) 0))

beside_nothing : (fuel x : ℕ) → x ≤ fuel → (bit_and x 0 ≡ 0) × (bit_or x 0 ≡ x)
beside_nothing zero zero l = (refl, refl)
beside_nothing zero (suc x) l = absurd (omega arith)
beside_nothing (suc fuel) x l = beside_nothing_suc fuel (beside_nothing fuel) x l

pub bit_and-zero : (x : ℕ) → bit_and x 0 ≡ 0
bit_and-zero x = (beside_nothing x x (le_refl x)).0

pub bit_or-zero : (x : ℕ) → bit_or x 0 ≡ x
bit_or-zero x = (beside_nothing x x (le_refl x)).1

twice_product : (q k : ℕ) → q * 2 ^ suc k ≡ 2 * (q * 2 ^ k)
twice_product q k = omega (arith, ap (λ (t : ℕ). q * t) (pow-suc 2 k))

-- A mask of `k` low bits is the remainder by `2 ^ k`.
pub bit_and-low_mask : (k a : ℕ) → bit_and a (2 ^ k - 1) ≡ a % 2 ^ k
bit_and-low_mask zero a = rw bit_and-zero (omega arith)
bit_and-low_mask (suc k) a = omega (
  arith,
  bit_and_step a (2 ^ suc k - 1),
  ap (λ (t : ℕ). bit_and (a / 2) t) (half_mask k),
  bit_and-low_mask k (a / 2),
  mod_double a (2 ^ k),
  ap (λ (t : ℕ). a % t) (pow-suc 2 k ∙ mul_comm (2 ^ k) 2),
  pow-suc 2 k,
  one-le-pow k 2,
)
  where
    half_mask : (k : ℕ) → (2 ^ suc k - 1) / 2 ≡ 2 ^ k - 1
    half_mask k = omega (arith, pow-suc 2 k, one-le-pow k 2)

-- A mask shifted to the left selects a field.
pub bit_and-shifted : (k m a : ℕ) → bit_and a (m * 2 ^ k) ≡ bit_and (a / 2 ^ k) m * 2 ^ k
bit_and-shifted zero m a =
    let e : m * 1 ≡ m = omega arith in let d : a / 1 ≡ a = omega arith in rw (e, d) (omega arith)
bit_and-shifted (suc k) m a = omega (
  arith,
  bit_and_step a (m * 2 ^ suc k),
  twice_product m k,
  ap (λ (t : ℕ). bit_and (a / 2) t) (halved k),
  bit_and-shifted k m (a / 2),
  ap (λ (t : ℕ). bit_and t m) (half_double a (2 ^ k) ∙ ap (λ (t : ℕ). a / t) (two_pow k)),
  ap (λ (t : ℕ). bit_and t m * 2 ^ k) (half_double a (2 ^ k) ∙ ap (λ (t : ℕ). a / t) (two_pow k)),
  twice_product (bit_and (a / 2 ^ suc k) m) k,
)
  where
    two_pow : (k : ℕ) → 2 * 2 ^ k ≡ 2 ^ suc k
    two_pow k = omega (arith, pow-suc 2 k)

    halved : (k : ℕ) → m * 2 ^ suc k / 2 ≡ m * 2 ^ k
    halved k = omega (arith, twice_product m k)

-- `|` of a word shifted to the left and one that fits below it is their sum.
pub bit_or-fields : (k q r : ℕ) → r < 2 ^ k → bit_or (q * 2 ^ k) r ≡ q * 2 ^ k + r
bit_or-fields zero q r h = ground (arith, bit_or-zero q)
bit_or-fields (suc k) q r h = ground (
  arith,
  bit_or_step (q * 2 ^ suc k) r,
  twice_product q k,
  bit_or-fields k q (r / 2) (omega (arith, pow-suc 2 k)),
)

bit_or_comm_fuel : (n a b : ℕ) → a ≤ n → b ≤ n → bit_or a b ≡ bit_or b a
bit_or_comm_fuel zero zero zero p q = refl
bit_or_comm_fuel zero (suc a) b p q = absurd (omega arith)
bit_or_comm_fuel zero zero (suc b) p q = absurd (omega arith)
bit_or_comm_fuel (suc n) a b p q = omega (
  arith,
  bit_or_step a b,
  bit_or_step b a,
  bit_or_comm_fuel n (a / 2) (b / 2) (omega arith) (omega arith),
)

pub bit_or_comm : (a b : ℕ) → bit_or a b ≡ bit_or b a
bit_or_comm a b = bit_or_comm_fuel (a + b) a b (omega arith) (omega arith)

-- The same with the lower field on the left.
pub bit_or-fields_low : (k q r : ℕ) → r < 2 ^ k → bit_or r (q * 2 ^ k) ≡ q * 2 ^ k + r
bit_or-fields_low k q r h = bit_or_comm r (q * 2 ^ k) ∙ bit_or-fields k q r h

-- The byte at bit `k`.
pub bit_and-byte : (k a : ℕ) → bit_and a (255 * 2 ^ k) ≡ a / 2 ^ k % 256 * 2 ^ k
bit_and-byte k a =
    bit_and-shifted k 255 a ∙ ap (λ (t : ℕ). t * 2 ^ k) (bit_and-low_mask 8 (a / 2 ^ k))
