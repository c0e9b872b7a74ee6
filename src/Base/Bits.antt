-- ===== src/Base/Bits.antt =====
-- Laws of `bit_and` and `bit_or` at variables, from the digit recursion that they stand for.
use Prim.Native.Nat.{
  ℕ, zero, suc, ◌+◌, ◌-◌, ◌*◌, ◌/◌, ◌%◌, ◌^◌, ◌≤◌, ◌<◌, min, max, bit_and, bit_or, digits,
  bit_and-bitwise, bit_or-bitwise,
}
use mathlib.Core.Path.{◌≡◌, refl, ap}
use native.Mathlib.Nat.{pow-suc, one-le-pow, div-add-mod, div-div-eq-div-mul, mul_comm}
use native.Mathlib.Omega.{arith}

-- More rounds than `x` has digits do not change the sum of the digits.
digits_enough :
    (stop : ℕ → ℕ) (op : ℕ → ℕ → ℕ) (less more x y : ℕ)
    → x ≤ less
    → less ≤ more
    → digits stop op less x y ≡ digits stop op more x y
digits_enough stop op zero zero zero y e f = refl
digits_enough stop op zero (suc more) zero y e f = refl
digits_enough stop op (suc less) (suc more) zero y e f = refl
digits_enough stop op zero more (suc x) y e f = absurd (omega arith)
digits_enough stop op (suc less) zero x y e f = absurd (omega arith)
digits_enough stop op (suc less) (suc more) (suc x) y e f =
    let half = digits_enough stop op less more (suc x / 2) (y / 2) (omega arith) (omega arith) in
    omega (arith, half)

none_and : (y : ℕ) → bit_and 0 y ≡ 0
none_and y = bit_and-bitwise 0 y

none_or : (y : ℕ) → bit_or 0 y ≡ y
none_or y = bit_or-bitwise 0 y

-- The lowest digit of the two operations, and the others.
pub and_digit : (x y : ℕ) → bit_and x y ≡ bit_and (x / 2) (y / 2) * 2 + min (x % 2) (y % 2)
and_digit zero y = omega (arith, none_and y, none_and (y / 2))
and_digit (suc x) y =
    let enough =
      digits_enough (λ d. zero) min (suc x / 2) x (suc x / 2) (y / 2) (omega arith) (omega arith) in
    let whole = bit_and-bitwise (suc x) y in
    let half = bit_and-bitwise (suc x / 2) (y / 2) in omega (arith, enough, half, whole)

pub or_digit : (x y : ℕ) → bit_or x y ≡ bit_or (x / 2) (y / 2) * 2 + max (x % 2) (y % 2)
or_digit zero y = omega (arith, none_or y, none_or (y / 2))
or_digit (suc x) y =
    let enough =
      digits_enough (λ d. d) max (suc x / 2) x (suc x / 2) (y / 2) (omega arith) (omega arith) in
    let whole = bit_or-bitwise (suc x) y in
    let half = bit_or-bitwise (suc x / 2) (y / 2) in omega (arith, enough, half, whole)

or-and_fuel : (n a b : ℕ) → a ≤ n → bit_or a b + bit_and a b ≡ a + b
or-and_fuel n zero b h = omega (arith, none_or b, none_and b)
or-and_fuel zero (suc a) b h = absurd (omega arith)
or-and_fuel (suc n) (suc a) b h = omega (
  arith,
  or_digit (suc a) b,
  and_digit (suc a) b,
  or-and_fuel n (suc a / 2) (b / 2) (omega arith),
)

-- A carry-free addition: the bits of `a | b` and of `a & b` add up to those of both.
pub bit_or-add-bit_and : (a b : ℕ) → bit_or a b + bit_and a b ≡ a + b
bit_or-add-bit_and a b = or-and_fuel a a b (omega arith)

and_none_fuel : (fuel x : ℕ) → x ≤ fuel → bit_and x 0 ≡ 0
and_none_fuel fuel zero e = none_and 0
and_none_fuel zero (suc x) e = absurd (omega arith)
and_none_fuel (suc fuel) (suc x) e =
    let half = and_none_fuel fuel (suc x / 2) (omega arith) in
    omega (arith, half, and_digit (suc x) 0)

pub and_none : (x : ℕ) → bit_and x 0 ≡ 0
and_none x = and_none_fuel x x (omega arith)

mod_double : (p a : ℕ) → 0 < p → a % (p * 2) ≡ a / 2 % p * 2 + a % 2
mod_double p a h = omega (
  arith,
  div-add-mod a (p * 2),
  div-add-mod (a / 2) p,
  div-div-eq-div-mul a 2 p,
  ap (λ (t : ℕ). p * 2 * t) (rw mul_comm at (div-div-eq-div-mul a 2 p)),
)

ones_double :
    (p a : ℕ) → 0 < p → bit_and (a / 2) (p - 1) ≡ a / 2 % p → bit_and a (p * 2 - 1) ≡ a % (p * 2)
ones_double p a h ih =
    let half : (p * 2 - 1) / 2 ≡ p - 1 = omega arith in
    omega (arith, and_digit a (p * 2 - 1), ap (bit_and (a / 2)) half, ih, mod_double p a h)

pub two_pow_pos : (k : ℕ) → 0 < 2 ^ k
two_pow_pos k = one-le-pow k 2 (omega arith)

-- A mask of `k` ones keeps the `k` low bits.
pub bit_and-ones : (k a : ℕ) → bit_and a (2 ^ k - 1) ≡ a % 2 ^ k
bit_and-ones zero a = omega (arith, and_none a)
bit_and-ones (suc k) a =
    rw (pow-suc 2 k) (ones_double (2 ^ k) a (two_pow_pos k) (bit_and-ones k (a / 2)))

shift_double :
    (p a m : ℕ)
    → bit_and (a / 2) (m * p) ≡ bit_and (a / 2 / p) m * p
    → bit_and a (m * (p * 2)) ≡ bit_and (a / (p * 2)) m * (p * 2)
shift_double p a m ih =
    let half : m * (p * 2) / 2 ≡ m * p = omega arith in
    let quot : a / 2 / p ≡ a / (p * 2) = rw mul_comm at (div-div-eq-div-mul a 2 p) in
    let ih' : bit_and (a / 2) (m * p) ≡ bit_and (a / (p * 2)) m * p = rw quot at ih in
    omega (arith, and_digit a (m * (p * 2)), ap (bit_and (a / 2)) half, ih')

-- A mask that is shifted to the left by `k` reads the word that is shifted to the right by `k`.
pub bit_and-shift : (k a m : ℕ) → bit_and a (m * 2 ^ k) ≡ bit_and (a / 2 ^ k) m * 2 ^ k
bit_and-shift zero a m =
    let e : m * 1 ≡ m = omega arith in let d : a / 1 ≡ a = omega arith in rw (e, d) (omega arith)
bit_and-shift (suc k) a m = rw (pow-suc 2 k) (shift_double (2 ^ k) a m (bit_and-shift k (a / 2) m))

complement_double :
    (p a m : ℕ)
    → m < p * 2
    → bit_and (a / 2) (p - 1 - m / 2) + bit_and (a / 2) (m / 2) ≡ a / 2
    → bit_and a (p * 2 - 1 - m) + bit_and a m ≡ a
complement_double p a m g ih =
    let half : (p * 2 - 1 - m) / 2 ≡ p - 1 - m / 2 = omega arith in
    omega (arith, and_digit a (p * 2 - 1 - m), and_digit a m, ap (bit_and (a / 2)) half, ih)

-- The mask and its complement in `k` bits split a `k`-bit word.
pub bit_and-complement :
    (k a m : ℕ) → a < 2 ^ k → m < 2 ^ k → bit_and a (2 ^ k - 1 - m) + bit_and a m ≡ a
bit_and-complement zero a m h g =
    let e : a ≡ 0 = omega arith in rw e (omega (arith, none_and (0 - m), none_and m))
bit_and-complement (suc k) a m h g =
    let h' : a < 2 ^ k * 2 = rw pow-suc at h in
    let g' : m < 2 ^ k * 2 = rw pow-suc at g in
    rw (pow-suc 2 k) (
      complement_double (2 ^ k) a m g'
        (bit_and-complement k (a / 2) (m / 2) (omega arith) (omega arith)))

and_half : (a b : ℕ) → bit_and a b / 2 ≡ bit_and (a / 2) (b / 2)
and_half a b = omega (arith, and_digit a b)

and_low : (a b : ℕ) → bit_and a b % 2 ≡ min (a % 2) (b % 2)
and_low a b = omega (arith, and_digit a b)

disjoint_fuel : (f a b n m : ℕ) → n ≤ f → bit_and n m ≡ 0 → bit_and (bit_and a n) (bit_and b m) ≡ 0
disjoint_fuel f a b zero m h e = rw and_none (none_and (bit_and b m))
disjoint_fuel zero a b (suc n) m h e = absurd (omega arith)
disjoint_fuel (suc f) a b (suc n) m h e =
    let below : bit_and (suc n / 2) (m / 2) ≡ 0 = omega (arith, and_digit (suc n) m) in
    let rest =
      rw (← and_half a (suc n), ← and_half b m) at
        (disjoint_fuel f (a / 2) (b / 2) (suc n / 2) (m / 2) (omega arith) below) in
    omega (
      arith,
      and_digit (bit_and a (suc n)) (bit_and b m),
      and_digit (suc n) m,
      and_low a (suc n),
      and_low b m,
      rest,
    )

-- Words cut down by disjoint masks have no bit in common.
pub bit_and-disjoint : (a b n m : ℕ) → bit_and n m ≡ 0 → bit_and (bit_and a n) (bit_and b m) ≡ 0
bit_and-disjoint a b n m = disjoint_fuel n a b n m (omega arith)
