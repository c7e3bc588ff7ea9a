-- ===== src/Ring/Mask.antt =====
-- Linux_DSP_accelleration.hpp: the root header's `ShmSPSCRingBuffer`, which turns an index round by
-- `& (Capacity - 1)`. Its `static_assert` admits the powers of two.
use Prim.Native.Nat.{bit_and, digits, bit_and-bitwise, min}
use native.Mathlib.Nat.{
  mul-add-mod_self_left, div-add-mod, pow-suc, mul_comm, mod-lt, mod-eq_of_lt, zero-mod,
}
use linux_opensource_univers.Prelude.{
  ◌==◌, if◌then◌else◌, update, ℕ, zero, suc, ◌+◌, ◌-◌, ◌*◌, ◌/◌, ◌%◌, ◌^◌, ◌≤◌, ◌<◌, ◌≡◌, sym, ap,
  ◌∙◌, Bool, true, false, Option, none, some, arith,
}
use linux_opensource_univers.Ring.{Ring, push, pop}

abbrev pub next_masked : ℕ → ℕ → ℕ
next_masked cap i = bit_and ((i + 1) % 2 ^ 64) (cap - 1)

module _ {A : Type 0} (cap : ℕ) where
  pub push_masked : Ring A → A → Ring A × Bool
  push_masked r item =
      if next_masked cap r.tail == r.head
      then (r, false)
      else (record r { slot = update r.slot r.tail item; tail = next_masked cap r.tail }, true)

  pub pop_masked : Ring A → Ring A × Option A
  pop_masked r =
      if r.head == r.tail
      then (r, none)
      else (record r { head = next_masked cap r.head }, some (r.slot r.head))

mod_double : (x m : ℕ) → 0 < m → x % (2 * m) ≡ x / 2 % m * 2 + x % 2
mod_double x m p =
    let q : ℕ = x / 2 / m in
    let r : ℕ = x / 2 % m in
    let split : x ≡ 2 * m * q + (r * 2 + x % 2) =
      omega (arith, ap (λ (t : ℕ). t * 2) (div-add-mod (x / 2) m)) in
    ap (λ (t : ℕ). t % (2 * m)) split
    ∙ mul-add-mod_self_left (2 * m) q (r * 2 + x % 2)
    ∙ mod-eq_of_lt (omega (arith, mod-lt (x / 2) p))

pow_pos : (k : ℕ) → 0 < 2 ^ k
pow_pos zero = omega arith
pow_pos (suc k) = rw pow-suc (omega (arith, pow_pos k))

-- A mask of `k` ones keeps the remainder by `2 ^ k`.
ones_digits : (n a k : ℕ) → a ≤ n → digits (λ _. 0) min n a (2 ^ k - 1) ≡ a % 2 ^ k
ones_digits zero zero k h = sym (zero-mod (2 ^ k))
ones_digits zero (suc a) k h = absurd (omega arith)
ones_digits (suc n) zero k h = sym (zero-mod (2 ^ k))
ones_digits (suc n) (suc a) zero h = omega (arith, ones_digits n (suc a / 2) zero (omega arith))
ones_digits (suc n) (suc a) (suc k) h =
    let above : 0 < 2 ^ k = pow_pos k in
    let wide : 2 ^ suc k ≡ 2 * 2 ^ k = pow-suc 2 k ∙ mul_comm (2 ^ k) 2 in
    let tail : (2 ^ suc k - 1) / 2 ≡ 2 ^ k - 1 = omega (arith, wide) in
    let low : (2 ^ suc k - 1) % 2 ≡ 1 = omega (arith, wide) in
    rw
      (tail, low, wide, ones_digits n (suc a / 2) k (omega arith), mod_double (suc a) (2 ^ k) above)
      (omega arith)

pub bit_and-ones : (a k : ℕ) → bit_and a (2 ^ k - 1) ≡ a % 2 ^ k
bit_and-ones a k = bit_and-bitwise a (2 ^ k - 1) ∙ ones_digits a a k (omega arith)

-- For every power of two the masked ring pushes and pops as the ring of ipc_shm.hpp does.
pub masked_same :
    {A : Type 0} (k : ℕ) (r : Ring A) (x : A)
    → (push_masked (2 ^ k) r x ≡ push (2 ^ k) r x) × (pop_masked (2 ^ k) r ≡ pop (2 ^ k) r)
unfolding push_masked pop_masked push pop
masked_same k r x = (
  ground (arith, bit_and-ones ((r.tail + 1) % 2 ^ 64) k),
  ground (arith, bit_and-ones ((r.head + 1) % 2 ^ 64) k),
)
