-- ===== src/Prelude/Memory.antt =====
-- Arrays as functions of the index, and regions of memory with a size: a copy past the end of a
-- region is a fault (`none`), as it is undefined behaviour in C.
use Prim.Native.Nat.{ℕ, ◌+◌, ◌-◌, ◌≤◌, ◌<◌}
use mathlib.Core.Path.{◌≡◌}
use mathlib.Core.Logic.{◌≢◌}
use mathlib.Core.Bool.{◌&&◌}
use mathlib.Core.Option.{Option, none, some}
use native.Mathlib.Omega.{arith}
use linux_opensource_univers.Prelude.Tests.{ltb, leb, ◌==◌, if◌then◌else◌}

module _ {ℓ} {A : Type ℓ} where
  abbrev pub update : (ℕ → A) → ℕ → A → ℕ → A
  update f i v j = if j == i then v else f j

  -- `memcpy(dest + at, src + from, n * sizeof(A))` with no regard to sizes.
  abbrev pub blit : (ℕ → A) → ℕ → (ℕ → A) → ℕ → ℕ → ℕ → A
  blit dest at src from n j = if leb at j && ltb j (at + n) then src (from + (j - at)) else dest j

module _ {ℓ} {A : Type ℓ} where
  pub update_here : (f : ℕ → A) {i j : ℕ} (v : A) → j ≡ i → update f i v j ≡ v
  update_here f v h = ground arith

  pub update_else : (f : ℕ → A) {i j : ℕ} (v : A) → j ≢ i → update f i v j ≡ f j
  update_else f v h = ground arith

pub record Region {ℓ} (A : Type ℓ) : Type ℓ where
  pub size : ℕ
  pub cell : ℕ → A

module _ {ℓ} {A : Type ℓ} where
  unfoldable pub memcpy : Region A → ℕ → Region A → ℕ → ℕ → Option (Region A)
  memcpy dest at src from n =
      if leb (at + n) dest.size && leb (from + n) src.size
      then some (record dest { cell = blit dest.cell at src.cell from n })
      else none

  pub memcpy_fits :
      (dest src : Region A) (at from n : ℕ)
      → at + n ≤ dest.size
      → from + n ≤ src.size
      → memcpy dest at src from n ≡ some (record dest { cell = blit dest.cell at src.cell from n })
  unfolding memcpy
  memcpy_fits dest src at from n p q = ground arith

  -- A copy past the end of the destination faults.
  pub memcpy_overrun :
      (dest src : Region A) (at from n : ℕ) → dest.size < at + n → memcpy dest at src from n ≡ none
  unfolding memcpy
  memcpy_overrun dest src at from n p = ground arith

  pub blit_inside :
      (dest src : ℕ → A) (at from n k : ℕ)
      → k < n
      → blit dest at src from n (at + k) ≡ src (from + k)
  blit_inside dest src at from n k h = ground arith

  pub blit_below :
      (dest src : ℕ → A) (at from n j : ℕ) → j < at → blit dest at src from n j ≡ dest j
  blit_below dest src at from n j h = ground arith

  pub blit_above :
      (dest src : ℕ → A) (at from n j : ℕ) → at + n ≤ j → blit dest at src from n j ≡ dest j
  blit_above dest src at from n j h = ground arith
