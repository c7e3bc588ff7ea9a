-- ===== src/Ring.antt =====
-- daemon/ipc/include/ipc_shm.hpp: `ShmSPSCRingBuffer<T, Capacity>`, one call at a time. `Spsc` has
-- the producer's and the consumer's calls interleaved, `Mask` the variant of the root header.
pub mod Window
pub mod Fifo
pub mod Refine
pub mod ZeroCopy
pub mod Spsc
pub mod Mask
mod Tests
use linux_opensource_univers.Prelude.{
  ◌==◌, if◌then◌else◌, update, ℕ, ◌+◌, ◌%◌, ◌^◌, Bool, true, false, Option, none, some,
}

-- The members `head_`, `tail_` and `data_`; the slots from `Capacity` on are no part of the object.
pub record Ring (A : Type 0) : Type 0 where
  pub head : ℕ
  pub tail : ℕ
  pub slot : ℕ → A

-- `Capacity` is the template's argument, a `size_t`: the addition wraps at 64 bits.
abbrev pub next : ℕ → ℕ → ℕ
next cap i = (i + 1) % 2 ^ 64 % cap

module _ {A : Type 0} (cap : ℕ) where
  -- The pointer `&data_[current_head]` as an index, `nullptr` as `none`.
  pub peek_read : Ring A → Option ℕ
  peek_read r = if r.head == r.tail then none else some r.head

  pub commit_read : Ring A → Ring A
  commit_read r = record r { head = next cap r.head }

  unfoldable pub reserve_write : Ring A → Option ℕ
  reserve_write r = if next cap r.tail == r.head then none else some r.tail

  pub commit_write : Ring A → Ring A
  commit_write r = record r { tail = next cap r.tail }

  unfoldable pub push : Ring A → A → Ring A × Bool
  push r item =
      if next cap r.tail == r.head
      then (r, false)
      else (record r { slot = update r.slot r.tail item; tail = next cap r.tail }, true)

  -- `none` is `false`, with `out_item` left alone.
  unfoldable pub pop : Ring A → Ring A × Option A
  pop r =
      if r.head == r.tail
      then (r, none)
      else (record r { head = next cap r.head }, some (r.slot r.head))

  pub empty : Ring A → Bool
  empty r = r.head == r.tail

  pub capacity : Ring A → ℕ
  capacity r = cap

-- What the holder of a reserved slot's pointer does with it.
abbrev pub write_slot : {A : Type 0} → ℕ → A → Ring A → Ring A
write_slot i a r = record r { slot = update r.slot i a }
