-- ===== src/Vulkan/Shader.antt =====
-- daemon/vulkan/vulkan_compute.c: `read_spv`, which reads the shader, and `dsp_vulkan_enumerate_devices`.
use linux_opensource_univers.Prelude.{
  length, take, length-take_le, pos, negsuc, ℤ, to_int, ℕ, ◌-◌, ◌%◌, ◌^◌, ◌≤◌, ◌≡◌, refl, Bool,
  true, false, Option, none, some, List, arith,
}
use mathlib.Core.Path.{subst}
use linux_opensource_univers.Vulkan.Setup.{made, gone}

-- A file that is open: the `long` that `ftell` gives at its end, and the bytes that `fread` then puts
-- into a buffer of that size
pub record File : Type 0 where
  pub told : ℤ
  pub bytes : List ℕ

-- `(size_t)size`
abbrev pub to_size : ℤ → ℕ
to_size (pos n) = n % 2 ^ 64
to_size (negsuc n) = 2 ^ 64 - 1 - n

-- What `fread` has put into a buffer of `size` bytes; the rest of the buffer has no value.
pub record Code : Type 0 where
  pub size : ℕ
  pub filled : List ℕ

-- From the size on: `malloc` is asked for that many bytes, and `*out_size` is set where it gives them.
unfoldable pub read_sized : Bool → File → ℕ → ℕ → Option Code × ℕ
read_sized false file size out_size = (none, out_size)
read_sized true file size out_size =
    (some record { size = size; filled = take size file.bytes }, size)

-- `read_spv`: the buffer, or NULL, and `*out_size`
unfoldable pub read_spv : (ℕ → Bool) → Option File → ℕ → Option Code × ℕ
read_spv mallocs none out_size = (none, out_size)
read_spv mallocs (some file) out_size =
    let size = to_size file.told in read_sized (mallocs size) file size out_size

-- `dsp_vulkan_enumerate_devices`: what it returns, and the number of the driver's objects that exist
unfoldable pub enumerate_devices : Option ℕ → ℕ → ℕ → ℤ × ℕ
enumerate_devices none count live = (pos 0, live)
enumerate_devices (some i) count live = (to_int count, gone (some i) (made (some i) live))

-- Whatever the driver answers, asking for the number of devices leaves no object behind.
pub enumerate_devices-live :
    (i : Option ℕ) (count live : ℕ) → (enumerate_devices i count live).1 ≡ live
unfolding enumerate_devices made gone
enumerate_devices-live none count live = refl
enumerate_devices-live (some i) count live = omega arith

-- The buffer that a reading gives has the size that it tells, and is never filled past it.
pub read_spv-size :
    (mallocs : ℕ → Bool) (file : Option File) (out_size : ℕ) {c : Code}
    → (read_spv mallocs file out_size).0 ≡ some c
    → ((read_spv mallocs file out_size).1 ≡ c.size) × (length c.filled ≤ c.size)
unfolding read_spv read_sized
read_spv-size mallocs none out_size e = cc
read_spv-size mallocs (some file) out_size {c} e = go (mallocs (to_size file.told)) e
  where
    go :
        (b : Bool)
        → (read_sized b file (to_size file.told) out_size).0 ≡ some c
        → ((read_sized b file (to_size file.told) out_size).1 ≡ c.size) × (length c.filled ≤ c.size)
    go false e = cc
    go true e =
        let is : record { size = to_size file.told; filled = take (to_size file.told) file.bytes }
            ≡ c =
          cc e in
        subst (λ (x : Code). (to_size file.told ≡ x.size) × (length x.filled ≤ x.size)) is
          (refl, length-take_le (to_size file.told) file.bytes)
