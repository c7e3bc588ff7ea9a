-- ===== src/Vulkan.antt =====
-- daemon/vulkan/vulkan_compute.c: the pool of buffers that the plugins and the worker hold by handle,
-- over what the Vulkan driver answers.
pub mod Search
pub mod Pool
pub mod Backend
pub mod Rounds
pub mod Bypass
pub mod Instance
pub mod Setup
pub mod Shader
pub mod Teardown
pub mod Commands
pub mod Recorded
mod Tests
use Prim.Native.Nat.{bit_and}
use linux_opensource_univers.Prelude.{
  leb, ◌==◌, if◌then◌else◌, update, ℕ, zero, suc, ◌+◌, ◌-◌, ◌^◌, Bool, true, false, not, ◌&&◌, ◌||◌,
  Option, none, some, List, [], ◌∷◌,
}

-- `struct dsp_vulkan_buffer`; the driver's objects are numbers.
pub record Buffer : Type 0 where
  pub buffer : ℕ
  pub memory : ℕ
  pub size : ℕ
  pub active : Bool

abbrev pub pool_size : ℕ
pool_size = 256

-- `struct dsp_vulkan_context`: the pool, the property flags of the device's memory types, and how
-- many buffers and memories of the driver exist.
pub record Context : Type 0 where
  pub user_buffers : ℕ → Buffer
  pub memory_types : List ℕ
  pub live_buffers : ℕ
  pub live_memories : ℕ

-- What the driver answers the calls of one allocation: the buffer that `vkCreateBuffer` gives, its
-- `memoryTypeBits`, and what `vkAllocateMemory` gives.
pub record Answers : Type 0 where
  pub created : Option ℕ
  pub type_bits : ℕ
  pub allocated : Option ℕ

-- VK_MEMORY_PROPERTY_DEVICE_LOCAL_BIT and VK_MEMORY_PROPERTY_HOST_VISIBLE_BIT
abbrev pub device_local : ℕ
device_local = 1

abbrev pub host_visible : ℕ
host_visible = 2

-- `find_memory_type` from the type `i` on; `none` is -1.
pub find_memory_type : List ℕ → ℕ → ℕ → ℕ → Option ℕ
find_memory_type [] i type_filter properties = none
find_memory_type (flags ∷ types) i type_filter properties =
    let rest = find_memory_type types (i + 1) type_filter properties in
    if not (bit_and type_filter (2 ^ i) == 0) && bit_and flags properties == properties
    then some i
    else rest

-- The loop that looks for a free slot, `n` slots from `i` on; 0 when there is none.
pub first_free : (ℕ → Buffer) → ℕ → ℕ → ℕ
first_free pool zero i = 0
first_free pool (suc n) i = elim ((pool i).active) [ false ↦ i | true ↦ first_free pool n (i + 1) ]

pub free_slot : Context → ℕ
free_slot ctx = first_free ctx.user_buffers 255 1

-- The slot's members as the calls fill them in
abbrev pub set_slot : ℕ → Buffer → Context → Context
set_slot h b ctx = record ctx { user_buffers = update ctx.user_buffers h b }

abbrev pub create : ℕ → ℕ → Context → Context
create h b ctx = record (set_slot h (record (ctx.user_buffers h) { buffer = b }) ctx) {
  live_buffers = ctx.live_buffers + 1;
}

abbrev pub bind : ℕ → ℕ → ℕ → Context → Context
bind h m size ctx =
    record (set_slot h (record (ctx.user_buffers h) { memory = m; size = size; active = true })
      ctx) { live_memories = ctx.live_memories + 1 }

-- `vkDestroyBuffer`
abbrev pub destroy : Context → Context
destroy ctx = record ctx { live_buffers = ctx.live_buffers - 1 }

-- `vkAllocateMemory`, by what it gives, and what follows it, in `allocate_buffer` and `import_shm`
pub fill : Option ℕ → ℕ → ℕ → Context → Context × ℕ
fill none size h ctx = (destroy ctx, 0)
fill (some m) size h ctx = (bind h m size ctx, h)

-- Device-local memory that the host sees, or else any that the host sees
pub choose_type : Answers → Context → Option ℕ
choose_type answers ctx =
    elim (find_memory_type ctx.memory_types 0 answers.type_bits (device_local + host_visible)) [
      | some i ↦ some i
      | none ↦ find_memory_type ctx.memory_types 0 answers.type_bits host_visible
    ]

-- By the memory type, and by the buffer that `vkCreateBuffer` gives
pub allocate_typed : Option ℕ → Option ℕ → ℕ → ℕ → Context → Context × ℕ
allocate_typed none allocated size h ctx = (ctx, 0)
allocate_typed (some i) allocated size h ctx = fill allocated size h ctx

pub allocate_created : Option ℕ → Answers → ℕ → ℕ → Context → Context × ℕ
allocate_created none answers size h ctx = (ctx, 0)
allocate_created (some b) answers size h ctx =
    allocate_typed (choose_type answers ctx) answers.allocated size h (create h b ctx)

pub allocate_at : Answers → ℕ → ℕ → Context → Context × ℕ
allocate_at answers size h ctx =
    if h == 0 then (ctx, 0) else allocate_created answers.created answers size h ctx

pub allocate_buffer : Answers → ℕ → Context → Context × ℕ
allocate_buffer answers size ctx = allocate_at answers size (free_slot ctx) ctx

-- `handle == 0 || handle >= 256 || !active`
pub refused : ℕ → Context → Bool
refused handle ctx = handle == 0 || leb pool_size handle || not (ctx.user_buffers handle).active

abbrev pub release : ℕ → Context → Context
release h ctx = record (set_slot h (record (ctx.user_buffers h) { active = false }) ctx) {
  live_buffers = ctx.live_buffers - 1;
  live_memories = ctx.live_memories - 1;
}

pub free_buffer : ℕ → Context → Context
free_buffer handle ctx = if refused handle ctx then ctx else release handle ctx

-- `mapped` is `vkMapMemory`'s answer; `some h` says that the data went into the buffer of `h`.
pub upload_buffer : Bool → ℕ → Context → Option ℕ
upload_buffer mapped handle ctx =
    if refused handle ctx then none else if not mapped then none else some handle

pub import_created : Option ℕ → Answers → ℕ → ℕ → Context → Context × ℕ
import_created none answers size h ctx = (ctx, 0)
import_created (some b) answers size h ctx = fill answers.allocated size h (create h b ctx)

pub import_at : Answers → ℕ → ℕ → Context → Context × ℕ
import_at answers size h ctx =
    if h == 0 then (ctx, 0) else import_created answers.created answers size h ctx

-- `fd` is never negative here: `none` stands for that.
pub import_shm : Answers → Option ℕ → ℕ → Context → Context × ℕ
import_shm answers none size ctx = (ctx, 0)
import_shm answers (some fd) size ctx = import_at answers size (free_slot ctx) ctx
