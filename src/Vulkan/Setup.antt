-- ===== src/Vulkan/Setup.antt =====
-- daemon/vulkan/vulkan_compute.c: `dsp_vulkan_init` and `dsp_vulkan_destroy`, over what the driver and
-- the system answer. Of the driver's objects that exist, the model keeps the number.
use linux_opensource_univers.Prelude.{
  if◌then◌else◌, get_elem?, pos, negsuc, ℤ, ℕ, ◌+◌, ◌-◌, Bool, true, false, Option, none, some,
  List, [], ◌∷◌,
}

-- The answers: `calloc`, `vkCreateInstance`, the devices, whether each family of queues computes,
-- `vkCreateDevice` with the extensions and without, and the calls that create the rest. A call that
-- fails leaves `VK_NULL_HANDLE`, here `none`.
pub record Driver : Type 0 where
  pub allocates : Bool
  pub made_instance : Option ℕ
  pub devices : List ℕ
  pub families : List Bool
  pub realtime_device : Option ℕ
  pub plain_device : Option ℕ
  pub made_command_pool : Option ℕ
  pub reads_shader : Bool
  pub made_shader : Option ℕ
  pub made_layout : Option ℕ
  pub made_pipeline : Option ℕ
  pub made_set_layout : Option ℕ
  pub made_descriptor_pool : Option ℕ

-- The members of `struct dsp_vulkan_context` for what `init` chooses and creates; its queue and its
-- descriptor set, which belong to the device and to the descriptor pool, are left out.
pub record Handles : Type 0 where
  pub vk_instance : Option ℕ
  pub physical_device : Option ℕ
  pub device : Option ℕ
  pub queue_family_index : ℕ
  pub descriptor_set_layout : Option ℕ
  pub descriptor_pool : Option ℕ
  pub command_pool : Option ℕ
  pub shader_module : Option ℕ
  pub pipeline_layout : Option ℕ
  pub compute_pipeline : Option ℕ

abbrev pub zeroed : Handles
zeroed = record {
  vk_instance = none;
  physical_device = none;
  device = none;
  queue_family_index = 0;
  descriptor_set_layout = none;
  descriptor_pool = none;
  command_pool = none;
  shader_module = none;
  pipeline_layout = none;
  compute_pipeline = none;
}

-- A call that creates an object, by what it gives, and one that destroys an object that exists
unfoldable pub made : Option ℕ → ℕ → ℕ
made none live = live
made (some x) live = live + 1

unfoldable pub gone : Option ℕ → ℕ → ℕ
gone none live = live
gone (some x) live = live - 1

-- The device that the index designates, if it is in bounds
unfoldable pub pick : List ℕ → ℤ → Option ℕ
pick devices (pos i) = get_elem? devices i
pick devices (negsuc i) = none

-- The first family that computes, from `i` on, and 0xFFFFFFFF without one
unfoldable pub find_family : List Bool → ℕ → ℕ
find_family [] i = 4294967295
find_family (b ∷ bs) i = elim b [ true ↦ i | false ↦ find_family bs (i + 1) ]

-- The device with the extensions, or else the one without
unfoldable pub logical : Option ℕ → Option ℕ → Option ℕ
logical none plain = plain
logical (some v) plain = some v

-- What belongs to the device, and the device
unfoldable pub destroy_device : Option ℕ → Handles → ℕ → ℕ
destroy_device none ctx live = live
destroy_device (some v) ctx live = gone (some v) (
    gone ctx.command_pool (
      gone ctx.descriptor_set_layout (
        gone ctx.descriptor_pool
          (gone ctx.compute_pipeline (gone ctx.shader_module (gone ctx.pipeline_layout live))))))

unfoldable pub destroy_context : Handles → ℕ → ℕ
destroy_context ctx live = gone ctx.vk_instance (destroy_device ctx.device ctx live)

-- The shader and what needs it, by whether its file can be read
unfoldable pub load : Bool → Driver → Handles → ℕ → Option Handles × ℕ
load false k ctx live = (some ctx, live)
load true k ctx live = (
  some (record ctx {
    shader_module = k.made_shader;
    pipeline_layout = k.made_layout;
    compute_pipeline = k.made_pipeline;
    descriptor_set_layout = k.made_set_layout;
    descriptor_pool = k.made_descriptor_pool;
  }),
  made k.made_descriptor_pool (
      made k.made_set_layout (made k.made_pipeline (made k.made_layout (made k.made_shader live)))),
)

-- From the logical device on
unfoldable pub prepare : Option ℕ → Driver → Handles → ℕ → Option Handles × ℕ
prepare none k ctx live = (none, destroy_context ctx live)
prepare (some v) k ctx live =
    load k.reads_shader k (record ctx { device = some v; command_pool = k.made_command_pool })
      (made k.made_command_pool (live + 1))

-- From the choice of the physical device on
unfoldable pub select : Option ℕ → Driver → Handles → ℕ → Option Handles × ℕ
select none k ctx live = (none, destroy_context ctx live)
select (some p) k ctx live =
    prepare (logical k.realtime_device k.plain_device) k
      (record ctx { physical_device = some p; queue_family_index = find_family k.families 0 }) live

-- From the instance on
unfoldable pub boot : Option ℕ → Driver → ℤ → ℕ → Option Handles × ℕ
boot none k index live = (none, live)
boot (some i) k index live =
    select (pick k.devices index) k (record zeroed { vk_instance = some i }) (live + 1)

unfoldable pub init_context : Driver → ℤ → ℕ → Option Handles × ℕ
init_context k index live = if k.allocates then boot k.made_instance k index live else (none, live)
