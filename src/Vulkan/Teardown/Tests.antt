-- ===== src/Vulkan/Teardown/Tests.antt =====
-- daemon/vulkan/vulkan_compute.c: the set-up of Vulkan on concrete answers of the driver.
use linux_opensource_univers.Prelude.{pos, negsuc, ◌≡◌, refl, true, false, none, some, [], ◌∷◌}
use linux_opensource_univers.Vulkan.Setup.{
  Driver, made, gone, pick, find_family, logical, destroy_device, destroy_context, load, prepare,
  select, boot, init_context,
}
use linux_opensource_univers.Vulkan.Teardown.{Ended, setup_leaves_nothing}

-- Two devices, of which the first family of queues does not compute; the extensions are missing.
abbrev plain : Driver
plain = record {
  allocates = true;
  made_instance = some 1;
  devices = 20 ∷ 21 ∷ [];
  families = false ∷ true ∷ [];
  realtime_device = none;
  plain_device = some 2;
  made_command_pool = some 3;
  reads_shader = true;
  made_shader = some 4;
  made_layout = some 5;
  made_pipeline = none;
  made_set_layout = some 6;
  made_descriptor_pool = some 7;
}

plain_live : (init_context plain (pos 1) 5).1 ≡ 12
unfolding init_context boot select prepare load made pick logical
plain_live = refl

out_of_bounds : init_context plain (pos 2) 5 ≡ (none, 5)
unfolding init_context boot select pick destroy_context destroy_device gone
out_of_bounds = refl

negative : init_context plain (negsuc 0) 5 ≡ (none, 5)
unfolding init_context boot select pick destroy_context destroy_device gone
negative = refl

second_family : find_family plain.families 0 ≡ 1
unfolding find_family
second_family = refl

setup_leaves_nothing_example : Ended plain (pos 1) 5 (init_context plain (pos 1) 5)
setup_leaves_nothing_example = setup_leaves_nothing plain (pos 1) 5
