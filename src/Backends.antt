-- ===== src/Backends.antt =====
-- The nodes of the worker that daemon/worker_main.cpp and CMakeLists.txt build it with: `VulkanBackend` over
-- the stand-in daemon/vulkan/vulkan_compute.cpp, and `NpuArrayBackend` of daemon/npu_array_backend.hpp.
pub mod Mock
pub mod Vulkan
pub mod Npu
pub mod Parallel
pub mod Gain
pub mod Played
pub mod Transparent
mod Tests
pub mod Devices
