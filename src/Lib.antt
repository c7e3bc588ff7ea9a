-- ===== src/Lib.antt =====
-- Linux Universal DSP Acceleration: plugins hand blocks of audio to worker processes that run them
-- on a GPU, an NPU or another machine.
--
-- The parts. A supervisor in PipeWire (daemon/pipewire/module-dsp-accel.cpp) starts the workers
-- and gives each plugin the descriptors of one. A plugin, such as the one for CLAP
-- (clap/plugin_example/src/plugin.cpp), calls the SDK (sdk/src/dsp_accel_sdk.cpp), which writes a
-- block into `in_queue` of a shared memory (daemon/ipc/include/ipc_shm.hpp) and signals the worker
-- by an event. The worker (daemon/worker.cpp) takes the block, sends it through its graph of nodes
-- (daemon/node_graph.hpp) and puts the result into `out_queue`, from where `read_output` of the SDK
-- fetches it. A control bus and a memory bus in the same shared memory carry parameters and requests
-- for buffers. All of them are rings with one producer and one consumer. A node of the graph is a
-- Vulkan device, whose buffers daemon/vulkan/vulkan_compute.c keeps in a pool, an NPU, or a remote
-- machine: daemon/network_node.hpp on the side of the host, and daemon/network_server_node.hpp on
-- the other. The worker that CMakeLists.txt builds is daemon/worker_main.cpp, with the stand-in
-- daemon/vulkan/vulkan_compute.cpp in place of the driver.
--
-- The files.
--   Ring      `ShmSPSCRingBuffer` of ipc_shm.hpp, with the queue that it promises to be (Fifo), the
--             calls one at a time (Refine, ZeroCopy), two threads whose loads and stores interleave
--             (Spsc, with what they keep and can always do), and the ring of
--             Linux_DSP_accelleration.hpp (Mask).
--   Shm       the records of ipc_shm.hpp. An array is a function of the index; `sample_region` gives
--             it its size where a copy could go past it.
--   Sdk       `dsp_accel_sdk_dispatch` and `dsp_accel_sdk_read_output` (Dispatch), the loops that copy
--             channels (Copy), `connect` and `disconnect` (Connect), and the other calls (Requests). A
--             context pointer is an option. The clock, the poll, and the answers of the kernel and of
--             the daemon are arguments, and so is what others do to the shared memory while a call
--             sleeps.
--   CSdk      sdk/src/dsp_accel_sdk.c, the variant of the SDK in C: the audio path (Agree, Overrun)
--             and its descriptors (Connect).
--   Plugin    plugin.cpp: `plugin_process`, by the hardware (Hardware) or on the CPU (Fallback), and
--             an instance under a host (Lifecycle). Bridges has clap/wrappers/lv2/lv2_bridge.h and
--             clap/wrappers/vst3/vst3_bridge.h.
--   Network   `RemoteDspNode`, its jitter buffer (Drain, Order, Arrive) and its numbers (Stall),
--             `NetworkServerNode` (Server), and the two together (Remote).
--   Vulkan    vulkan_compute.c: its pool (Search, Pool), its set-up (Setup, Shader, Teardown) and the
--             commands of a dispatch (Commands, Recorded); and `VulkanBackend` of worker.cpp (Backend,
--             Instance, Rounds, Bypass). What the driver answers is an argument.
--   Worker    `DspNodeGraph` (Graph) and a round of the loop in `main` of worker.cpp (Loop), over the
--             interface `IDspNode` (`Nodes`): a node is a number, and a store holds the nodes' state.
--             The start of `main` is in Start.
--   Backends  the nodes of the worker that is built: `VulkanBackend` of worker_main.cpp (Vulkan, Gain,
--             Played) over vulkan_compute.cpp (Mock), daemon/npu_array_backend.hpp (Npu), and
--             daemon/parallel_processor.hpp (Parallel). Devices makes them an instance of `Nodes`.
--   System    the SDK and the worker together, a block going to the one and coming back from it, with
--             any nodes (Roundtrip, and Traffic, Kept and InOrder for any number of blocks) and with
--             the Vulkan node of Backends (Single, Heard, Built); and a plugin that connects to the
--             supervisor (Joining).
--   Supervisor
--             daemon/pipewire/module-dsp-accel.cpp: starting workers (Boot, with the worker's
--             side), assigning plugins to them (Routing, Target), loading the module (Module,
--             Loading), and the state that it writes for monitors (Monitor), which Json reads.
--   Daemon    `main` of daemon/main.cpp, over what the kernel gives (Service, Handshake).
--   Floats    the operations on floating point that the code uses, as a parameter with no laws.
--   Prelude   what the others share.
--
-- Undefined behaviour. A copy past the end of an array is `none`, and so is what follows it. The
-- interface `Nodes` has no such answer: where the Vulkan node of Backends runs past a frame, as it can
-- with a frame of more than 2048 samples, Devices marks the node as faulted, and it never succeeds
-- again. `workers` has a block for every number, where the array has eight and the code does not
-- compare; the supervisor makes the numbers 0 to 2.
--
-- Bounds and fuel. `uint32_t` and `size_t` wrap at 2^32 and 2^64 where the code adds to them. The
-- loop that drains the jitter buffer has fuel for 33 rounds, one more than there are slots, of
-- which each round empties one. The loops that pop a bus have as much fuel as the bus has slots,
-- of which one is always free. The other loops are structural.
--
-- Not modelled: the weak memory order of the machine, as each store is released and each load
-- acquired where the threads meet; the system calls, the calls of Vulkan and of PipeWire, which are
-- arguments; the shader; the loop of worker_main.cpp, which is that of worker.cpp again.
pub mod Prelude
pub mod Floats
pub mod Ring
pub mod Shm
pub mod Sdk
pub mod Network
pub mod Vulkan
pub mod Worker
pub mod Supervisor
pub mod Backends
pub mod System
pub mod Plugin
pub mod CSdk
pub mod Daemon
