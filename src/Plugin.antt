-- ===== src/Plugin.antt =====
-- clap/plugin_example/src/plugin.cpp: the CLAP plugin, whose blocks go to the hardware by the SDK or through
-- a loop on the CPU. `none` is undefined behaviour. The host's input and output buffers are apart.
mod Tests
pub mod Halved
pub mod Fallback
pub mod Bridges
pub mod Lifecycle
pub mod Hardware
use linux_opensource_univers.Prelude.{
  ltb, if◌then◌else◌, length, take, drop, update, Region, pos, to_int, ◌>>=◌, ℕ, zero, suc, ◌+◌,
  Bool, true, false, Option, none, some, List, [], ◌∷◌, ◌++◌,
}
use linux_opensource_univers.Floats.{Floats}
use linux_opensource_univers.Shm.{SharedMemory}
use linux_opensource_univers.Sdk.{Ctx, Session, Answer}
use linux_opensource_univers.Sdk.Dispatch.{dispatch, read_output}

-- `clap_process_t`: each port is the list of its channels' buffers, `data32`.
pub record Process (F : Type 0) : Type 0 where
  pub frames_count : ℕ
  pub inputs : List (List (Region F))
  pub outputs : List (List (Region F))

-- What the plugin meets during a call: the clock at the dispatch, the answer to the write of the
-- event, what the worker does to the shared memory until the output is read, whether its event
-- comes in time, and the clock then
pub record World (F : Type 0) : Type 0 where
  pub now : ℕ
  pub answer : Answer
  pub meanwhile : SharedMemory F → SharedMemory F
  pub ready : Bool
  pub later : ℕ

module _ {ℓ} {A : Type ℓ} where
  abbrev pub head_of : List A → Option A
  head_of [] = none
  head_of (x ∷ xs) = some x

  abbrev pub tail_of : List A → List A
  tail_of [] = []
  tail_of (x ∷ xs) = xs

  -- The channels of the first port
  abbrev pub first_port : List (List A) → List A
  first_port [] = []
  first_port (port ∷ ports) = port

module _ (fl : Floats) where
  open fl use {Float}

  abbrev pub Outputs : Type 0
  Outputs = Session fl × List (List (Region Float)) × Bool

  -- `in_data ? in_data[f] * 0.5f : 0.0f`
  unfoldable pub sample : Option (Region Float) → ℕ → Option Float
  sample none f = some (fl.literal 0 1)
  sample (some r) f = if ltb f r.size then some (fl.mul (r.cell f) (fl.literal 1 2)) else none

  -- `out_data[f] = v`
  unfoldable pub put : ℕ → Float → Region Float → Option (Region Float)
  put f v out = if ltb f out.size then some (record out { cell = update out.cell f v }) else none

  -- The loop over the frames, `n` of them from `f` on
  unfoldable pub fill : ℕ → ℕ → Option (Region Float) → Region Float → Option (Region Float)
  fill zero f from out = some out
  fill (suc n) f from out = do v ← sample from f; out' ← put f v out; fill n (f + 1) from out'

  -- The loop over the channels of an output port
  unfoldable pub fill_channels :
      ℕ → List (Region Float) → List (Region Float) → Option (List (Region Float))
  fill_channels n ins [] = some []
  fill_channels n ins (out ∷ outs) = do
    out' ← fill n 0 (head_of ins) out
    rest ← fill_channels n (tail_of ins) outs
    some (out' ∷ rest)

  -- The loop over the output ports, of which those without an input are left as they are
  unfoldable pub fall_back :
      ℕ
      → List (List (Region Float))
      → List (List (Region Float))
      → Option (List (List (Region Float)))
  fall_back n ins [] = some []
  fall_back n [] (out ∷ outs) = some (out ∷ outs)
  fall_back n (i ∷ ins) (out ∷ outs) = do
    out' ← fill_channels n i out
    rest ← fall_back n ins outs
    some (out' ∷ rest)

  -- The reading of the output, into at most eight channels of the first port
  unfoldable pub read_back :
      ℕ → List (List (Region Float)) → World Float → Session fl → Option Outputs
  read_back frames [] world s = some (s, [], false)
  read_back frames (port ∷ ports) world s = do
    r ←
        read_output s (take 8 port) (to_int frames) (pos (length (take 8 port))) world.ready
          world.later
    some (r.0, (r.1 ++ drop 8 port) ∷ ports, r.2)

  -- After the dispatch
  unfoldable pub sent : Bool → Process Float → World Float → Session fl → Option Outputs
  sent false p world s = some (s, p.outputs, false)
  sent true p world s =
      read_back p.frames_count p.outputs world (record s { shm = world.meanwhile s.shm })

  -- `if (p->sdk_ctx) ...`: the outputs, and `processed_by_hw`
  unfoldable pub hardware :
      Option (Ctx fl) → Process Float → World Float → Session fl → Option Outputs
  hardware none p world s = some (s, p.outputs, false)
  hardware (some c) p world s = do
    let ins = take 8 (first_port p.inputs)
    r ← dispatch s ins (to_int p.frames_count) (pos (length ins)) world.now world.answer
    sent r.1 p world r.0

  unfoldable pub settle :
      Bool
      → Process Float
      → List (List (Region Float))
      → Session fl
      → Option (Session fl × List (List (Region Float)))
  settle true p outs s = some (s, outs)
  settle false p outs s = do outs' ← fall_back p.frames_count p.inputs outs; some (s, outs')

  -- `plugin_process`
  unfoldable pub process :
      Process Float → World Float → Session fl → Option (Session fl × List (List (Region Float)))
  process p world s = do r ← hardware s.ctx p world s; settle r.2 p r.1 r.0
