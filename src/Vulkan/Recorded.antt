-- ===== src/Vulkan/Recorded.antt =====
-- daemon/vulkan/vulkan_compute.c: when a dispatch comes back, and how much of the block it covers.
use mathlib.Core.Path.{subst}
use native.Mathlib.Nat.{mod-eq_of_lt}
use linux_opensource_univers.Prelude.{
  leb, if_false, leb→le, if_both, of_not→false, of_not→true, u32_mod, ◌>>=◌, ℕ, ◌+◌, ◌*◌, ◌≤◌, ◌<◌,
  ◌≡◌, refl, sym, ap, ap₂, Bool, true, false, not, ◌&&◌, Option, none, some, arith,
}
use linux_opensource_univers.Vulkan.{Context, pool_size}
use linux_opensource_univers.Vulkan.Commands.{
  Queue, Commands, Descriptors, descriptors_of, commands_of, submit, dispatch, dispatch_at,
  dispatch_zero_copy,
}

area : (n m : ℕ) → n ≤ 256 → m ≤ 8 → n * m ≤ 2048
area n m p q = grind arith

-- The descriptors name the block to the byte, and the whole state.
pub record Names (ctx : Context) (handle offset frames channels state : ℕ) (d : Descriptors)
    : Type 0 where
  pub at_handle : d.audio_buffer ≡ (ctx.user_buffers handle).buffer
  pub at_offset : d.audio_offset ≡ offset
  pub bytes : d.audio_range ≡ frames * channels * 4
  pub state_whole :
      (d.state_buffer ≡ (ctx.user_buffers state).buffer)
      × (d.state_range ≡ (ctx.user_buffers state).size)

-- The groups cover the block with less than one to spare.
pub record Covers (frames channels : ℕ) {F : Type 0} (g : Commands F) : Type 0 where
  pub enough : frames * channels ≤ g.groups * 64
  pub tight : g.groups * 64 < frames * channels + 64
  pub few : g.groups ≤ 32

-- What a dispatch comes to
pub data Ended {F : Type 0} (ctx : Context) (q : Queue) (handle offset frames channels state : ℕ)
    : Option (Option Descriptors × Option (Commands F) × Bool) → Type 0 where
  inactive :
      (ctx.user_buffers handle).active ≡ false
      → Ended ctx q handle offset frames channels state (some (none, none, false))
  refused :
      {d : Descriptors}
      → (ctx.user_buffers handle).active ≡ true
      → q.submits ≡ false
      → Names ctx handle offset frames channels state d
      → Ended ctx q handle offset frames channels state (some (some d, none, false))
  run :
      {d : Descriptors} {g : Commands F}
      → (ctx.user_buffers handle).active ≡ true
      → q.submits ≡ true
      → q.done_in_time ≡ true
      → Names ctx handle offset frames channels state d
      → Covers frames channels g
      → Ended ctx q handle offset frames channels state (some (some d, some g, true))
  late :
      (ctx.user_buffers handle).active ≡ true
      → q.submits ≡ true
      → q.done_in_time ≡ false
      → Ended ctx q handle offset frames channels state none

module _ {F : Type 0} (gain threshold p1 p2 : F) (algo : ℕ) where
  names :
      (ctx : Context) (handle offset frames channels state : ℕ)
      → frames ≤ 256
      → channels ≤ 8
      → Names ctx handle offset frames channels state
          (descriptors_of ctx handle offset frames channels state)
  unfolding descriptors_of
  names ctx handle offset frames channels state p q =
      let total : ℕ = frames * channels in
      let bound : total ≤ 2048 = area frames channels p q in
      record {
        at_handle = refl;
        at_offset = refl;
        bytes =
            ap (λ (n : ℕ). n * 4) (let below : total < u32_mod = omega arith in mod-eq_of_lt below);
        state_whole = (refl, refl);
      }

  covers :
      (frames channels : ℕ)
      → frames ≤ 256
      → channels ≤ 8
      → Covers frames channels (commands_of frames channels gain threshold p1 p2 algo)
  unfolding commands_of
  covers frames channels p q =
      let total : ℕ = frames * channels in
      let bound : total ≤ 2048 = area frames channels p q in
      record { enough = omega arith; tight = omega arith; few = omega arith }

  module _ (ctx : Context) (q : Queue) (handle offset frames channels state : ℕ) (d : Descriptors)
      (g : Commands F) where
    abbrev told :
        Option (Option (Commands F) × Bool)
        → Option (Option Descriptors × Option (Commands F) × Bool)
    told o = o >>= λ r. some (some d, r.0, r.1)

    submit_Ended :
        (ctx.user_buffers handle).active ≡ true
        → Names ctx handle offset frames channels state d
        → Covers frames channels g
        → Ended ctx q handle offset frames channels state (told (submit q g))
    unfolding submit
    submit_Ended a n c =
        let P : Option (Option (Commands F) × Bool) → Type 0 =
          λ o. Ended ctx q handle offset frames channels state (told o) in
        if_both P (not q.submits) (λ y. Ended.refused a (of_not→false q.submits y) n)
          (λ s.
            if_both P (not q.done_in_time)
              (λ y. Ended.late a (of_not→true q.submits s) (of_not→false q.done_in_time y))
              (λ m. Ended.run a (of_not→true q.submits s) (of_not→true q.done_in_time m) n c))

    at_Ended :
        (ctx.user_buffers handle).active ≡ true
        → Names ctx handle offset frames channels state d
        → Covers frames channels g
        → q.gives_commands ≡ true
        → q.gives_fence ≡ true
        → Ended ctx q handle offset frames channels state (dispatch_at ctx q d g)
    unfolding dispatch_at dispatch
    at_Ended a n c gc gf =
        let same : dispatch (some ctx) q g ≡ submit q g =
          if_false _ _ (ap₂ (λ (a b : Bool). not (a && b)) gc gf) in
        subst
          (λ (o : Option (Option (Commands F) × Bool)).
            Ended ctx q handle offset frames channels state (told o))
          (sym same) (submit_Ended a n c)

  -- A dispatch from the shared memory, of a frame of the SDK's sizes, with handles in the pool, and where
  -- the driver gives a command buffer and a fence: of a slot that is free it does nothing and fails. Of
  -- one that is taken it writes descriptors that name the buffers of the two handles and the bytes of
  -- the block, no more and no fewer. When the queue refuses the commands, nothing runs and it fails.
  -- When the GPU is done within the wait it succeeds, and the groups of threads that have run are as
  -- many as the samples need, at most 32. When the GPU is later than that, the fence and the
  -- commands are destroyed under it, and nothing is known of the outcome.
  pub zero_copy_outcome :
      (ctx : Context) (q : Queue) (handle offset frames channels state : ℕ)
      → handle < pool_size
      → state < pool_size
      → frames ≤ 256
      → channels ≤ 8
      → q.gives_commands ≡ true
      → q.gives_fence ≡ true
      → Ended ctx q handle offset frames channels state (
          dispatch_zero_copy
            (some ctx)
            q
            handle
            offset
            frames
            channels
            state
            (commands_of frames channels gain threshold p1 p2 algo))
  unfolding dispatch_zero_copy
  zero_copy_outcome ctx q handle offset frames channels state hh hs p r gc gf =
      let d = descriptors_of ctx handle offset frames channels state in
      let g = commands_of frames channels gain threshold p1 p2 algo in
      let P : Option (Option Descriptors × Option (Commands F) × Bool) → Type 0 =
        Ended ctx q handle offset frames channels state in
      if_both P (leb pool_size handle) (λ far. absurd (omega (arith, leb→le pool_size handle far)))
        (λ near.
          if_both P (not (ctx.user_buffers handle).active) (λ y. Ended.inactive (of_not→false _ y))
            (λ n.
              if_both P (leb pool_size state)
                (λ far. absurd (omega (arith, leb→le pool_size state far)))
                (λ ok.
                  at_Ended ctx q handle offset frames channels state d g
                    (of_not→true (ctx.user_buffers handle).active n)
                    (names ctx handle offset frames channels state p r) (covers frames channels p r)
                    gc gf)))
