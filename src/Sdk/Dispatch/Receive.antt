-- ===== src/Sdk/Dispatch/Receive.antt =====
-- sdk/src/dsp_accel_sdk.cpp: what `read_output` gives the plugin.
use Prim.Native.Nat.{min}
use native.Mathlib.Nat.{mod-eq_of_lt}
use linux_opensource_univers.Prelude.{
  if_true, if_false, Bool-cases, Option-cases, Region, pos, ℤ, u32_mod, to_u32, ℕ, suc, ◌-◌, ◌≤◌,
  ◌<◌, ◌≡◌, refl, sym, ap, ap₂, ◌∙◌, ◌⊎◌, inl, inr, Bool, true, false, not, Option, none, some,
  List, [], ◌∷◌, arith,
}
use linux_opensource_univers.Floats.{Floats}
use linux_opensource_univers.Ring.{commit_read, peek_read}
use linux_opensource_univers.Ring.Window.{IsValid, contents}
use linux_opensource_univers.Ring.ZeroCopy.{peek_some, peek_none}
use linux_opensource_univers.Shm.{AudioFrame, SharedMemory, sample_region, queue_depth}
use linux_opensource_univers.Sdk.{Ctx, Session}
use linux_opensource_univers.Sdk.Copy.{Fits, Returned, copy_out, copy_out_lem, copy_out_overrun}
use linux_opensource_univers.Sdk.Dispatch.{
  read_output, read_output_ptr, read_output_at, receive, measure,
}

-- The shared memory without the oldest frame of `out_queue`.
abbrev pub taken : {F : Type 0} → SharedMemory F → SharedMemory F
taken shm = record shm { out_queue = commit_read queue_depth shm.out_queue }

module _ {fl : Floats} where
  open fl use {Float}

  module _ (c : Ctx fl) (s : Session fl) (bufs : List (Region Float)) (channels now : ℕ) where
    pub receive-none :
        peek_read queue_depth s.shm.out_queue ≡ none
        → receive c s bufs channels now ≡ some (s, bufs, false)
    unfolding receive
    receive-none e = rw (e, receive) refl

    pub receive-some :
        (i : ℕ) (outs : List (Region Float))
        → peek_read queue_depth s.shm.out_queue ≡ some i
        → (let slot = s.shm.out_queue.slot i in
            copy_out (min slot.channel_count channels) 0 slot.frame_count (sample_region slot) bufs)
          ≡ some outs
        → receive c s bufs channels now
          ≡ some (
            record {
              ctx = some (measure now (s.shm.out_queue.slot i).timestamp_ns c);
              shm = taken s.shm;
            },
            outs,
            true,
          )
    unfolding receive
    receive-some i outs e f = rw (e, receive) (rw f refl)

    pub receive-fault :
        (i : ℕ)
        → peek_read queue_depth s.shm.out_queue ≡ some i
        → (let slot = s.shm.out_queue.slot i in
            copy_out (min slot.channel_count channels) 0 slot.frame_count (sample_region slot) bufs)
          ≡ none
        → receive c s bufs channels now ≡ none
    unfolding receive
    receive-fault i e f = rw (e, receive) (rw f refl)

    receive-keeps :
        {s' : Session fl} {outs : List (Region Float)}
        → receive c s bufs channels now ≡ some (s', outs, false)
        → outs ≡ bufs
    receive-keeps h = elim (Option-cases (peek_read queue_depth s.shm.out_queue)) [
      | inl e ↦ cc (sym (receive-none e) ∙ h)
      | inr (i, e) ↦
          let slot = s.shm.out_queue.slot i in
          elim (Option-cases (
            copy_out (min slot.channel_count channels) 0 slot.frame_count (sample_region slot)
              bufs)) [
                | inl f ↦ cc (sym (receive-fault i e f) ∙ h)
                | inr (outs', f) ↦ cc (sym (receive-some i outs' e f) ∙ h)
              ]
    ]

  module _ (bufs : List (Region Float)) (frames : ℤ) (channels now : ℕ) (s : Session fl)
      (c : Ctx fl) (here : s.ctx ≡ some c) (mapped : c.mapped ≡ true) where
    read_output_ready :
        channels < u32_mod
        → read_output s bufs frames (pos channels) true now ≡ receive c s bufs channels now
    unfolding read_output read_output_at
    read_output_ready small =
        ap (λ p. read_output_ptr p s bufs (pos channels) true now) here
        ∙ if_false _ _ (ap not mapped)
        ∙ ap (λ k. receive c s bufs k now) (mod-eq_of_lt small)

    -- The worker's event has come, and `f` is the oldest frame of `out_queue`.
    module _ (f : AudioFrame Float) (rest : List (AudioFrame Float))
        (valid : IsValid queue_depth s.shm.out_queue)
        (oldest : contents queue_depth s.shm.out_queue ≡ f ∷ rest)
        (small : channels < u32_mod) where
      pub record Received : Type 0 where
        pub outs : List (Region Float)
        pub runs :
            read_output s bufs frames (pos channels) true now
            ≡ some (
              record { ctx = some (measure now f.timestamp_ns c); shm = taken s.shm },
              outs,
              true,
            )
        pub returned : Returned f.frame_count 0 (min f.channel_count channels) bufs outs f.samples
        pub left : contents queue_depth (taken s.shm).out_queue ≡ rest
        pub valid_after : IsValid queue_depth (taken s.shm).out_queue

      -- From a frame of at most 256 samples on 8 channels, into buffers with room for it, the plugin
      -- gets the oldest frame: its samples in as many channels as both sides have, the rest of each
      -- buffer and the other buffers as they were. The frame leaves the queue.
      pub read_output_receives :
          f.frame_count ≤ 256
          → f.channel_count ≤ 8
          → Fits f.frame_count (min f.channel_count channels) bufs
          → Received
      read_output_receives short narrow fits =
          let q = s.shm.out_queue in
          let peeked = peek_some valid f rest oldest in
          let n : ℕ = min f.channel_count channels in
          let copied =
            copy_out_lem n 0 f.frame_count (sample_region f) bufs short (omega arith) fits in
          let runs' = receive-some c s bufs channels now q.head copied.outs peeked.slot_at (
            ap
              (λ (g : AudioFrame Float).
                copy_out (min g.channel_count channels) 0 g.frame_count (sample_region g) bufs)
              peeked.item
            ∙ copied.runs) in
          record {
            outs = copied.outs;
            runs =
                read_output_ready small
                ∙ runs'
                ∙ ap
                    (λ (g : AudioFrame Float). some (
                      record { ctx = some (measure now g.timestamp_ns c); shm = taken s.shm },
                      copied.outs,
                      true,
                    ))
                    peeked.item;
            returned = copied.returned;
            left = peeked.removed;
            valid_after = peeked.still;
          }

      -- The block's own length is what is copied, not the plugin's `frames`: a buffer shorter than
      -- the frame that comes back is overrun, whatever `frames` says.
      pub read_output_overruns :
          (b : Region Float) (more : List (Region Float))
          → bufs ≡ b ∷ more
          → 0 < min f.channel_count channels
          → b.size < f.frame_count
          → read_output s bufs frames (pos channels) true now ≡ none
      read_output_overruns b more is pos_channels short =
          let q = s.shm.out_queue in
          let peeked = peek_some valid f rest oldest in
          let n : ℕ = min f.channel_count channels in
          let at_least : n ≡ suc (n - 1) = omega arith in
          let fault : copy_out n 0 f.frame_count (sample_region f) bufs ≡ none =
            ap₂ (λ m l. copy_out m 0 f.frame_count (sample_region f) l) at_least is
            ∙ copy_out_overrun (n - 1) 0 f.frame_count (sample_region f) b more short in
          read_output_ready small
          ∙ receive-fault c s bufs channels now q.head peeked.slot_at (
              ap
                (λ (g : AudioFrame Float).
                  copy_out (min g.channel_count channels) 0 g.frame_count (sample_region g) bufs)
                peeked.item
              ∙ fault)

  -- Before the connection, without the worker's event, or with nothing in `out_queue`, `read_output`
  -- says false, and session and buffers are as before.
  pub read_output_idle :
      (bufs : List (Region Float)) (frames channels : ℤ) (ready : Bool) (now : ℕ) (s : Session fl)
      (c : Ctx fl)
      → s.ctx ≡ some c
      → IsValid queue_depth s.shm.out_queue
      → (c.mapped ≡ false) ⊎ ((ready ≡ false) ⊎ (contents queue_depth s.shm.out_queue ≡ []))
      → read_output s bufs frames channels ready now ≡ some (s, bufs, false)
  unfolding read_output read_output_at
  read_output_idle bufs frames channels ready now s c here valid why =
      ap (λ p. read_output_ptr p s bufs channels ready now) here ∙ elim (Bool-cases c.mapped) [
        | inr off ↦ if_true _ _ (ap not off)
        | inl on ↦ if_false _ _ (ap not on) ∙ elim (Bool-cases ready) [
          | inr late ↦ if_true _ _ (ap not late)
          | inl yes_ready ↦
              if_false _ _ (ap not yes_ready)
              ∙ receive-none c s bufs (to_u32 channels) now (
                  peek_none valid
                    (elim why [ inl off ↦ cc | inr (inl late) ↦ cc | inr (inr nothing) ↦ nothing ]))
        ]
      ]

  read_output_ptr_keeps :
      (o : Option (Ctx fl)) (s : Session fl) (bufs outs : List (Region Float)) (channels : ℤ)
      (ready : Bool) (now : ℕ) {s' : Session fl}
      → read_output_ptr o s bufs channels ready now ≡ some (s', outs, false)
      → outs ≡ bufs
  unfolding read_output_ptr read_output_at
  read_output_ptr_keeps none s bufs outs channels ready now h = cc
  read_output_ptr_keeps (some c) s bufs outs channels ready now h = elim (Bool-cases c.mapped) [
    | inr off ↦ cc (sym (if_true _ _ (ap not off)) ∙ h)
    | inl on ↦ elim (Bool-cases ready) [
      | inr late ↦ cc (sym (if_false _ _ (ap not on) ∙ if_true _ _ (ap not late)) ∙ h)
      | inl there ↦
          receive-keeps c s bufs (to_u32 channels) now
            (sym (if_false _ _ (ap not on) ∙ if_false _ _ (ap not there)) ∙ h)
    ]
  ]

  -- Where `read_output` says false, the buffers are as they were.
  pub read_output_keeps :
      (s : Session fl) (bufs outs : List (Region Float)) (frames channels : ℤ) (ready : Bool)
      (now : ℕ) {s' : Session fl}
      → read_output s bufs frames channels ready now ≡ some (s', outs, false)
      → outs ≡ bufs
  unfolding read_output
  read_output_keeps s bufs outs frames channels ready now h =
      read_output_ptr_keeps s.ctx s bufs outs channels ready now h
