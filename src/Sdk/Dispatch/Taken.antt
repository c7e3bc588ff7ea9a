-- ===== src/Sdk/Dispatch/Taken.antt =====
-- sdk/src/dsp_accel_sdk.cpp: what a call of `read_output` that returns has done to the queues, however it
-- went.
use Prim.Native.Nat.{min}
use mathlib.Core.Path.{subst}
use linux_opensource_univers.Prelude.{
  if_true, if_false, Bool-cases, Option-cases, Region, ℤ, to_u32, ℕ, ◌≡◌, refl, sym, ap, ◌∙◌, inl,
  inr, Bool, true, false, not, Option, none, some, List, [], ◌∷◌,
}
use linux_opensource_univers.Floats.{Floats}
use linux_opensource_univers.Ring.{peek_read}
use linux_opensource_univers.Ring.Window.{IsValid, contents}
use linux_opensource_univers.Ring.ZeroCopy.{peek_some, peek_none}
use linux_opensource_univers.Shm.{AudioFrame, SharedMemory, sample_region, queue_depth}
use linux_opensource_univers.Sdk.{Ctx, Session}
use linux_opensource_univers.Sdk.Copy.{copy_out}
use linux_opensource_univers.Sdk.Dispatch.{read_output, read_output_ptr, read_output_at, receive}
use linux_opensource_univers.Sdk.Dispatch.Receive.{taken, receive-none, receive-some, receive-fault}

-- The shared memory without the oldest frame of `out_queue`
pub record Taken {F : Type 0} (shm shm' : SharedMemory F) : Type 0 where
  pub rest : List (AudioFrame F)
  pub oldest : contents queue_depth shm.out_queue ≡ shm.out_queue.slot shm.out_queue.head ∷ rest
  pub left : contents queue_depth shm'.out_queue ≡ rest
  pub valid : IsValid queue_depth shm'.out_queue
  pub others : shm'.in_queue ≡ shm.in_queue

module _ {F : Type 0} where
  -- Whether nothing has changed, or the oldest frame has been taken, by the result
  abbrev pub Read : Bool → SharedMemory F → SharedMemory F → Type 0
  Read false shm shm' = shm' ≡ shm
  Read true shm shm' = Taken shm shm'

  taken-Taken :
      (shm : SharedMemory F) (l : List (AudioFrame F)) {i : ℕ}
      → IsValid queue_depth shm.out_queue
      → contents queue_depth shm.out_queue ≡ l
      → peek_read queue_depth shm.out_queue ≡ some i
      → Taken shm (taken shm)
  taken-Taken shm [] v e h = absurd (cc (sym (peek_none v e) ∙ h))
  taken-Taken shm (f ∷ rest) v e h =
      let p = peek_some v f rest e in
      record {
        rest = rest;
        oldest = e ∙ ap (λ (g : AudioFrame F). g ∷ rest) (sym p.item);
        left = p.removed;
        valid = p.still;
        others = refl;
      }

module _ {fl : Floats} where
  open fl use {Float}

  receive-Read :
      (c : Ctx fl) (s : Session fl) (bufs : List (Region Float)) (channels now : ℕ) {u : Session fl}
      {outs : List (Region Float)} {r : Bool}
      → IsValid queue_depth s.shm.out_queue
      → receive c s bufs channels now ≡ some (u, outs, r)
      → Read r s.shm u.shm
  receive-Read c s bufs channels now {u} {r = r} v h =
      elim (Option-cases (peek_read queue_depth s.shm.out_queue)) [
        | inl e ↦
            let p = sym (receive-none c s bufs channels now e) ∙ h in
            let is_false : false ≡ r = cc p in
            let same : s ≡ u = cc p in
            subst (λ (b : Bool). Read b s.shm u.shm) is_false
              (ap (λ (t : Session fl). t.shm) (sym same))
        | inr (i, e) ↦
            let slot = s.shm.out_queue.slot i in
            elim (Option-cases (
              copy_out (min slot.channel_count channels) 0 slot.frame_count (sample_region slot)
                bufs)) [
                  | inl f ↦ absurd (cc (sym (receive-fault c s bufs channels now i e f) ∙ h))
                  | inr (outs', f) ↦
                      let p = sym (receive-some c s bufs channels now i outs' e f) ∙ h in
                      let is_true : true ≡ r = cc p in
                      let shm_is : taken s.shm ≡ u.shm = cc p in
                      subst (λ (b : Bool). Read b s.shm u.shm) is_true
                        (subst (Taken s.shm) shm_is
                          (taken-Taken s.shm (contents queue_depth s.shm.out_queue) v refl e))
                ]
      ]

  -- A `read_output` that returns has taken the oldest frame of `out_queue` where it says true, and has
  -- left the shared memory alone where it says false.
  pub read_output-Read :
      (s : Session fl) (bufs : List (Region Float)) (frames channels : ℤ) (ready : Bool) (now : ℕ)
      {u : Session fl} {outs : List (Region Float)} {r : Bool}
      → IsValid queue_depth s.shm.out_queue
      → read_output s bufs frames channels ready now ≡ some (u, outs, r)
      → Read r s.shm u.shm
  unfolding read_output read_output_ptr read_output_at
  read_output-Read s bufs frames channels ready now v h = go s.ctx h
    where
      unchanged :
          {u : Session fl} {outs : List (Region Float)} {r : Bool}
          → ◌≡◌ {A = Option (Session fl × List (Region Float) × Bool)}
              (some (s, bufs, false))
              (some (u, outs, r))
          → Read r s.shm u.shm
      unchanged {u} {r = r} p =
          let is_false : false ≡ r = cc p in
          let same : s ≡ u = cc p in
          subst (λ (b : Bool). Read b s.shm u.shm) is_false
            (ap (λ (t : Session fl). t.shm) (sym same))

      go :
          (o : Option (Ctx fl)) {u : Session fl} {outs : List (Region Float)} {r : Bool}
          → read_output_ptr o s bufs channels ready now ≡ some (u, outs, r)
          → Read r s.shm u.shm
      go none h = unchanged h
      go (some c) h = elim (Bool-cases (not c.mapped)) [
        | inl off ↦ unchanged (sym (if_true _ _ off) ∙ h)
        | inr on ↦
            let h1 = sym (if_false _ _ on) ∙ h in
            elim (Bool-cases (not ready)) [
              | inl late ↦ unchanged (sym (if_true _ _ late) ∙ h1)
              | inr there ↦
                  receive-Read c s bufs (to_u32 channels) now v (sym (if_false _ _ there) ∙ h1)
            ]
      ]
