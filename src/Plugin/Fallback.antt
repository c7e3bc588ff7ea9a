-- ===== src/Plugin/Fallback.antt =====
-- clap/plugin_example/src/plugin.cpp: what the host gets of a block.
use linux_opensource_univers.Prelude.{
  length, take, drop, take-drop, Region, pos, to_int, >>=-eq-some, ℕ, ◌≡◌, refl, ap, ◌∙◌, Bool,
  true, false, Option, none, some, List, [], ◌∷◌, ◌++◌,
}
use linux_opensource_univers.Floats.{Floats}
use linux_opensource_univers.Sdk.{Ctx, Session}
use linux_opensource_univers.Sdk.Dispatch.{dispatch, read_output}
use linux_opensource_univers.Sdk.Dispatch.Receive.{read_output_keeps}
use linux_opensource_univers.Plugin.{
  Process, World, read_back, sent, hardware, settle, process, first_port,
}
use linux_opensource_univers.Plugin.Halved.{AllRoomy, AllHalved, fall_back_lem}

module _ (fl : Floats) where
  open fl use {Float}

  -- Where the hardware path does not say true, it has not touched the outputs.
  read_back_keeps :
      (frames : ℕ) (ports outs : List (List (Region Float))) (world : World Float) (s : Session fl)
      {s' : Session fl}
      → read_back fl frames ports world s ≡ some (s', outs, false)
      → outs ≡ ports
  unfolding read_back
  read_back_keeps frames [] outs world s h = cc
  read_back_keeps frames (port ∷ ports) outs world s h =
      let ptrs = take 8 port in
      let ((s', bufs, done), e, f) =
        >>=-eq-some (read_output s ptrs (to_int frames) (pos (length ptrs)) world.ready world.later)
          _ h in
      let over : done ≡ false = cc f in
      let same : bufs ≡ ptrs =
        read_output_keeps s ptrs bufs (to_int frames) (pos (length ptrs)) world.ready world.later
          (e ∙ ap (λ (b : Bool). some (s', bufs, b)) over) in
      let ports_are : outs ≡ (bufs ++ drop 8 port) ∷ ports = cc f in
      ports_are
      ∙ ap (λ (l : List (Region Float)). (l ++ drop 8 port) ∷ ports) same
      ∙ ap (λ (l : List (Region Float)). l ∷ ports) (take-drop 8 port)

  sent_keeps :
      (b : Bool) (p : Process Float) (outs : List (List (Region Float))) (world : World Float)
      (s : Session fl) {s' : Session fl}
      → sent fl b p world s ≡ some (s', outs, false)
      → outs ≡ p.outputs
  unfolding sent
  sent_keeps false p outs world s h = cc
  sent_keeps true p outs world s h = read_back_keeps p.frames_count p.outputs outs world _ h

  hardware_keeps :
      (o : Option (Ctx fl)) (p : Process Float) (outs : List (List (Region Float)))
      (world : World Float) (s : Session fl) {s' : Session fl}
      → hardware fl o p world s ≡ some (s', outs, false)
      → outs ≡ p.outputs
  unfolding hardware
  hardware_keeps none p outs world s h = cc
  hardware_keeps (some c) p outs world s h =
      let ((s', b), e, f) =
        >>=-eq-some
          (dispatch s (take 8 (first_port p.inputs)) (to_int p.frames_count)
            (pos (length (take 8 (first_port p.inputs)))) world.now world.answer)
          _ h in
      sent_keeps b p outs world s' f

  -- What a call gives, by whether the hardware path says true
  pub data Processed (p : Process Float) (outs : List (List (Region Float)))
      : Bool → List (List (Region Float)) → Type 0 where
    by_hardware : Processed p outs true outs
    on_cpu :
        {outs' : List (List (Region Float))}
        → AllHalved fl p.frames_count p.inputs p.outputs outs'
        → Processed p outs false outs'

  -- Where the hardware path runs past no array, and every buffer has room for the block, a call does
  -- not either. If that path says true, the outputs are those that it has left. Else every
  -- output port with an input gets half of the input on each channel, and silence on channels that
  -- the input does not have, for the frames of the block; the rest of each buffer, and the ports
  -- without an input, are as before the call.
  pub block_outcome :
      (p : Process Float) (world : World Float) (s : Session fl) (done : Bool)
      (outs : List (List (Region Float))) (s' : Session fl)
      → hardware fl s.ctx p world s ≡ some (s', outs, done)
      → AllRoomy p.frames_count p.inputs
      → AllRoomy p.frames_count p.outputs
      → (outs' : List (List (Region Float))) × (process fl p world s ≡ some (s', outs'))
        × Processed p outs done outs'
  unfolding process settle
  block_outcome p world s true outs s' h ins room = (outs, rw h, Processed.by_hardware)
  block_outcome p world s false outs s' h ins room =
      let (outs', runs, halved) = fall_back_lem fl p.frames_count p.inputs p.outputs ins room in
      let same = hardware_keeps s.ctx p outs world s h in
      (outs', rw h (rw same (rw runs refl)), Processed.on_cpu halved)
