-- ===== src/System/InOrder.antt =====
-- sdk/src/dsp_accel_sdk.cpp with daemon/worker.cpp: the order in which a plugin gets its blocks back.
use mathlib.Core.Path.{subst}
use linux_opensource_univers.Prelude.{nil, All, none_kept, Subsequence, ◌≡◌, sym, ◌∙◌, inl, inr}
use linux_opensource_univers.Floats.{Floats}
use linux_opensource_univers.Sdk.Dispatch.Queued.{dispatch-Queued}
use linux_opensource_univers.Sdk.Dispatch.Taken.{read_output-Read}
use linux_opensource_univers.Worker.{Nodes}
use linux_opensource_univers.Worker.Loop.Transparent.{Transparent}
use linux_opensource_univers.Worker.Loop.Output.{Sized}
use linux_opensource_univers.Worker.Loop.Rounds.{Rounds, round-Rounds}
use linux_opensource_univers.Worker.Loop.{Worker, Tick}
use linux_opensource_univers.System.Traffic.{
  Traffic, Step, dispatches, works, reads, Run, here, next, Fresh, under_way, session,
}
use linux_opensource_univers.System.Kept.{
  Inv, Queued-Inv, SameQueues-Inv, Moved-Inv, Read-Inv, more_dispatched,
}

module _ (fl : Floats) {S : Type 0} (nodes : Nodes (fl.Float) S) (keeps : Transparent nodes) where
  open fl use {Float}

  abbrev Kept : Traffic fl nodes → Type 0
  Kept t = Inv t.worker.shm t.dispatched t.delivered

  Fresh-Kept : {t : Traffic fl nodes} → Fresh fl nodes t → Kept t
  Fresh-Kept {t} f = record {
    in_valid = f.in_valid;
    out_valid = f.out_valid;
    sizes = subst (All Sized) (sym f.in_empty) nil;
    order = rw (f.none_delivered, f.out_empty, f.in_empty, f.none_dispatched) none_kept;
  }

  Step-Kept : {t u : Traffic fl nodes} → Kept t → Step fl nodes t u → Kept u
  Step-Kept {t} inv (dispatches bufs frames channels now answer u r e) =
      elim (dispatch-Queued (session fl nodes t) bufs frames channels now answer inv.in_valid e) [
        | inl same ↦ more_dispatched now same inv
        | inr q ↦ Queued-Inv q inv
      ]
  Step-Kept {t} inv (works tick w told e) =
      let (w', told', runs, how) =
        round-Rounds fl nodes tick t.worker keeps inv.in_valid inv.out_valid inv.sizes in
      let same : w' ≡ w = cc (sym runs ∙ e) in
      subst (λ (x : Worker Float S). Inv x.shm t.dispatched t.delivered) same
        (elim how [ inl q ↦ SameQueues-Inv q inv | inr m ↦ Moved-Inv m inv ])
  Step-Kept {t} inv (reads bufs frames channels ready now u outs r e) =
      Read-Inv r
        (read_output-Read (session fl nodes t) bufs frames channels ready now inv.out_valid e) inv

  Run-Kept : {t u : Traffic fl nodes} → Fresh fl nodes t → Run fl nodes t u → Kept u
  Run-Kept f here = Fresh-Kept f
  Run-Kept f (next run step) = Step-Kept (Run-Kept f run) step

  -- A plugin and a worker that start with empty queues may make their calls and rounds in any order,
  -- with numbers of frames and channels that are not negative. If each node changes samples alone,
  -- then in every state that they reach, the blocks that the plugin has got back, those in
  -- `out_queue` and those in `in_queue` are, by their timestamps, blocks that it has dispatched, in
  -- the order of dispatch and none of them twice; and the next round of the worker, whatever it
  -- meets, does not fault.
  pub blocks_in_order :
      {start t : Traffic fl nodes}
      → Fresh fl nodes start
      → Run fl nodes start t
      → Subsequence (under_way fl nodes t) t.dispatched
        × ((tick : Tick) → Rounds fl nodes tick t.worker)
  blocks_in_order {t = t} f run =
      let inv = Run-Kept f run in
      (
        inv.order,
        λ tick. round-Rounds fl nodes tick t.worker keeps inv.in_valid inv.out_valid inv.sizes,
      )
