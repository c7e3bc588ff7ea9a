-- ===== src/Worker/Loop/Transparent.antt =====
-- daemon/worker.cpp with daemon/node_graph.hpp: what the graph leaves of a frame when each of its nodes changes
-- samples alone.
use linux_opensource_univers.Prelude.{if_both, ℕ, ◌≡◌, refl, ◌∙◌, Bool, Option, List, [], ◌∷◌}
use linux_opensource_univers.Shm.{AudioFrame}
use linux_opensource_univers.Worker.{Nodes}
use linux_opensource_univers.Worker.Graph.{
  Graph, run, run_staging, staging, run_staging-run, process_graph, process_graph_parallel,
}
use linux_opensource_univers.Worker.Loop.{Worker, process}

-- All but the samples and the instance is as it was.
pub record SameHeader {F : Type 0} (f f' : AudioFrame F) : Type 0 where
  pub frame_count : f'.frame_count ≡ f.frame_count
  pub channel_count : f'.channel_count ≡ f.channel_count
  pub timestamp_ns : f'.timestamp_ns ≡ f.timestamp_ns

module _ {F S : Type 0} (nodes : Nodes F S) where
  unfoldable pub Transparent : Type 0
  Transparent = (n : ℕ) (s : S) (f : AudioFrame F) → SameHeader f (nodes.process_stage n s f).1

  module _ (keeps : Transparent) where
    run-SameHeader :
        (order : List ℕ) (s : S) (f : AudioFrame F) → SameHeader f (run nodes order s f).1
    unfolding run Transparent
    run-SameHeader [] s f = record { frame_count = refl; channel_count = refl; timestamp_ns = refl }
    run-SameHeader (n ∷ ns) s f =
        let r = nodes.process_stage n s f in
        let first = keeps n s f in
        let later = run-SameHeader ns (r.0) (r.1) in
        if_both (λ (x : S × AudioFrame F × Option ℕ). SameHeader f x.1) (r.2)
          (λ _. record {
            frame_count = later.frame_count ∙ first.frame_count;
            channel_count = later.channel_count ∙ first.channel_count;
            timestamp_ns = later.timestamp_ns ∙ first.timestamp_ns;
          })
          (λ _. first)

    run_staging-SameHeader :
        (order : List ℕ) (s : S) (f : AudioFrame F) → SameHeader f (run_staging nodes order s f).1
    run_staging-SameHeader order s f =
        rw (run_staging-run nodes order s f) (run-SameHeader (staging nodes order) s f)

    pub process-SameHeader :
        (w : Worker F S) (f : AudioFrame F) → SameHeader f (process nodes w f).2
    unfolding process process_graph process_graph_parallel
    process-SameHeader w f =
        if_both (λ (x : Graph × S × AudioFrame F × Bool). SameHeader f x.2) _
          (λ _. run_staging-SameHeader w.graph.execution_order w.store f)
          (λ _. run-SameHeader w.graph.execution_order w.store f)
