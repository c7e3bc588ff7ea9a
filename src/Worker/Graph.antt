-- ===== src/Worker/Graph.antt =====
-- daemon/node_graph.hpp: the sequence of nodes that a frame goes through.
use linux_opensource_univers.Prelude.{
  if◌then◌else◌, Bool-cases, if_both, ℕ, ◌≡◌, refl, ap, ◌⊎◌, inl, inr, Bool, true, false, Option,
  none, some, List, [], ◌∷◌, ◌++◌,
}
use linux_opensource_univers.Shm.{AudioFrame}
use linux_opensource_univers.Worker.{Nodes}

-- `DspNodeGraph`
pub record Graph : Type 0 where
  pub execution_order : List ℕ
  pub last_failed_node : Option ℕ

pub add_node_to_sequence : ℕ → Graph → Graph
add_node_to_sequence node g = record g { execution_order = g.execution_order ++ node ∷ [] }

pub clear : Graph → Graph
clear g = record { execution_order = []; last_failed_node = none }

-- `last_failed_node_ = node` on a failure
abbrev pub set_failed : Option ℕ → Graph → Graph
set_failed none g = g
set_failed (some node) g = record g { last_failed_node = some node }

abbrev pub is_none_node : Option ℕ → Bool
is_none_node none = true
is_none_node (some node) = false

module _ {F S : Type 0} (nodes : Nodes F S) where
  -- The loop of `process_graph`: with the node that failed, if one did.
  unfoldable pub run : List ℕ → S → AudioFrame F → S × AudioFrame F × Option ℕ
  run [] s f = (s, f, none)
  run (n ∷ ns) s f =
      let (s', f', ok) = nodes.process_stage n s f in
      let rest = run ns s' f' in if ok then rest else (s', f', some n)

  unfoldable pub run_staging : List ℕ → S → AudioFrame F → S × AudioFrame F × Option ℕ
  run_staging [] s f = (s, f, none)
  run_staging (n ∷ ns) s f =
      let (s', f', ok) = nodes.process_stage n s f in
      let rest = run_staging ns s' f' in
      let skipped = run_staging ns s f in
      if nodes.supports_staging n then (if ok then rest else (s', f', some n)) else skipped

  abbrev pub finish : Graph → S × AudioFrame F × Option ℕ → Graph × S × AudioFrame F × Bool
  finish g r = let (s', f', failed) = r in (set_failed failed g, s', f', is_none_node failed)

  unfoldable pub process_graph : Graph → S → AudioFrame F → Graph × S × AudioFrame F × Bool
  process_graph g s f = finish g (run g.execution_order s f)

  -- The code does not read its argument `num_blocks`.
  unfoldable pub process_graph_parallel :
      Graph → ℕ → S → AudioFrame F → Graph × S × AudioFrame F × Bool
  process_graph_parallel g num_blocks s f = finish g (run_staging g.execution_order s f)

  -- The nodes `ns` have all processed the frame `f`, one after the other, and succeeded.
  pub data Passed : List ℕ → S → AudioFrame F → S → AudioFrame F → Type 0 where
    done : {s : S} {f : AudioFrame F} → Passed [] s f s f
    step :
        {n : ℕ} {ns : List ℕ} {s s' s'' : S} {f f' f'' : AudioFrame F}
        → nodes.process_stage n s f ≡ (s', f', true)
        → Passed ns s' f' s'' f''
        → Passed (n ∷ ns) s f s'' f''

  -- A node has failed after those before it succeeded, and none after it has run.
  pub record Stopped (order : List ℕ) (s : S) (f : AudioFrame F) (s' : S) (f' : AudioFrame F)
      (n : ℕ) : Type 0 where
    pub before : List ℕ
    pub after : List ℕ
    pub split : order ≡ before ++ n ∷ after
    pub at_state : S
    pub at_frame : AudioFrame F
    pub passed : Passed before s f at_state at_frame
    pub fails : nodes.process_stage n at_state at_frame ≡ (s', f', false)

  abbrev pub Ran : List ℕ → S → AudioFrame F → S × AudioFrame F × Option ℕ → Type 0
  Ran order s f (s', f', none) = Passed order s f s' f'
  Ran order s f (s', f', some n) = Stopped order s f s' f' n

  later :
      (n : ℕ) (ns : List ℕ) (s s' : S) (f f' : AudioFrame F) (r : S × AudioFrame F × Option ℕ)
      → nodes.process_stage n s f ≡ (s', f', true)
      → Ran ns s' f' r
      → Ran (n ∷ ns) s f r
  later n ns s s' f f' (s'', f'', none) e p = Passed.step e p
  later n ns s s' f f' (s'', f'', some m) e p = record {
    before = n ∷ p.before;
    after = p.after;
    split = ap (λ (l : List ℕ). n ∷ l) p.split;
    at_state = p.at_state;
    at_frame = p.at_frame;
    passed = Passed.step e p.passed;
    fails = p.fails;
  }

  pub run-Ran : (order : List ℕ) (s : S) (f : AudioFrame F) → Ran order s f (run order s f)
  unfolding run
  run-Ran [] s f = Passed.done
  run-Ran (n ∷ ns) s f =
      let (s', f', ok) = nodes.process_stage n s f in
      if_both (Ran (n ∷ ns) s f) ok
        (λ y.
          later n ns s s' f f' (run ns s' f') (ap (λ (b : Bool). (s', f', b)) y) (run-Ran ns s' f'))
        (λ y. record {
          before = [];
          after = ns;
          split = refl;
          at_state = s;
          at_frame = f;
          passed = Passed.done;
          fails = ap (λ (b : Bool). (s', f', b)) y;
        })

  -- The nodes of a sequence that support staging
  abbrev pub staging : List ℕ → List ℕ
  staging [] = []
  staging (n ∷ ns) = if nodes.supports_staging n then n ∷ staging ns else staging ns

  pub run_staging-run :
      (order : List ℕ) (s : S) (f : AudioFrame F) → run_staging order s f ≡ run (staging order) s f
  unfolding run_staging run
  run_staging-run [] s f = refl
  run_staging-run (n ∷ ns) s f =
      let (s', f', ok) = nodes.process_stage n s f in
      elim (Bool-cases (nodes.supports_staging n)) [
        | inl y ↦ rw y (rw (run_staging-run ns s' f') refl)
        | inr y ↦ rw y (run_staging-run ns s f)
      ]

  outcome :
      (g : Graph) (s : S) (f : AudioFrame F) (r : S × AudioFrame F × Option ℕ)
      → Ran g.execution_order s f r
      → (let (g', s', f', ok) = finish g r in
          ((ok ≡ true) × (g' ≡ g) × Passed g.execution_order s f s' f')
          ⊎ ((ok ≡ false)
              × ((n : ℕ) × (g' ≡ record g { last_failed_node = some n })
                  × Stopped g.execution_order s f s' f' n)))
  outcome g s f (s', f', none) p = inl (refl, refl, p)
  outcome g s f (s', f', some n) p = inr (refl, (n, refl, p))

  alike :
      (g : Graph) (order : List ℕ) (r : S × AudioFrame F × Option ℕ)
      → (let (g', s', f', ok) = finish g r in
          let only = finish (record g { execution_order = order }) r in
          (g'.last_failed_node ≡ only.0.last_failed_node)
          × (s' ≡ only.1)
          × (f' ≡ only.2)
          × (ok ≡ only.3))
  alike g order (s', f', none) = (refl, refl, refl, refl)
  alike g order (s', f', some n) = (refl, refl, refl, refl)

  -- `process_graph` succeeds when all nodes have processed the frame in turn; else it returns false
  -- with the first node that failed recorded, the frame as that node left it, and no later node
  -- run. What `process_graph_parallel` does to frame, nodes and record is what `process_graph` does
  -- with the sequence of the nodes that support staging.
  pub graph_outcome :
      (g : Graph) (num_blocks : ℕ) (s : S) (f : AudioFrame F)
      → (let (g', s', f', ok) = process_graph g s f in
          ((ok ≡ true) × (g' ≡ g) × Passed g.execution_order s f s' f')
          ⊎ ((ok ≡ false)
              × ((n : ℕ) × (g' ≡ record g { last_failed_node = some n })
                  × Stopped g.execution_order s f s' f' n)))
        × (let (g', s', f', ok) = process_graph_parallel g num_blocks s f in
            let only =
              process_graph (record g { execution_order = staging g.execution_order }) s f in
            (g'.last_failed_node ≡ only.0.last_failed_node)
            × (s' ≡ only.1)
            × (f' ≡ only.2)
            × (ok ≡ only.3))
  unfolding process_graph process_graph_parallel
  graph_outcome g num_blocks s f = (
    outcome g s f (run g.execution_order s f) (run-Ran g.execution_order s f),
    rw (run_staging-run g.execution_order s f)
        (alike g (staging g.execution_order) (run (staging g.execution_order) s f)),
  )
