-- ===== src/Worker/Loop/Buses.antt =====
-- daemon/worker.cpp: the loops that empty the control bus and the memory bus.
use linux_opensource_univers.Prelude.{
  if_true, if_false, eq→==, ne→==_false, length, take, length-append, ℕ, zero, suc, ◌+◌, ◌-◌, ◌<◌,
  ◌≡◌, refl, sym, ap, ap₂, ◌∙◌, Bool, true, false, Option, List, [], ◌∷◌, ◌++◌, map, append-nil,
  append_assoc, arith,
}
use linux_opensource_univers.Ring.{Ring, push, pop}
use linux_opensource_univers.Ring.Fifo
use linux_opensource_univers.Ring.Window.{IsValid, contents, length-window, span, span_lt}
use linux_opensource_univers.Ring.Refine.{push-IsValid, push_refines, pop-IsValid, pop_refines}
use linux_opensource_univers.Shm.{
  MemoryRequest, MemoryRequestType, MemoryResponse, bus_depth, control_depth,
}
use linux_opensource_univers.Worker.{Nodes}
use linux_opensource_univers.Worker.Loop.{Worker, pop_all, control, respond, serve, memory}

-- The steps of a list of items, the first of them first
abbrev pub steps : {A T : Type 0} → (T → A → T) → T → List A → T
steps step t [] = t
steps step t (a ∷ rest) = steps step (step t a) rest

contents_lt : {A : Type 0} {cap : ℕ} {r : Ring A} → IsValid cap r → length (contents cap r) < cap
contents_lt {cap = cap} {r = r} v = omega (
  arith,
  length-window r.slot cap r.head (span cap r.head r.tail),
  span_lt cap r.head r.tail v.small v.head_in v.tail_in,
)

module _ {A T : Type 0} (cap : ℕ) (step : T → A → T) where
  -- The bus is empty and valid, and all its items have had their steps.
  pub record Emptied (bus : Ring A) (t : T) (bus' : Ring A) (t' : T) : Type 0 where
    pub nothing_left : contents cap bus' ≡ []
    pub still : IsValid cap bus'
    pub stepped : t' ≡ steps step t (contents cap bus)

  -- What `pop` gives, by what the bus holds
  popped :
      (bus : Ring A)
      → IsValid cap bus
      → (contents cap (pop cap bus).0, (pop cap bus).1) ≡ Fifo.pop (contents cap bus)
  popped bus v = pop_refines v

  pub pop_all-Emptied :
      (fuel : ℕ) (q : List A) (bus : Ring A) (t : T)
      → IsValid cap bus
      → contents cap bus ≡ q
      → length q < fuel
      → (let (bus', t') = pop_all cap step fuel bus t in Emptied bus t bus' t')
  unfolding pop_all Fifo.pop
  pop_all-Emptied zero q bus t v e h = absurd (omega arith)
  pop_all-Emptied (suc fuel) [] bus t v e h =
      let p = popped bus v ∙ ap Fifo.pop e in
      rw (ap (λ (x : List A × Option A). x.1) p, pop_all)
        record {
          nothing_left = ap (λ (x : List A × Option A). x.0) p;
          still = pop-IsValid v;
          stepped = ap (steps step t) (sym e);
        }
  pop_all-Emptied (suc fuel) (a ∷ q) bus t v e h =
      let p = popped bus v ∙ ap Fifo.pop e in
      let rest =
        pop_all-Emptied fuel q (pop cap bus).0 (step t a) (pop-IsValid v)
          (ap (λ (x : List A × Option A). x.0) p) (omega arith) in
      rw (ap (λ (x : List A × Option A). x.1) p, pop_all)
        record {
          nothing_left = rest.nothing_left;
          still = rest.still;
          stepped =
              rest.stepped
              ∙ ap (steps step (step t a)) (ap (λ (x : List A × Option A). x.0) p)
              ∙ ap (steps step t) (sym e);
        }

pushed :
    {A : Type 0} {cap : ℕ} {r : Ring A} (v : IsValid cap r) (x : A)
    → length (contents cap r) + 1 < cap
    → contents cap (push cap r x).0 ≡ contents cap r ++ x ∷ []
unfolding Fifo.push
pushed {A = A} {cap = cap} {r = r} v x h =
    ap (λ (p : List A × Bool). p.0)
      (push_refines v x
        ∙ if_false (contents cap r, false) (contents cap r ++ x ∷ [], true)
            (ne→==_false (length (contents cap r) + 1) cap (omega arith)))

dropped :
    {A : Type 0} {cap : ℕ} {r : Ring A} (v : IsValid cap r) (x : A)
    → length (contents cap r) + 1 ≡ cap
    → contents cap (push cap r x).0 ≡ contents cap r
unfolding Fifo.push
dropped {A = A} {cap = cap} {r = r} v x h =
    ap (λ (p : List A × Bool). p.0)
      (push_refines v x
        ∙ if_true (contents cap r, false) (contents cap r ++ x ∷ [], true)
            (eq→== (length (contents cap r) + 1) cap h))

module _ {F S : Type 0} (nodes : Nodes F S) where
  -- The responses to requests in order, and the store after them
  abbrev pub responses : ℕ → S → List MemoryRequest → S × List MemoryResponse
  responses node s [] = (s, [])
  responses node s (req ∷ reqs) =
      let (s', response) = respond nodes node s req in
      let (s'', rest) = responses node s' reqs in (s'', response ∷ rest)

  -- Of the responses the bus takes as many as it has room for.
  steps-serve :
      (node room : ℕ) (s : S) (bus : Ring MemoryResponse) (reqs : List MemoryRequest)
      → IsValid bus_depth bus
      → length (contents bus_depth bus) + room + 1 ≡ bus_depth
      → (let (s', bus') = steps (serve nodes node) (s, bus) reqs in
          (s' ≡ (responses node s reqs).0)
          × (contents bus_depth bus'
              ≡ contents bus_depth bus ++ take room (responses node s reqs).1)
          × IsValid bus_depth bus')
  steps-serve node zero s bus [] v h = (refl, sym (append-nil (contents bus_depth bus)), v)
  steps-serve node (suc room) s bus [] v h = (refl, sym (append-nil (contents bus_depth bus)), v)
  steps-serve node zero s bus (req ∷ reqs) v h =
      let (s', response) = respond nodes node s req in
      let same = dropped v response (omega arith) in
      let rest =
        steps-serve node zero s' (push bus_depth bus response).0 reqs (push-IsValid v response)
          (omega (arith, ap length same)) in
      (rest.0, rest.1 ∙ ap (λ (l : List MemoryResponse). l ++ []) same, rest.2)
  steps-serve node (suc room) s bus (req ∷ reqs) v h =
      let (s', response) = respond nodes node s req in
      let longer = pushed v response (omega arith) in
      let rest =
        steps-serve node room s' (push bus_depth bus response).0 reqs (push-IsValid v response) (
          omega
            (arith, ap length longer, length-append (contents bus_depth bus) (response ∷ []))) in
      let new = take room (responses node s' reqs).1 in
      (
        rest.0,
        rest.1
            ∙ ap (λ (l : List MemoryResponse). l ++ new) longer
            ∙ append_assoc (contents bus_depth bus) (response ∷ []) new,
        rest.2,
      )

  same_id :
      (node : ℕ) (s : S) (req : MemoryRequest)
      → (respond nodes node s req).1.request_id ≡ req.request_id
  unfolding respond
  same_id node s req =
      elim (req.type)
        as (λ t. (respond nodes node s (record req { type = t })).1.request_id ≡ req.request_id) [
          | MemoryRequestType.allocate ↦ refl
          | MemoryRequestType.free ↦ refl
          | MemoryRequestType.upload ↦ refl
        ]

  same_ids :
      (node : ℕ) (s : S) (reqs : List MemoryRequest)
      → map (λ (r : MemoryResponse). r.request_id) (responses node s reqs).1
        ≡ map (λ (r : MemoryRequest). r.request_id) reqs
  same_ids node s [] = refl
  same_ids node s (req ∷ reqs) =
      ap₂ (λ (i : ℕ) (l : List ℕ). i ∷ l) (same_id node s req)
        (same_ids node (respond nodes node s req).0 reqs)

  -- All events that wait on the control bus reach the primary node in order, and none is left.
  pub control_applied :
      (w : Worker F S)
      → IsValid control_depth w.shm.control_bus
      → (let w' = control nodes w in
          (contents control_depth w'.shm.control_bus ≡ [])
          × (w'.store
              ≡ steps
                  (nodes.apply_control_event w.primary_node)
                  w.store
                  (contents control_depth w.shm.control_bus)))
  unfolding control
  control_applied w v =
      let e =
        pop_all-Emptied control_depth (nodes.apply_control_event w.primary_node) control_depth
          (contents control_depth w.shm.control_bus) w.shm.control_bus w.store v refl
          (contents_lt v) in
      (e.nothing_left, e.stepped)

  -- All requests that wait on the memory bus are served in order and none is left. There is one
  -- response to each, in order, under the request's own number; the response bus gets them in order
  -- behind those that were there, as long as it has room, and those for which it has none are lost.
  pub memory_served :
      (w : Worker F S)
      → IsValid bus_depth w.shm.memory_request_bus
      → IsValid bus_depth w.shm.memory_response_bus
      → (let w' = memory nodes w in
          let reqs = contents bus_depth w.shm.memory_request_bus in
          let old = contents bus_depth w.shm.memory_response_bus in
          let (s, new) = responses w.primary_node w.store reqs in
          (contents bus_depth w'.shm.memory_request_bus ≡ [])
          × (w'.store ≡ s)
          × (contents bus_depth w'.shm.memory_response_bus
              ≡ old ++ take (bus_depth - 1 - length old) new)
          × (map (λ (r : MemoryResponse). r.request_id) new
              ≡ map (λ (r : MemoryRequest). r.request_id) reqs))
  unfolding memory
  memory_served w v u =
      let reqs = contents bus_depth w.shm.memory_request_bus in
      let start : S × Ring MemoryResponse = (w.store, w.shm.memory_response_bus) in
      let e =
        pop_all-Emptied bus_depth (serve nodes w.primary_node) bus_depth reqs
          w.shm.memory_request_bus start v refl (contents_lt v) in
      let old = contents bus_depth w.shm.memory_response_bus in
      let served =
        steps-serve w.primary_node (bus_depth - 1 - length old) w.store w.shm.memory_response_bus
          reqs u (omega (arith, contents_lt u)) in
      (
        e.nothing_left,
        ap (λ (x : S × Ring MemoryResponse). x.0) e.stepped ∙ served.0,
        ap (λ (x : S × Ring MemoryResponse). contents bus_depth x.1) e.stepped ∙ served.1,
        same_ids w.primary_node w.store reqs,
      )
