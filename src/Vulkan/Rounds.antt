-- ===== src/Vulkan/Rounds.antt =====
-- daemon/worker.cpp with daemon/vulkan/vulkan_compute.c: rounds of the worker's loop with the bypass on, as
-- far as the pool of the backend is concerned.
use linux_opensource_univers.Prelude.{
  All, ℕ, ◌≡◌, refl, sym, ap, ◌∙◌, inl, inr, Bool, true, Option, none, some, List, [], ◌∷◌, arith,
  ℕ_discrete,
}
use mathlib.Core.Path.{subst}
use linux_opensource_univers.Shm.{AudioFrame}
use linux_opensource_univers.Vulkan.{Context, Answers, allocate_buffer, free_buffer}
use linux_opensource_univers.Vulkan.Pool.{Denied, allocate_outcome}
use linux_opensource_univers.Vulkan.Backend.{
  Backend, set_zero_copy_bypass, state_on, state_of, process_on, process_stage, apply_control_event,
  allocate, allocate_on,
}

-- A request of the memory bus: a buffer of a size, data for a handle, or the end of a handle
pub data Request : Type 0 where
  reserve : Answers → ℕ → Request
  upload : ℕ → Request
  release : ℕ → Request

-- A call of `process_stage`: the answers of the driver and the queue, where the frame is, and the frame
pub record Stage (F : Type 0) : Type 0 where
  pub answers : Answers
  pub submitted : Bool
  pub offset : ℕ
  pub frame : AudioFrame F

-- What a round finds: the answers of the driver to the import, the events of the control bus, the
-- calls for a frame (none, one, or one for each part), and the requests of the memory bus. A round
-- that ends early, at a read that fails, has no calls and no requests.
pub record Round (F : Type 0) : Type 0 where
  pub import : Answers
  pub events : List (ℕ × F)
  pub stages : List (Stage F)
  pub requests : List Request

module _ {F : Type 0} where
  pub free_on : Option Context → ℕ → Backend F → Backend F
  free_on none h b = b
  free_on (some ctx) h b = record b { vk_ctx = some (free_buffer h ctx) }

  -- An upload writes to the memory of the buffer and leaves the pool alone.
  pub answer : Request → Backend F → Backend F
  answer (Request.reserve answers size) b = (allocate answers size b).0
  answer (Request.upload h) b = b
  answer (Request.release h) b = free_on b.vk_ctx h b

  pub answer_all : List Request → Backend F → Backend F
  answer_all [] b = b
  answer_all (req ∷ reqs) b = answer_all reqs (answer req b)

  pub run_stages : List (Stage F) → Backend F → Backend F
  run_stages [] b = b
  run_stages (s ∷ ss) b = run_stages ss (process_stage s.answers s.submitted s.offset s.frame b).0

  module _ (to_algo : F → ℕ) where
    pub apply_events : List (ℕ × F) → Backend F → Backend F
    apply_events [] b = b
    apply_events (e ∷ es) b = apply_events es (apply_control_event to_algo e.0 e.1 b)

    -- A round in the order of the code: the bypass, the control bus, the frame, the memory bus
    pub round : ℕ → ℕ → Round F → Backend F → Backend F
    round fd size r b = answer_all r.requests (
        run_stages r.stages
          (apply_events r.events (set_zero_copy_bypass r.import true (some fd) size b)))

    unfoldable pub rounds : ℕ → ℕ → List (Round F) → Backend F → Backend F
    rounds fd size [] b = b
    rounds fd size (r ∷ rs) b = rounds fd size rs (round fd size r b)

-- A request that is not FREE
pub data Keeps : Request → Type 0 where
  reserve : {answers : Answers} {size : ℕ} → Keeps (Request.reserve answers size)
  upload : {h : ℕ} → Keeps (Request.upload h)

-- Every handle that is taken stays taken.
abbrev pub Grows : Context → Context → Type 0
Grows ctx ctx' = (k : ℕ) → (ctx.user_buffers k).active ≡ true → (ctx'.user_buffers k).active ≡ true

allocate_buffer-Grows :
    (answers : Answers) (size : ℕ) (ctx : Context) → Grows ctx (allocate_buffer answers size ctx).0
allocate_buffer-Grows answers size ctx = elim (allocate_outcome answers size ctx) [
  | inl g ↦ λ k a. elim (ℕ_discrete k (allocate_buffer answers size ctx).1) [
    | yes e ↦
        ap (λ (x : ℕ). (((allocate_buffer answers size ctx).0).user_buffers x).active) e
        ∙ g.is_taken
    | no n ↦ ap (λ x. x.active) (g.others k n) ∙ a
  ]
  | inr (Denied.all_taken z all same) ↦
      λ k a. ap (λ (c : Context). (c.user_buffers k).active) same ∙ a
  | inr (Denied.no_buffer z c same) ↦
      λ k a. ap (λ (c : Context). (c.user_buffers k).active) same ∙ a
  | inr (Denied.no_type b z c t kept) ↦ λ k a. kept.same_taken k ∙ a
  | inr (Denied.no_memory b i z c t m kept) ↦ λ k a. kept.same_taken k ∙ a
]

module _ {F : Type 0} where
  -- The backend has a context, in which all is taken that was taken in `ctx`.
  pub record Has (ctx : Context) (b : Backend F) : Type 0 where
    pub now : Context
    pub here : b.vk_ctx ≡ some now
    pub grown : Grows ctx now

  pub refl-Has : (ctx : Context) (b : Backend F) → b.vk_ctx ≡ some ctx → Has ctx b
  refl-Has ctx b e = record { now = ctx; here = e; grown = λ k a. a }

  reserve-Has :
      (answers : Answers) (size : ℕ) (ctx : Context) (b : Backend F)
      → Has ctx b
      → Has ctx (allocate answers size b).0
  unfolding allocate allocate_on
  reserve-Has answers size ctx b h = record {
    now = (allocate_buffer answers size h.now).0;
    here = ap (λ (o : Option Context). (allocate_on o answers size b).0.vk_ctx) h.here;
    grown = λ k a. allocate_buffer-Grows answers size h.now k (h.grown k a);
  }

  answer_all-Has :
      (reqs : List Request) (ctx : Context) (b : Backend F)
      → All Keeps reqs
      → Has ctx b
      → Has ctx (answer_all reqs b)
  unfolding answer_all answer
  answer_all-Has [] ctx b All.nil h = h
  answer_all-Has (Request.reserve answers size ∷ reqs) ctx b (All.cons k ks) h =
      answer_all-Has reqs ctx (allocate answers size b).0 ks (reserve-Has answers size ctx b h)
  answer_all-Has (Request.upload i ∷ reqs) ctx b (All.cons k ks) h = answer_all-Has reqs ctx b ks h
  answer_all-Has (Request.release i ∷ reqs) ctx b (All.cons k ks) h = elim k [ ]

  state-Has :
      (o : Option ℕ) (answers : Answers) (i : ℕ) (ctx now : Context) (b : Backend F)
      → b.vk_ctx ≡ some now
      → Grows ctx now
      → Has ctx (state_on o answers i now b).0
  unfolding state_on
  state-Has none answers i ctx now b e g = record {
    now = (allocate_buffer answers 1024 now).0;
    here = refl;
    grown = λ k a. allocate_buffer-Grows answers 1024 now k (g k a);
  }
  state-Has (some h) answers i ctx now b e g = record { now = now; here = e; grown = g }

  stage-Has :
      (s : Stage F) (ctx : Context) (b : Backend F)
      → Has ctx b
      → Has ctx (process_stage s.answers s.submitted s.offset s.frame b).0
  unfolding process_stage process_on state_of
  stage-Has s ctx b h =
      subst
        (λ (o : Option Context). Has ctx (process_on o s.answers s.submitted s.offset s.frame b).0)
        (sym h.here)
        (state-Has (b.instance_states s.frame.instance_id) s.answers s.frame.instance_id ctx h.now b
          h.here h.grown)

  run_stages-Has :
      (ss : List (Stage F)) (ctx : Context) (b : Backend F) → Has ctx b → Has ctx (run_stages ss b)
  unfolding run_stages
  run_stages-Has [] ctx b h = h
  run_stages-Has (s ∷ ss) ctx b h = run_stages-Has ss ctx _ (stage-Has s ctx b h)

  control-vk_ctx :
      (to_algo : F → ℕ) (id : ℕ) (value : F) (b : Backend F)
      → (apply_control_event to_algo id value b).vk_ctx ≡ b.vk_ctx
  unfolding apply_control_event
  control-vk_ctx to_algo id value b = ground arith

  apply_events-Has :
      (to_algo : F → ℕ) (es : List (ℕ × F)) (ctx : Context) (b : Backend F)
      → Has ctx b
      → Has ctx (apply_events to_algo es b)
  unfolding apply_events
  apply_events-Has to_algo [] ctx b h = h
  apply_events-Has to_algo (e ∷ es) ctx b h =
      apply_events-Has to_algo es ctx _
        record { now = h.now; here = control-vk_ctx to_algo e.0 e.1 b ∙ h.here; grown = h.grown }

  -- What a round does after the bypass gives back no handle, where no request is a FREE.
  pub round-Has :
      (to_algo : F → ℕ) (fd size : ℕ) (r : Round F) (ctx : Context) (b : Backend F)
      → All Keeps r.requests
      → (set_zero_copy_bypass r.import true (some fd) size b).vk_ctx ≡ some ctx
      → Has ctx (round to_algo fd size r b)
  unfolding round
  round-Has to_algo fd size r ctx b keeps e =
      answer_all-Has r.requests ctx _ keeps
        (run_stages-Has r.stages ctx _ (apply_events-Has to_algo r.events ctx _ (refl-Has ctx _ e)))
