-- ===== src/Vulkan/Bypass.antt =====
-- daemon/worker.cpp with daemon/vulkan/vulkan_compute.c: the worker's loop calls `set_zero_copy_bypass`
-- in each round, and with the bypass on each call imports the shared memory anew.
use linux_opensource_univers.Prelude.{
  if_true, if_false, eq→==, ne→==_false, length, All, update_here, update_else, ℕ, suc, ◌+◌, ◌≤◌,
  ◌<◌, ◌≡◌, refl, ap, ◌∙◌, ◌≢◌, Bool, true, false, Option, some, List, [], ◌∷◌, arith, dec_lt,
  ℕ_discrete,
}
use linux_opensource_univers.Vulkan.{
  Buffer, Context, Answers, free_slot, allocate_buffer, allocate_at, import_shm, import_at,
  import_created, fill, create, bind,
}
use linux_opensource_univers.Vulkan.Search.{Taken, Found, free_slot-Found}
use linux_opensource_univers.Vulkan.Backend.{
  Backend, set_zero_copy_bypass, import_on, allocate, allocate_on,
}
use linux_opensource_univers.Vulkan.Rounds.{Round, Keeps, round, rounds, round-Has}

-- The first `n` handles are taken.
abbrev pub Leading : ℕ → Context → Type 0
Leading n ctx = Taken ctx.user_buffers 1 (suc n)

bound :
    (b m size h k : ℕ) (ctx : Context)
    → (k ≢ h → (ctx.user_buffers k).active ≡ true)
    → ((bind h m size (create h b ctx)).user_buffers k).active ≡ true
bound b m size h k ctx l =
    let c : Context = create h b ctx in
    let new : Buffer = record (c.user_buffers h) { memory = m; size = size; active = true } in
    elim (ℕ_discrete k h) [
      | yes e ↦ ap (λ (x : Buffer). x.active) (update_here c.user_buffers new e)
      | no n ↦
          ap (λ (x : Buffer). x.active)
            (update_else c.user_buffers new n
              ∙ update_else ctx.user_buffers (record (ctx.user_buffers h) { buffer = b }) n)
          ∙ l n
    ]

contradiction : {b : Bool} → b ≡ true → b ≡ false → ⊥
contradiction p q = cc

-- With all handles taken there is none left.
pub none_left : (ctx : Context) → Leading 255 ctx → free_slot ctx ≡ 0
none_left ctx l = go (free_slot-Found ctx)
  where
    go : {h : ℕ} → Found ctx.user_buffers 255 1 h → h ≡ 0
    go (Found.full all) = refl
    go (Found.free p q f all) = absurd (contradiction (l _ p q) f)

module _ (b m : ℕ) (answers : Answers) (creates : answers.created ≡ some b)
    (allocates : answers.allocated ≡ some m) where
  import_at-succeeds :
      (size h : ℕ) (ctx : Context)
      → h ≢ 0
      → import_at answers size h ctx ≡ (bind h m size (create h b ctx), h)
  unfolding import_at import_created fill
  import_at-succeeds size h ctx n =
      if_false _ _ (ne→==_false h 0 n)
      ∙ ap (λ (o : Option ℕ). import_created o answers size h ctx) creates
      ∙ ap (λ (o : Option ℕ). fill o size h (create h b ctx)) allocates

  import_at-Leading :
      (size n : ℕ) {h : ℕ} (ctx : Context)
      → n < 255
      → Leading n ctx
      → Found ctx.user_buffers 255 1 h
      → Leading (suc n) (import_at answers size h ctx).0
  unfolding import_at
  import_at-Leading size n ctx q l (Found.full all) = λ k r s. all k r (omega arith)
  import_at-Leading size n {h = h} ctx q l (Found.free p s f all) =
      rw (import_at-succeeds size h ctx (omega arith)) (λ k r t. bound b m size h k ctx (λ ne.
        elim (dec_lt k h) [
          | yes y ↦ all k r y
          | no y ↦ absurd (contradiction (l h p (omega arith)) f)
        ]))

  -- An import that succeeds takes the first handle that is free.
  import-Leading :
      (fd size n : ℕ) (ctx : Context)
      → n < 255
      → Leading n ctx
      → Leading (suc n) (import_shm answers (some fd) size ctx).0
  unfolding import_shm
  import-Leading fd size n ctx q l = import_at-Leading size n ctx q l (free_slot-Found ctx)

import_at-none :
    (answers : Answers) (size : ℕ) {h : ℕ} (ctx : Context)
    → h ≡ 0
    → import_at answers size h ctx ≡ (ctx, 0)
unfolding import_at
import_at-none answers size {h = h} ctx e = if_true _ _ (eq→== h 0 e)

allocate_at-none :
    (answers : Answers) (size : ℕ) {h : ℕ} (ctx : Context)
    → h ≡ 0
    → allocate_at answers size h ctx ≡ (ctx, 0)
unfolding allocate_at
allocate_at-none answers size {h = h} ctx e = if_true _ _ (eq→== h 0 e)

-- The driver gives a buffer and a memory.
pub record Succeeds (answers : Answers) : Type 0 where
  pub b : ℕ
  pub m : ℕ
  pub creates : answers.created ≡ some b
  pub allocates : answers.allocated ≡ some m

round_full :
    (answers : Answers) (fd size : ℕ) (ctx : Context)
    → Leading 255 ctx
    → import_shm answers (some fd) size ctx ≡ (ctx, 0)
unfolding import_shm
round_full answers fd size ctx l = import_at-none answers size ctx (none_left ctx l)

-- A round in which the driver gives all that an import needs, and no request is a FREE
pub record Fills {F : Type 0} (r : Round F) : Type 0 where
  pub succeeds : Succeeds r.import
  pub keeps : All Keeps r.requests

module _ {F : Type 0} (to_algo : F → ℕ) (fd size : ℕ) where
  record Leads (n : ℕ) (b : Backend F) : Type 0 where
    pub ctx : Context
    pub here : b.vk_ctx ≡ some ctx
    pub leading : Leading n ctx

  imported :
      (answers : Answers) (b : Backend F) (ctx : Context)
      → b.vk_ctx ≡ some ctx
      → set_zero_copy_bypass answers true (some fd) size b ≡ (
          let (ctx', h) = import_shm answers (some fd) size ctx in
          record b { vk_ctx = some ctx'; shm_buffer_handle = h })
  unfolding set_zero_copy_bypass import_on
  imported answers b ctx e = ap (λ (o : Option Context). import_on o answers fd size b) e

  taken :
      (answers : Answers) (n : ℕ) (b : Backend F)
      → Succeeds answers
      → n < 255
      → Leads n b
      → Leads (suc n) (set_zero_copy_bypass answers true (some fd) size b)
  taken answers n b s y l = record {
    ctx = (import_shm answers (some fd) size l.ctx).0;
    here = ap (λ (x : Backend F). x.vk_ctx) (imported answers b l.ctx l.here);
    leading = import-Leading s.b s.m answers s.creates s.allocates fd size n l.ctx y l.leading;
  }

  still :
      (answers : Answers) (n : ℕ) (b : Backend F)
      → 255 ≤ n
      → Leads n b
      → Leads 255 (set_zero_copy_bypass answers true (some fd) size b)
  still answers n b p l =
      let all : Leading 255 l.ctx = λ k r s. l.leading k r (omega arith) in
      record {
        ctx = l.ctx;
        here =
            ap (λ (x : Backend F). x.vk_ctx) (imported answers b l.ctx l.here)
            ∙ ap (λ (x : Context × ℕ). some x.0) (round_full answers fd size l.ctx all);
        leading = all;
      }

  -- What comes after the bypass in a round keeps the handles that are taken.
  round-Leads :
      (r : Round F) (n : ℕ) (b : Backend F)
      → All Keeps r.requests
      → Leads n (set_zero_copy_bypass r.import true (some fd) size b)
      → Leads n (round to_algo fd size r b)
  round-Leads r n b keeps l =
      let h = round-Has to_algo fd size r l.ctx b keeps l.here in
      record { ctx = h.now; here = h.here; leading = λ k p q. h.grown k (l.leading k p q) }

  rounds-Leads :
      (rs : List (Round F)) (n : ℕ) (b : Backend F)
      → All Fills rs
      → 255 ≤ n + length rs
      → n ≤ 255
      → Leads n b
      → Leads 255 (rounds to_algo fd size rs b)
  unfolding rounds
  rounds-Leads [] n b All.nil p q l = record {
    ctx = l.ctx;
    here = l.here;
    leading = λ k r s. l.leading k r (omega arith);
  }
  rounds-Leads (r ∷ rs) n b (All.cons f fs) p q l = elim (dec_lt n 255) [
    | yes y ↦
        rounds-Leads rs (suc n) _ fs (omega arith) (omega arith)
          (round-Leads r (suc n) b f.keeps (taken r.import n b f.succeeds y l))
    | no y ↦
        rounds-Leads rs 255 _ fs (omega arith) (omega arith)
          (round-Leads r 255 b f.keeps (still r.import n b (omega arith) l))
  ]

  none_given :
      (answers : Answers) (wanted : ℕ) (b : Backend F)
      → Leads 255 b
      → (allocate answers wanted b).1 ≡ 0
  unfolding allocate allocate_on allocate_buffer
  none_given answers wanted b l =
      ap (λ (o : Option Context). (allocate_on o answers wanted b).1) l.here
      ∙ ap (λ (x : Context × ℕ). x.1)
          (allocate_at-none answers wanted l.ctx (none_left l.ctx l.leading))

  -- A backend has a context, and the bypass is on. 255 or more rounds of the worker's loop, in each of
  -- which the driver gives a buffer and a memory to the import and no plugin frees a buffer, use up
  -- the pool, whatever it held and whatever else they serve: after them the bypass has no buffer, so
  -- that frames no longer go without a copy, and a plugin that asks for a buffer is given none.
  pub bypass_exhausts :
      (rs : List (Round F)) (b : Backend F) (ctx : Context)
      → All Fills rs
      → 255 ≤ length rs
      → b.vk_ctx ≡ some ctx
      → (answers : Answers) (wanted : ℕ)
      → (let b' = rounds to_algo fd size rs b in
          ((set_zero_copy_bypass answers true (some fd) size b').shm_buffer_handle ≡ 0)
          × ((allocate answers wanted b').1 ≡ 0))
  bypass_exhausts rs b ctx s p e answers wanted =
      let b' = rounds to_algo fd size rs b in
      let l =
        rounds-Leads rs 0 b s (omega arith) (omega arith)
          record { ctx = ctx; here = e; leading = λ k r t. absurd (omega arith) } in
      (
        ap (λ (x : Backend F). x.shm_buffer_handle) (imported answers b' l.ctx l.here)
            ∙ ap (λ (x : Context × ℕ). x.1) (round_full answers fd size l.ctx l.leading),
        none_given answers wanted b' l,
      )
