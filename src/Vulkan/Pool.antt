-- ===== src/Vulkan/Pool.antt =====
-- daemon/vulkan/vulkan_compute.c: which handles the pool gives out, and what it keeps.
use linux_opensource_univers.Prelude.{
  ◌==◌, if_true, if_false, ==→eq, Bool-cases, if_both, update_here, update_else, ℕ, ◌+◌, ◌<◌, ◌≡◌,
  refl, sym, ap, ◌∙◌, ◌≢◌, ◌⊎◌, inl, inr, Bool, true, false, Option, none, some, arith, ℕ_discrete,
}
use linux_opensource_univers.Vulkan.{
  Buffer, Context, allocate_typed, allocate_created, release, upload_buffer, Answers,
  allocate_buffer, allocate_at, free_buffer, refused, fill, choose_type, create, bind, pool_size,
}
use linux_opensource_univers.Vulkan.Search.{Taken, Found, free_slot-Found}

-- A buffer has been given out: the first handle that was free, by a driver that gave all it was asked.
pub record Given (answers : Answers) (ctx : Context) (size : ℕ) (ctx' : Context) (h : ℕ)
    : Type 0 where
  pub buffer : ℕ
  pub type : ℕ
  pub memory : ℕ
  pub created : answers.created ≡ some buffer
  pub fits : choose_type answers ctx ≡ some type
  pub allocated : answers.allocated ≡ some memory
  pub above : 0 < h
  pub below : h < pool_size
  pub first : Taken ctx.user_buffers 1 h
  pub was_free : (ctx.user_buffers h).active ≡ false
  pub is_taken : (ctx'.user_buffers h).active ≡ true
  pub its_size : (ctx'.user_buffers h).size ≡ size
  pub its_buffer : (ctx'.user_buffers h).buffer ≡ buffer
  pub its_memory : (ctx'.user_buffers h).memory ≡ memory
  pub others : (k : ℕ) → k ≢ h → ctx'.user_buffers k ≡ ctx.user_buffers k
  pub one_buffer : ctx'.live_buffers ≡ ctx.live_buffers + 1
  pub one_memory : ctx'.live_memories ≡ ctx.live_memories + 1

-- The same handles are taken as before, and of the driver `left` buffers more are alive, and no
-- memory.
pub record Kept (left : ℕ) (ctx ctx' : Context) : Type 0 where
  pub same_taken : (k : ℕ) → (ctx'.user_buffers k).active ≡ (ctx.user_buffers k).active
  pub memories : ctx'.live_memories ≡ ctx.live_memories
  pub buffers : ctx'.live_buffers ≡ ctx.live_buffers + left

-- None has, and why; a buffer of the driver is left over where no memory type fits.
pub data Denied (answers : Answers) (ctx ctx' : Context) (h : ℕ) : Type 0 where
  all_taken : h ≡ 0 → Taken ctx.user_buffers 1 pool_size → ctx' ≡ ctx → Denied answers ctx ctx' h
  no_buffer : h ≡ 0 → answers.created ≡ none → ctx' ≡ ctx → Denied answers ctx ctx' h
  no_type :
      (b : ℕ)
      → h ≡ 0
      → answers.created ≡ some b
      → choose_type answers ctx ≡ none
      → Kept 1 ctx ctx'
      → Denied answers ctx ctx' h
  no_memory :
      (b i : ℕ)
      → h ≡ 0
      → answers.created ≡ some b
      → choose_type answers ctx ≡ some i
      → answers.allocated ≡ none
      → Kept 0 ctx ctx'
      → Denied answers ctx ctx' h

abbrev Outcome : Answers → ℕ → Context → Context × ℕ → Type 0
Outcome answers size ctx r = Given answers ctx size r.0 r.1 ⊎ Denied answers ctx r.0 r.1

create_active :
    (h b : ℕ) (ctx : Context) (k : ℕ)
    → ((create h b ctx).user_buffers k).active ≡ (ctx.user_buffers k).active
create_active h b ctx k = elim (ℕ_discrete k h) [
  | yes e ↦
      ap (λ (x : Buffer). x.active)
        (update_here ctx.user_buffers (record (ctx.user_buffers h) { buffer = b }) e)
      ∙ ap (λ (x : ℕ). (ctx.user_buffers x).active) (sym e)
  | no n ↦
      ap (λ (x : Buffer). x.active)
        (update_else ctx.user_buffers (record (ctx.user_buffers h) { buffer = b }) n)
]

-- The slot `h` is the first that is free.
record Free (ctx : Context) (h : ℕ) : Type 0 where
  pub above : 0 < h
  pub below : h < pool_size
  pub inactive : (ctx.user_buffers h).active ≡ false
  pub first : Taken ctx.user_buffers 1 h

given :
    (answers : Answers) (size h b i m : ℕ) (ctx : Context)
    → Free ctx h
    → answers.created ≡ some b
    → choose_type answers ctx ≡ some i
    → answers.allocated ≡ some m
    → Given answers ctx size (bind h m size (create h b ctx)) h
given answers size h b i m ctx slot created fits allocated =
    let c : Context = create h b ctx in
    let new : Buffer = record (c.user_buffers h) { memory = m; size = size; active = true } in
    let here = update_here c.user_buffers {i = h} {j = h} new refl in
    let old : Buffer = record (ctx.user_buffers h) { buffer = b } in
    record {
      buffer = b;
      type = i;
      memory = m;
      created = created;
      fits = fits;
      allocated = allocated;
      above = slot.above;
      below = slot.below;
      first = slot.first;
      was_free = slot.inactive;
      is_taken = ap (λ (x : Buffer). x.active) here;
      its_size = ap (λ (x : Buffer). x.size) here;
      its_buffer =
          ap (λ (x : Buffer). x.buffer) here
          ∙ ap (λ (x : Buffer). x.buffer) (update_here ctx.user_buffers {i = h} {j = h} old refl);
      its_memory = ap (λ (x : Buffer). x.memory) here;
      others = λ k n. update_else c.user_buffers new n ∙ update_else ctx.user_buffers old n;
      one_buffer = refl;
      one_memory = refl;
    }

typed-Outcome :
    (type allocated : Option ℕ) (answers : Answers) (size b h : ℕ) (ctx : Context)
    → Free ctx h
    → answers.created ≡ some b
    → choose_type answers ctx ≡ type
    → answers.allocated ≡ allocated
    → Outcome answers size ctx (allocate_typed type allocated size h (create h b ctx))
unfolding allocate_typed fill
typed-Outcome none allocated answers size b h ctx slot c e a = inr (
    Denied.no_type b refl c e
      record { same_taken = create_active h b ctx; memories = refl; buffers = refl })
typed-Outcome (some i) none answers size b h ctx slot c e a = inr (
    Denied.no_memory b i refl c e a
      record { same_taken = create_active h b ctx; memories = refl; buffers = omega arith })
typed-Outcome (some i) (some m) answers size b h ctx slot c e a =
    inl (given answers size h b i m ctx slot c e a)

created-Outcome :
    (created : Option ℕ) (answers : Answers) (size h : ℕ) (ctx : Context)
    → Free ctx h
    → answers.created ≡ created
    → Outcome answers size ctx (allocate_created created answers size h ctx)
unfolding allocate_created
created-Outcome none answers size h ctx slot c = inr (Denied.no_buffer refl c refl)
created-Outcome (some b) answers size h ctx slot c =
    typed-Outcome (choose_type answers ctx) answers.allocated answers size b h ctx slot c refl refl

allocate_at-Outcome :
    (answers : Answers) (size : ℕ) {h : ℕ} (ctx : Context)
    → Found ctx.user_buffers 255 1 h
    → Outcome answers size ctx (allocate_at answers size h ctx)
unfolding allocate_at
allocate_at-Outcome answers size ctx (Found.full all) = inr (Denied.all_taken refl all refl)
allocate_at-Outcome answers size {h = h} ctx (Found.free p q f all) =
    if_both (Outcome answers size ctx) (h == 0) (λ y. absurd (omega (arith, ==→eq h 0 y, p)))
      (λ _.
        created-Outcome answers.created answers size h ctx
          record { above = p; below = q; inactive = f; first = all } refl)

-- An allocation gives out the first handle that is free, of the size asked for, with the buffer and
-- the memory that the driver gave, and touches no other slot. It gives 0 exactly when all the handles from 1
-- to 255 are taken, or the driver gives no buffer, has no memory type that fits, or gives no
-- memory, and then no handle changes hands. Of the driver's objects it then keeps none, but for
-- the buffer that it leaves when no memory type fits.
pub allocate_outcome :
    (answers : Answers) (size : ℕ) (ctx : Context)
    → (let (ctx', h) = allocate_buffer answers size ctx in
        Given answers ctx size ctx' h ⊎ Denied answers ctx ctx' h)
unfolding allocate_buffer
allocate_outcome answers size ctx = allocate_at-Outcome answers size ctx (free_slot-Found ctx)

again : (h : ℕ) (ctx : Context) → refused h ctx ≡ true → free_buffer h ctx ≡ ctx
unfolding free_buffer
again h ctx y = if_true _ _ y

released_slot : (h : ℕ) (ctx : Context) → ((release h ctx).user_buffers h).active ≡ false
released_slot h ctx =
    ap (λ (b : Buffer). b.active)
      (update_here ctx.user_buffers {i = h} {j = h} (record (ctx.user_buffers h) { active = false })
        refl)

refused_inactive :
    (h : ℕ) (ctx : Context) → (ctx.user_buffers h).active ≡ false → refused h ctx ≡ true
unfolding refused
refused_inactive h ctx e = rw (e, refused) (ground arith)

active-refused :
    (h : ℕ) (ctx : Context)
    → 0 < h
    → h < pool_size
    → refused h ctx ≡ true
    → (ctx.user_buffers h).active ≡ false
unfolding refused
active-refused h ctx p q e = ground arith

free_buffer_cases :
    (h : ℕ) (ctx : Context)
    → ((refused h ctx ≡ true) × (free_buffer h ctx ≡ ctx)) ⊎ (free_buffer h ctx ≡ release h ctx)
unfolding free_buffer
free_buffer_cases h ctx = elim (Bool-cases (refused h ctx)) [
  | inl y ↦ inl (y, if_true ctx (release h ctx) y)
  | inr n ↦ inr (if_false ctx (release h ctx) n)
]

refused-free_buffer : (h : ℕ) (ctx : Context) → refused h (free_buffer h ctx) ≡ true
refused-free_buffer h ctx = elim (free_buffer_cases h ctx) [
  | inl (y, e) ↦ rw e y
  | inr e ↦ rw e (refused_inactive h (release h ctx) (released_slot h ctx))
]

free_buffer-else :
    (h : ℕ) (ctx : Context) (k : ℕ)
    → k ≢ h
    → (free_buffer h ctx).user_buffers k ≡ ctx.user_buffers k
free_buffer-else h ctx k n = elim (free_buffer_cases h ctx) [
  | inl (y, e) ↦ rw e refl
  | inr e ↦ rw e (update_else ctx.user_buffers (record (ctx.user_buffers h) { active = false }) n)
]

-- After `free_buffer` the slot of a handle is free and the others are as they were; a second call
-- changes nothing, and `upload_buffer` refuses the handle.
pub free_outcome :
    (mapped : Bool) (h : ℕ) (ctx : Context)
    → 0 < h
    → h < pool_size
    → (let ctx' = free_buffer h ctx in
        ((ctx'.user_buffers h).active ≡ false)
        × ((k : ℕ) → k ≢ h → ctx'.user_buffers k ≡ ctx.user_buffers k)
        × (free_buffer h ctx' ≡ ctx')
        × (upload_buffer mapped h ctx' ≡ none))
unfolding upload_buffer
free_outcome mapped h ctx p q =
    let no = refused-free_buffer h ctx in
    (
      active-refused h (free_buffer h ctx) p q no,
      free_buffer-else h ctx,
      again h (free_buffer h ctx) no,
      if_true _ _ no,
    )
