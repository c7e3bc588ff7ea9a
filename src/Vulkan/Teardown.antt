-- ===== src/Vulkan/Teardown.antt =====
-- daemon/vulkan/vulkan_compute.c: what the set-up leaves behind when it fails, and when the context is
-- destroyed.
mod Tests
use linux_opensource_univers.Prelude.{
  if◌then◌else◌, ℤ, ℕ, ◌+◌, ◌-◌, ◌≡◌, refl, sym, ◌⊎◌, inl, inr, Bool, true, false, Option, none,
  some, arith,
}
use linux_opensource_univers.Vulkan.Setup.{
  Driver, Handles, zeroed, made, gone, pick, logical, find_family, destroy_device, destroy_context,
  load, prepare, select, boot, init_context,
}

-- The set-up gives a context of the device that was asked for, and `destroy` takes its objects away.
pub record Ready (k : Driver) (index : ℤ) (live : ℕ) (r : Option Handles × ℕ) : Type 0 where
  pub ctx : Handles
  pub given : r.0 ≡ some ctx
  pub which : ℕ
  pub in_bounds : pick k.devices index ≡ some which
  pub chosen : ctx.physical_device ≡ some which
  pub has_device : ctx.device ≡ logical k.realtime_device k.plain_device
  pub taken_away : destroy_context ctx r.1 ≡ live

-- It gives none, since something that it needs is missing, and no object is left over.
pub record Failed (k : Driver) (index : ℤ) (live : ℕ) (r : Option Handles × ℕ) : Type 0 where
  pub missing :
      (k.allocates ≡ false)
      ⊎ ((k.made_instance ≡ none)
          ⊎ ((pick k.devices index ≡ none) ⊎ (logical k.realtime_device k.plain_device ≡ none)))
  pub no_context : r.0 ≡ none
  pub same_live : r.1 ≡ live

abbrev pub Ended : Driver → ℤ → ℕ → Option Handles × ℕ → Type 0
Ended k index live r = Ready k index live r ⊎ Failed k index live r

count : Option ℕ → ℕ
count none = 0
count (some x) = 1

made_lem : (x : Option ℕ) (live : ℕ) → made x live ≡ live + count x
unfolding made count
made_lem none live = omega arith
made_lem (some x) live = refl

gone_lem : (x : Option ℕ) (live : ℕ) → gone x live ≡ live - count x
unfolding gone count
gone_lem none live = omega arith
gone_lem (some x) live = refl

-- What is created is destroyed.
balanced :
    (pool set_layout descriptors pipeline shader layout : Option ℕ) (v i live : ℕ)
    → gone (some i) (
        gone (some v) (
          gone pool (
            gone set_layout (
              gone descriptors (
                gone pipeline (
                  gone shader (
                    gone layout (
                      made descriptors (
                        made set_layout (
                          made pipeline
                            (made layout (made shader (made pool (live + 1 + 1))))))))))))))
      ≡ live
unfolding count
balanced pool set_layout descriptors pipeline shader layout v i live =
    let a : ℕ = made pool (live + 1 + 1) in
    let b : ℕ = made shader a in
    let c : ℕ = made layout b in
    let d : ℕ = made pipeline c in
    let e : ℕ = made set_layout d in
    let f : ℕ = made descriptors e in
    let g : ℕ = gone layout f in
    let h : ℕ = gone shader g in
    let j : ℕ = gone pipeline h in
    let l : ℕ = gone descriptors j in
    let m : ℕ = gone set_layout l in
    let n : ℕ = gone pool m in
    omega (
      arith,
      made_lem pool (live + 1 + 1),
      made_lem shader a,
      made_lem layout b,
      made_lem pipeline c,
      made_lem set_layout d,
      made_lem descriptors e,
      gone_lem layout f,
      gone_lem shader g,
      gone_lem pipeline h,
      gone_lem descriptors j,
      gone_lem set_layout l,
      gone_lem pool m,
      gone_lem (some v) n,
      gone_lem (some i) (gone (some v) n),
    )

pool_balanced :
    (pool : Option ℕ) (v i live : ℕ)
    → gone (some i) (gone (some v) (gone pool (made pool (live + 1 + 1)))) ≡ live
unfolding gone made
pool_balanced none v i live = omega arith
pool_balanced (some x) v i live = omega arith

abbrev with_instance : ℕ → Handles
with_instance i = record zeroed { vk_instance = some i }

load-Ended :
    (reads : Bool) (k : Driver) (index : ℤ) (i p v live : ℕ)
    → pick k.devices index ≡ some p
    → logical k.realtime_device k.plain_device ≡ some v
    → Ended k index live (
        load reads k
          (record (with_instance i) {
            physical_device = some p;
            queue_family_index = find_family k.families 0;
            device = some v;
            command_pool = k.made_command_pool;
          })
          (made k.made_command_pool (live + 1 + 1)))
unfolding load destroy_context destroy_device gone
load-Ended false k index i p v live e f = inl record {
  ctx = _;
  given = refl;
  which = p;
  in_bounds = e;
  chosen = refl;
  has_device = sym f;
  taken_away = pool_balanced k.made_command_pool v i live;
}
load-Ended true k index i p v live e f = inl record {
  ctx = _;
  given = refl;
  which = p;
  in_bounds = e;
  chosen = refl;
  has_device = sym f;
  taken_away =
      balanced k.made_command_pool k.made_set_layout k.made_descriptor_pool k.made_pipeline
        k.made_shader k.made_layout v i live;
}

prepare-Ended :
    (device : Option ℕ) (k : Driver) (index : ℤ) (i p live : ℕ)
    → pick k.devices index ≡ some p
    → logical k.realtime_device k.plain_device ≡ device
    → Ended k index live (
        prepare device k
          (record (with_instance i) {
            physical_device = some p;
            queue_family_index = find_family k.families 0;
          })
          (live + 1))
unfolding prepare destroy_context destroy_device gone
prepare-Ended none k index i p live e f =
    inr record { missing = inr (inr (inr f)); no_context = refl; same_live = omega arith }
prepare-Ended (some v) k index i p live e f = load-Ended k.reads_shader k index i p v live e f

select-Ended :
    (device : Option ℕ) (k : Driver) (index : ℤ) (i live : ℕ)
    → pick k.devices index ≡ device
    → Ended k index live (select device k (with_instance i) (live + 1))
unfolding select destroy_context destroy_device gone
select-Ended none k index i live e =
    inr record { missing = inr (inr (inl e)); no_context = refl; same_live = omega arith }
select-Ended (some p) k index i live e =
    prepare-Ended (logical k.realtime_device k.plain_device) k index i p live e refl

boot-Ended :
    (made_instance : Option ℕ) (k : Driver) (index : ℤ) (live : ℕ)
    → k.made_instance ≡ made_instance
    → Ended k index live (boot made_instance k index live)
unfolding boot
boot-Ended none k index live e =
    inr record { missing = inr (inl e); no_context = refl; same_live = refl }
boot-Ended (some i) k index live e = select-Ended (pick k.devices index) k index i live refl

allocated-Ended :
    (allocates : Bool) (k : Driver) (index : ℤ) (live : ℕ)
    → k.allocates ≡ allocates
    → Ended k index live (if allocates then boot k.made_instance k index live else (none, live))
allocated-Ended false k index live e =
    inr record { missing = inl e; no_context = refl; same_live = refl }
allocated-Ended true k index live e = boot-Ended k.made_instance k index live refl

-- Whatever the driver answers, `dsp_vulkan_init` does one of two things. It gives a context with the
-- device that the index designates and the logical device that the driver gave, and destroying that
-- context leaves as many objects of the driver as before the call. Or it gives none, where memory, an
-- instance, a device at the index or a logical device is missing, and has left as many objects as
-- before.
pub setup_leaves_nothing :
    (k : Driver) (index : ℤ) (live : ℕ) → Ended k index live (init_context k index live)
unfolding init_context
setup_leaves_nothing k index live = allocated-Ended k.allocates k index live refl
