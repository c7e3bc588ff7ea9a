-- ===== src/Vulkan/Search.antt =====
-- daemon/vulkan/vulkan_compute.c: the loop that looks for a free slot of the pool.
use linux_opensource_univers.Prelude.{
  Bool-cases, ℕ, zero, suc, ◌+◌, ◌≤◌, ◌<◌, ◌≡◌, sym, ap, ◌∙◌, inl, inr, true, false, arith,
  ℕ_discrete,
}
use linux_opensource_univers.Vulkan.{Buffer, Context, first_free, free_slot}

-- Every slot from `i` to below `j` is taken.
abbrev pub Taken : (ℕ → Buffer) → ℕ → ℕ → Type 0
Taken pool i j = (k : ℕ) → i ≤ k → k < j → (pool k).active ≡ true

-- The loop gives the first slot that is free, or 0 when all are taken.
pub data Found (pool : ℕ → Buffer) (n i : ℕ) : ℕ → Type 0 where
  full : Taken pool i (i + n) → Found pool n i 0
  free : {h : ℕ} → i ≤ h → h < i + n → (pool h).active ≡ false → Taken pool i h → Found pool n i h

extend :
    (pool : ℕ → Buffer) {i : ℕ} (j : ℕ)
    → (pool i).active ≡ true
    → Taken pool (i + 1) j
    → Taken pool i j
extend pool {i = i} j t all k p q = elim (ℕ_discrete i k) [
  | yes e ↦ ap (λ (x : ℕ). (pool x).active) (sym e) ∙ t
  | no n ↦ all k (omega arith) q
]

wider :
    (pool : ℕ → Buffer) {n i h : ℕ}
    → (pool i).active ≡ true
    → Found pool n (i + 1) h
    → Found pool (suc n) i h
wider pool {n = n} {i = i} t (Found.full all) =
    Found.full (λ k p q. extend pool (i + suc n) t (λ k p q. all k p (omega arith)) k p q)
wider pool t (Found.free p q f all) = Found.free (omega arith) (omega arith) f (extend pool _ t all)

first_free-Found : (pool : ℕ → Buffer) (n i : ℕ) → Found pool n i (first_free pool n i)
unfolding first_free
first_free-Found pool zero i = Found.full (λ k p q. absurd (omega arith))
first_free-Found pool (suc n) i = elim (Bool-cases ((pool i).active)) [
  | inr f ↦
      rw (f, first_free) (Found.free (omega arith) (omega arith) f (λ k p q. absurd (omega arith)))
  | inl t ↦ rw (t, first_free) (wider pool t (first_free-Found pool n (i + 1)))
]

pub free_slot-Found : (ctx : Context) → Found ctx.user_buffers 255 1 (free_slot ctx)
unfolding free_slot
free_slot-Found ctx = first_free-Found ctx.user_buffers 255 1
