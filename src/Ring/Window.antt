-- ===== src/Ring/Window.antt =====
-- The items that a ring holds, oldest first, and what moving an end of it does to them.
use native.Mathlib.Nat.{mod_self, mod-add-mod, mod-eq_of_lt, mod-eq-sub-mod, add-zero}
use linux_opensource_univers.Prelude.{
  length, update, ℕ, zero, suc, ◌+◌, ◌-◌, ◌%◌, ◌^◌, ◌≤◌, ◌<◌, ◌≡◌, refl, sym, ap, ap₂, ◌∙◌, ◌≢◌,
  ◌↔◌, ◌⊎◌, inl, inr, List, [], ◌∷◌, ◌++◌, arith, dec_lt, dec_le,
}
use linux_opensource_univers.Ring.{Ring, next}

-- How far `tail` is ahead of `head`, going round at `cap`.
abbrev pub span : ℕ → ℕ → ℕ → ℕ
span cap head tail = (tail + cap - head) % cap

module _ {A : Type 0} (slot : ℕ → A) (cap : ℕ) where
  abbrev pub window : ℕ → ℕ → List A
  window h zero = []
  window h (suc n) = slot h ∷ window (next cap h) n

  pub length-window : (h n : ℕ) → length (window h n) ≡ n
  length-window h zero = refl
  length-window h (suc n) = ap suc (length-window (next cap h) n)

abbrev pub contents : {A : Type 0} → ℕ → Ring A → List A
contents cap r = window r.slot cap r.head (span cap r.head r.tail)

-- Both indices lie in the array, and the capacity is a `size_t`.
pub record IsValid {A : Type 0} (cap : ℕ) (r : Ring A) : Type 0 where
  pub some_room : 0 < cap
  pub small : cap < 2 ^ 64
  pub head_in : r.head < cap
  pub tail_in : r.tail < cap

-- `(i + 1) % Capacity` goes up by one, and back to 0 at the end.
pub next_cases :
    (cap i : ℕ)
    → cap < 2 ^ 64
    → i < cap
    → ((next cap i ≡ i + 1) × (i + 1 < cap)) ⊎ ((next cap i ≡ 0) × (i + 1 ≡ cap))
next_cases cap i s h =
    let small : (i + 1) % 2 ^ 64 ≡ i + 1 = mod-eq_of_lt {n = i + 1} {m = 2 ^ 64} (omega arith) in
    elim (dec_lt (i + 1) cap) [
      | yes p ↦ inl (rw (small, mod-eq_of_lt p), p)
      | no p ↦ let e : i + 1 ≡ cap = omega arith in inr (rw (small, e) (mod_self cap), e)
    ]

pub next_lt : (cap i : ℕ) → cap < 2 ^ 64 → i < cap → next cap i < cap
next_lt cap i s h = grind (arith, next_cases cap i s h)

pub span_cases :
    (cap h t : ℕ)
    → h < cap
    → t < cap
    → ((h ≤ t) × (span cap h t + h ≡ t)) ⊎ ((t < h) × (span cap h t + h ≡ t + cap))
span_cases cap h t p q = elim (dec_lt t h) [
  | yes b ↦ inr (b, omega (arith, mod-eq_of_lt {n = t + cap - h} {m = cap} (omega arith)))
  | no b ↦ inl (
    omega arith,
    omega (
      arith,
      mod-eq-sub-mod {n = t + cap - h} {m = cap} (omega arith),
      mod-eq_of_lt {n = t + cap - h - cap} {m = cap} (omega arith),
    ),
  )
]

module _ (cap h t : ℕ) (s : cap < 2 ^ 64) (p : h < cap) (q : t < cap) where
  pub span_lt : span cap h t < cap
  span_lt = omega (arith, span_cases cap h t p q)

  pub span_zero_iff : (span cap h t ≡ 0) ↔ (h ≡ t)
  span_zero_iff =
      (λ e. omega (arith, span_cases cap h t p q), λ e. omega (arith, span_cases cap h t p q))

  pub span_pos : h ≢ t → 0 < span cap h t
  span_pos ne = omega (arith, span_cases cap h t p q)

  pub ne_of_span_pos : 0 < span cap h t → h ≢ t
  ne_of_span_pos above = omega (arith, span_cases cap h t p q)

  -- Moving `tail` on, short of `head`, makes the span longer by one.
  pub span-next_tail : next cap t ≢ h → span cap h (next cap t) ≡ span cap h t + 1
  span-next_tail ne = omega (
    arith,
    span_cases cap h t p q,
    next_cases cap t s q,
    span_cases cap h (next cap t) p (next_lt cap t s q),
  )

  -- `tail` stops just behind `head` when one slot is left.
  pub span_full : next cap t ≡ h → span cap h t + 1 ≡ cap
  span_full e = omega (arith, span_cases cap h t p q, next_cases cap t s q)

  pub span_not_full : next cap t ≢ h → span cap h t + 1 < cap
  span_not_full ne = omega (arith, span_cases cap h t p q, next_cases cap t s q)

  pub span_not_full_conv : span cap h t + 1 < cap → next cap t ≢ h
  span_not_full_conv lt e = omega (arith, span_full e)

  -- Moving `head` on, short of `tail`, makes it shorter by one.
  pub span-next_head : h ≢ t → span cap h t ≡ suc (span cap (next cap h) t)
  span-next_head ne = omega (
    arith,
    span_cases cap h t p q,
    next_cases cap h s p,
    span_cases cap (next cap h) t (next_lt cap h s p) q,
  )

  pub tail_lem : t ≡ (h + span cap h t) % cap
  tail_lem = elim (span_cases cap h t p q) [
    | inl (le, e) ↦ omega (arith, mod-eq_of_lt {n = h + span cap h t} {m = cap} (omega arith))
    | inr (lt, e) ↦ omega (
      arith,
      mod-eq-sub-mod {n = h + span cap h t} {m = cap} (omega arith),
      mod-eq_of_lt {n = h + span cap h t - cap} {m = cap} (omega arith),
    )
  ]

-- A walk round the ring that is shorter than the ring ends elsewhere.
walk_elsewhere : (cap h n : ℕ) → h < cap → n < cap → 0 < n → (h + n) % cap ≢ h
walk_elsewhere cap h n p q r same = elim (dec_le cap (h + n)) [
  | yes far ↦
      let back : (h + n) % cap ≡ h + n - cap =
        mod-eq-sub-mod {n = h + n} {m = cap} far ∙ mod-eq_of_lt (omega arith) in
      omega (arith, back, same)
  | no near ↦ omega (arith, mod-eq_of_lt {n = h + n} {m = cap} (omega arith), same)
]

pub next-add : (cap h n : ℕ) → cap < 2 ^ 64 → h < cap → (next cap h + n) % cap ≡ (h + suc n) % cap
next-add cap h n s p =
    rw (mod-eq_of_lt {n = h + 1} {m = 2 ^ 64} (omega arith), mod-add-mod)
      (ap (λ k. k % cap) (omega arith))

module _ {A : Type 0} (slot : ℕ → A) (cap : ℕ) (x : A) (s : cap < 2 ^ 64) where
  -- A write just past a window extends it by that item.
  pub window-snoc :
      (n h i : ℕ)
      → h < cap
      → n < cap
      → i ≡ (h + n) % cap
      → window (update slot i x) cap h (suc n) ≡ window slot cap h n ++ x ∷ []
  window-snoc zero h i p q e =
      let at : i ≡ h = e ∙ ap (λ k. k % cap) (add-zero h) ∙ mod-eq_of_lt p in ground arith
  window-snoc (suc n) h i p q e =
      let ne : h ≢ i = λ same. walk_elsewhere cap h _ p q (omega arith) (sym e ∙ sym same) in
      ap₂ ◌∷◌ (ground arith) (
        window-snoc n (next cap h) i (next_lt cap h s p) (omega arith)
          (e ∙ sym (next-add cap h n s p)))

  -- A write past the end of a window, and not all the way round, leaves it alone.
  pub window-update :
      (n m h i : ℕ)
      → h < cap
      → n ≤ m
      → m < cap
      → i ≡ (h + m) % cap
      → window (update slot i x) cap h n ≡ window slot cap h n
  window-update zero m h i p le q e = refl
  window-update (suc n) zero h i p le q e = absurd (omega arith)
  window-update (suc n) (suc m) h i p le q e =
      let ne : h ≢ i = λ same. walk_elsewhere cap h _ p q (omega arith) (sym e ∙ sym same) in
      ap₂ ◌∷◌ (ground arith) (
        window-update n m (next cap h) i (next_lt cap h s p) (omega arith) (omega arith)
          (e ∙ sym (next-add cap h m s p)))

-- The last item of a window stands just before its end.
pub window-last :
    {A : Type 0} (slot : ℕ → A) (cap : ℕ)
    → cap < 2 ^ 64
    → (n h i : ℕ) → h < cap
    → n < cap
    → i ≡ (h + n) % cap
    → window slot cap h (suc n) ≡ window slot cap h n ++ slot i ∷ []
window-last slot cap s zero h i p q e =
    let at : i ≡ h = e ∙ ap (λ k. k % cap) (add-zero h) ∙ mod-eq_of_lt p in ground arith
window-last slot cap s (suc n) h i p q e = ap (◌∷◌ (slot h)) (
    window-last slot cap s n (next cap h) i (next_lt cap h s p) (omega arith)
      (e ∙ sym (next-add cap h n s p)))
