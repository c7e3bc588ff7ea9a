-- ===== src/Plugin/Halved.antt =====
-- clap/plugin_example/src/plugin.cpp: what the loops on the CPU make of the outputs.
use linux_opensource_univers.Prelude.{
  ltb, if◌then◌else◌, if_true, if_false, ltb→lt, lt→ltb, ltb_false→le, Bool-cases, update,
  update_here, update_else, Region, ℕ, zero, suc, ◌+◌, ◌≤◌, ◌<◌, ◌≡◌, refl, sym, ap, ◌∙◌, ◌⊎◌, inl,
  inr, Option, none, some, List, [], ◌∷◌, arith, ℕ_discrete,
}
use mathlib.Core.Path.{subst}
use linux_opensource_univers.Floats.{Floats}
use linux_opensource_univers.Plugin.{head_of, tail_of, sample, put, fill, fill_channels, fall_back}

-- Every buffer has room for `n` samples.
abbrev pub Roomy : {F : Type 0} → ℕ → List (Region F) → Type 0
Roomy n [] = Unit
Roomy n (b ∷ bufs) = (n ≤ b.size) × Roomy n bufs

abbrev pub AllRoomy : {F : Type 0} → ℕ → List (List (Region F)) → Type 0
AllRoomy n [] = Unit
AllRoomy n (port ∷ ports) = Roomy n port × AllRoomy n ports

abbrev HasRoom : {F : Type 0} → ℕ → Option (Region F) → Type 0
HasRoom n none = Unit
HasRoom n (some r) = n ≤ r.size

module _ (fl : Floats) where
  open fl use {Float}

  -- Half of the input, and silence on a channel without one
  abbrev pub half : Option (Region Float) → ℕ → Float
  half none k = fl.literal 0 1
  half (some r) k = fl.mul (r.cell k) (fl.literal 1 2)

  abbrev pub Halved : ℕ → List (Region Float) → List (Region Float) → List (Region Float) → Type 0
  Halved n ins [] outs = outs ≡ []
  Halved n ins (b ∷ bufs) [] = ⊥
  Halved n ins (b ∷ bufs) (o ∷ outs) =
      ((k : ℕ) → o.cell k ≡ (if ltb k n then half (head_of ins) k else b.cell k))
      × Halved n (tail_of ins) bufs outs

  abbrev pub AllHalved :
      ℕ
      → List (List (Region Float))
      → List (List (Region Float))
      → List (List (Region Float))
      → Type 0
  AllHalved n ins [] outs = outs ≡ []
  AllHalved n [] (port ∷ ports) outs = outs ≡ port ∷ ports
  AllHalved n (i ∷ ins) (port ∷ ports) [] = ⊥
  AllHalved n (i ∷ ins) (port ∷ ports) (o ∷ outs) = Halved n i port o × AllHalved n ins ports outs

  sample_lem :
      (from : Option (Region Float)) (n k : ℕ)
      → HasRoom n from
      → k < n
      → sample fl from k ≡ some (half from k)
  unfolding sample
  sample_lem none n k h p = refl
  sample_lem (some r) n k h p = if_true _ _ (lt→ltb k r.size (omega arith))

  put_lem :
      (k : ℕ) (v : Float) (out : Region Float)
      → k < out.size
      → put fl k v out ≡ some (record out { cell = update out.cell k v })
  unfolding put
  put_lem k v out p = if_true _ _ (lt→ltb k out.size p)

  record Filled (n f : ℕ) (from : Option (Region Float)) (out : Region Float) : Type 0 where
    pub result : Region Float
    pub runs : fill fl n f from out ≡ some result
    pub inside : (k : ℕ) → f ≤ k → k < f + n → result.cell k ≡ half from k
    pub outside : (k : ℕ) → (k < f) ⊎ (f + n ≤ k) → result.cell k ≡ out.cell k

  fill_lem :
      (n f : ℕ) (from : Option (Region Float)) (out : Region Float)
      → HasRoom (f + n) from
      → f + n ≤ out.size
      → Filled n f from out
  unfolding fill
  fill_lem zero f from out room h = record {
    result = out;
    runs = refl;
    inside = λ k p q. absurd (omega arith);
    outside = λ k p. refl;
  }
  fill_lem (suc n) f from out room h =
      let v : Float = half from f in
      let out' : Region Float = record out { cell = update out.cell f v } in
      let later =
        fill_lem n (f + 1) from out' (subst (λ (m : ℕ). HasRoom m from) (omega arith) room)
          (omega arith) in
      record {
        result = later.result;
        runs =
            rw (sample_lem from (f + suc n) f room (omega arith))
              (rw (put_lem f v out (omega arith)) later.runs);
        inside = λ k p q. elim (ℕ_discrete k f) [
          | yes e ↦
              later.outside k (inl (omega arith))
              ∙ update_here out.cell v e
              ∙ ap (half from) (sym e)
          | no ne ↦ later.inside k (omega arith) (omega arith)
        ];
        outside = λ k p.
            later.outside k (elim p [ inl q ↦ inl (omega arith) | inr q ↦ inr (omega arith) ])
            ∙ update_else out.cell v (elim p [ inl q ↦ omega arith | inr q ↦ omega arith ]);
      }

  head_room : (n : ℕ) (ins : List (Region Float)) → Roomy n ins → HasRoom n (head_of ins)
  head_room n [] r = tt
  head_room n (i ∷ ins) r = r.0

  tail_room : (n : ℕ) (ins : List (Region Float)) → Roomy n ins → Roomy n (tail_of ins)
  tail_room n [] r = tt
  tail_room n (i ∷ ins) r = r.1

  fill_channels_lem :
      (n : ℕ) (ins bufs : List (Region Float))
      → Roomy n ins
      → Roomy n bufs
      → (outs : List (Region Float)) × (fill_channels fl n ins bufs ≡ some outs)
        × Halved n ins bufs outs
  unfolding fill_channels
  fill_channels_lem n ins [] p q = ([], refl, refl)
  fill_channels_lem n ins (b ∷ bufs) p q =
      let first =
        fill_lem n 0 (head_of ins) b
          (subst (λ (m : ℕ). HasRoom m (head_of ins)) (omega arith) (head_room n ins p))
          (omega (arith, q.0)) in
      let (outs, runs, halved) = fill_channels_lem n (tail_of ins) bufs (tail_room n ins p) q.1 in
      (
        first.result ∷ outs,
        rw (first.runs) (rw runs refl),
        (
          λ k. elim (Bool-cases (ltb k n)) [
            | inl y ↦
                first.inside k (omega arith) (omega (arith, ltb→lt k n y)) ∙ sym (if_true _ _ y)
            | inr no_more ↦
                first.outside k (inr (omega (arith, ltb_false→le k n no_more)))
                ∙ sym (if_false _ _ no_more)
          ],
          halved,
        ),
      )

  pub fall_back_lem :
      (n : ℕ) (ins ports : List (List (Region Float)))
      → AllRoomy n ins
      → AllRoomy n ports
      → (outs : List (List (Region Float))) × (fall_back fl n ins ports ≡ some outs)
        × AllHalved n ins ports outs
  unfolding fall_back
  fall_back_lem n ins [] p q = ([], refl, refl)
  fall_back_lem n [] (port ∷ ports) p q = (port ∷ ports, refl, refl)
  fall_back_lem n (i ∷ ins) (port ∷ ports) p q =
      let (out, runs, halved) = fill_channels_lem n i port p.0 q.0 in
      let (outs, later, all) = fall_back_lem n ins ports p.1 q.1 in
      (out ∷ outs, rw runs (rw later refl), (halved, all))
