-- ===== src/Supervisor/Target.antt =====
-- daemon/pipewire/module-dsp-accel.cpp: which worker a plugin gets, as the one at the place of its type.
use linux_opensource_univers.Prelude.{
  ◌==◌, if◌then◌else◌, if_false, eq→==, ne→==_false, get_elem?, ℕ, zero, suc, ◌+◌, ◌<◌, ◌≡◌, refl,
  ap, ◌∙◌, Bool, true, false, ◌&&◌, Option, none, some, List, [], ◌∷◌, arith,
}
use linux_opensource_univers.Supervisor.{
  ComputeNode, Granted, granted, find_target, on_plugin_connection,
}

module _ {F : Type 0} where
  -- The worker, if there is one and it is active
  abbrev pub if_active : Option (ComputeNode F) → Option (ComputeNode F)
  if_active none = none
  if_active (some n) = if n.is_active then some n else none

  abbrev pub granted_of : Option (ComputeNode F) → Option Granted
  granted_of none = none
  granted_of (some n) = some (granted n)

  find_target_past :
      (wl_type i : ℕ) (ns : List (ComputeNode F)) → wl_type < i → find_target wl_type i ns ≡ none
  unfolding find_target
  find_target_past wl_type i [] h = refl
  find_target_past wl_type i (n ∷ ns) h =
      if_false _ _ (ap (λ (b : Bool). b && n.is_active) (ne→==_false i wl_type (omega arith)))
      ∙ find_target_past wl_type (i + 1) ns (omega arith)

  find_target_at :
      (k i : ℕ) (ns : List (ComputeNode F)) → find_target (i + k) i ns ≡ if_active (get_elem? ns k)
  unfolding find_target
  find_target_at k i [] = refl
  find_target_at zero i (n ∷ ns) =
      let here : (i == i + 0 && n.is_active) ≡ n.is_active =
        ap (λ (b : Bool). b && n.is_active) (eq→== i (i + 0) (omega arith)) in
      ap (λ (b : Bool). if b then some n else find_target (i + 0) (i + 1) ns) here
      ∙ ap (λ (o : Option (ComputeNode F)). if n.is_active then some n else o)
          (find_target_past (i + 0) (i + 1) ns (omega arith))
  find_target_at (suc k) i (n ∷ ns) =
      let further : (i == i + suc k) ≡ false = ne→==_false i (i + suc k) (omega arith) in
      let next : i + suc k ≡ i + 1 + k = omega arith in
      if_false _ _ (ap (λ (b : Bool). b && n.is_active) further)
      ∙ ap (λ (w : ℕ). find_target w (i + 1) ns) next
      ∙ find_target_at k (i + 1) ns

  -- A plugin of the type `wl_type` that is answered is granted the worker at that place, if it is
  -- active, and else nothing.
  pub on_plugin_connection_lem :
      (wl_type : ℕ) (ns : List (ComputeNode F))
      → on_plugin_connection (some wl_type) true ns ≡ granted_of (if_active (get_elem? ns wl_type))
  unfolding on_plugin_connection
  on_plugin_connection_lem wl_type ns =
      go (find_target wl_type 0 ns)
      ∙ ap granted_of
          (ap (λ (w : ℕ). find_target w 0 ns) (omega arith) ∙ find_target_at wl_type 0 ns)
    where
      go :
          (o : Option (ComputeNode F))
          → (elim o [ none ↦ none | some n ↦ if true then some (granted n) else none ])
            ≡ granted_of o
      go none = refl
      go (some n) = refl
