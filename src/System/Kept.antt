-- ===== src/System/Kept.antt =====
-- sdk/src/dsp_accel_sdk.cpp with daemon/worker.cpp: what each call and each round keeps of the order of the
-- blocks.
use mathlib.Core.Path.{subst}
use linux_opensource_univers.Prelude.{
  nil, cons, All, Subsequence, Subsequence-append, Subsequence-more, Subsequence-trans,
  Subsequence-without, ℕ, ◌≡◌, sym, ap, ap₂, ◌∙◌, inl, inr, Bool, true, false, List, [], ◌∷◌, ◌++◌,
  map, append-nil, append_assoc, map-append,
}
use linux_opensource_univers.Shm.{AudioFrame, SharedMemory, queue_depth}
use linux_opensource_univers.Ring.{Ring}
use linux_opensource_univers.Ring.Window.{IsValid, contents}
use linux_opensource_univers.Sdk.Dispatch.Queued.{Queued}
use linux_opensource_univers.Sdk.Dispatch.Taken.{Taken, Read}
use linux_opensource_univers.Worker.Loop.Output.{Sized}
use linux_opensource_univers.Worker.Loop.Moved.{Moved}
use linux_opensource_univers.Worker.Loop.Rounds.{SameQueues}
use linux_opensource_univers.System.Traffic.{heard}

All-append :
    {A : Type 0} {P : A → Type 0} {xs : List A} {x : A} → All P xs → P x → All P (xs ++ x ∷ [])
All-append nil p = cons p nil
All-append (cons q qs) p = cons q (All-append qs p)

All-rest : {A : Type 0} {P : A → Type 0} {xs : List A} {x : A} → All P (x ∷ xs) → All P xs
All-rest (cons p ps) = ps

module _ {F : Type 0} where
  abbrev pub in_stamps : SharedMemory F → List ℕ
  in_stamps shm = map (λ (f : AudioFrame F). f.timestamp_ns) (contents queue_depth shm.in_queue)

  abbrev pub out_stamps : SharedMemory F → List ℕ
  out_stamps shm = map (λ (f : AudioFrame F). f.timestamp_ns) (contents queue_depth shm.out_queue)

  -- What every step keeps, of the shared memory and of the two histories
  pub record Inv (shm : SharedMemory F) (dispatched delivered : List ℕ) : Type 0 where
    pub in_valid : IsValid queue_depth shm.in_queue
    pub out_valid : IsValid queue_depth shm.out_queue
    pub sizes : All Sized (contents queue_depth shm.in_queue)
    pub order : Subsequence (delivered ++ out_stamps shm ++ in_stamps shm) dispatched

module _ (d o i : List ℕ) (n : ℕ) where
  last_in : d ++ o ++ (i ++ n ∷ []) ≡ d ++ o ++ i ++ n ∷ []
  last_in = sym (append_assoc (d ++ o) i (n ∷ []))

  moved_on : d ++ (o ++ n ∷ []) ++ i ≡ d ++ o ++ (n ∷ i)
  moved_on =
      ap (λ (l : List ℕ). l ++ i) (sym (append_assoc d o (n ∷ [])))
      ∙ append_assoc (d ++ o) (n ∷ []) i

  given : d ++ n ∷ [] ++ o ++ i ≡ d ++ (n ∷ o) ++ i
  given = ap (λ (l : List ℕ). l ++ i) (append_assoc d (n ∷ []) o)

module _ {F : Type 0} {shm shm' : SharedMemory F} {dispatched delivered : List ℕ} where
  pub Queued-Inv :
      {now : ℕ}
      → Queued now shm shm'
      → Inv shm dispatched delivered
      → Inv shm' (dispatched ++ now ∷ []) delivered
  Queued-Inv {now} q inv =
      let stamp : AudioFrame F → ℕ = λ f. f.timestamp_ns in
      let in_is : in_stamps shm' ≡ in_stamps shm ++ now ∷ [] =
        ap (map stamp) q.appended
        ∙ (map-append stamp (contents queue_depth shm.in_queue) (q.frame ∷ [])
            ∙ ap (λ (k : ℕ). in_stamps shm ++ k ∷ []) q.timestamp) in
      let out_is : out_stamps shm' ≡ out_stamps shm =
        ap (λ (r : Ring (AudioFrame F)). map stamp (contents queue_depth r)) q.others in
      record {
        in_valid = q.valid;
        out_valid = subst (IsValid queue_depth) (sym q.others) inv.out_valid;
        sizes =
            subst (All Sized) (sym q.appended) (
              All-append inv.sizes record { frames_in = q.frames_in; channels_in = q.channels_in });
        order =
            subst (λ (l : List ℕ). Subsequence l (dispatched ++ now ∷ []))
              (sym (
                ap₂ (λ (o i : List ℕ). delivered ++ o ++ i) out_is in_is
                ∙ last_in delivered (out_stamps shm) (in_stamps shm) now))
              (Subsequence-append now inv.order);
      }

  pub SameQueues-Inv :
      SameQueues shm shm' → Inv shm dispatched delivered → Inv shm' dispatched delivered
  SameQueues-Inv q inv = record {
    in_valid = subst (IsValid queue_depth) (sym q.same_in) inv.in_valid;
    out_valid = subst (IsValid queue_depth) (sym q.same_out) inv.out_valid;
    sizes =
        subst (λ (r : Ring (AudioFrame F)). All Sized (contents queue_depth r)) (sym q.same_in)
          inv.sizes;
    order =
        subst (λ (l : List ℕ). Subsequence l dispatched)
          (sym (
            ap₂
              (λ (o i : Ring (AudioFrame F)).
                delivered
                ++ map (λ (f : AudioFrame F). f.timestamp_ns) (contents queue_depth o)
                ++ map (λ (f : AudioFrame F). f.timestamp_ns) (contents queue_depth i))
              q.same_out q.same_in))
          inv.order;
  }

  -- The stamps of the queues once the worker has moved a frame on
  pub Moved-Inv : Moved shm shm' → Inv shm dispatched delivered → Inv shm' dispatched delivered
  Moved-Inv m inv =
      let stamp : AudioFrame F → ℕ = λ f. f.timestamp_ns in
      let n = m.frame.timestamp_ns in
      let was : in_stamps shm ≡ n ∷ map stamp m.rest = ap (map stamp) m.oldest in
      let is : in_stamps shm' ≡ map stamp m.rest = ap (map stamp) m.removed in
      let before : Subsequence (delivered ++ out_stamps shm ++ (n ∷ map stamp m.rest)) dispatched =
        subst (λ (l : List ℕ). Subsequence (delivered ++ out_stamps shm ++ l) dispatched) was
          inv.order in
      record {
        in_valid = m.in_valid;
        out_valid = m.out_valid;
        sizes = subst (All Sized) (sym m.removed) (All-rest (subst (All Sized) m.oldest inv.sizes));
        order = elim (m.out) [
          | inl (g, appended, same) ↦
              let out_is : out_stamps shm' ≡ out_stamps shm ++ n ∷ [] =
                ap (map stamp) appended
                ∙ (map-append stamp (contents queue_depth shm.out_queue) (g ∷ [])
                    ∙ ap (λ (k : ℕ). out_stamps shm ++ k ∷ []) same) in
              subst (λ (l : List ℕ). Subsequence l dispatched)
                (sym (
                  ap₂ (λ (o i : List ℕ). delivered ++ o ++ i) out_is is
                  ∙ moved_on delivered (out_stamps shm) (map stamp m.rest) n))
                before
          | inr (same, is_full) ↦
              subst (λ (l : List ℕ). Subsequence l dispatched)
                (sym (ap₂ (λ (o i : List ℕ). delivered ++ o ++ i) (ap (map stamp) same) is))
                (Subsequence-trans before
                  (Subsequence-without (delivered ++ out_stamps shm) n (map stamp m.rest)))
        ];
      }

  Taken-Inv :
      Taken shm shm'
      → Inv shm dispatched delivered
      → Inv shm' dispatched (delivered ++ (shm.out_queue.slot shm.out_queue.head).timestamp_ns ∷ [])
  Taken-Inv t inv =
      let stamp : AudioFrame F → ℕ = λ f. f.timestamp_ns in
      let n = (shm.out_queue.slot shm.out_queue.head).timestamp_ns in
      let was : out_stamps shm ≡ n ∷ map stamp t.rest = ap (map stamp) t.oldest in
      let is : out_stamps shm' ≡ map stamp t.rest = ap (map stamp) t.left in
      let in_is : in_stamps shm' ≡ in_stamps shm =
        ap (λ (r : Ring (AudioFrame F)). map stamp (contents queue_depth r)) t.others in
      record {
        in_valid = subst (IsValid queue_depth) (sym t.others) inv.in_valid;
        out_valid = t.valid;
        sizes =
            subst (λ (r : Ring (AudioFrame F)). All Sized (contents queue_depth r)) (sym t.others)
              inv.sizes;
        order =
            subst (λ (l : List ℕ). Subsequence l dispatched)
              (sym (
                ap₂ (λ (o i : List ℕ). delivered ++ n ∷ [] ++ o ++ i) is in_is
                ∙ given delivered (map stamp t.rest) (in_stamps shm) n))
              (subst (λ (o : List ℕ). Subsequence (delivered ++ o ++ in_stamps shm) dispatched) was
                inv.order);
      }

  pub more_dispatched :
      (now : ℕ)
      → shm' ≡ shm
      → Inv shm dispatched delivered
      → Inv shm' (dispatched ++ now ∷ []) delivered
  more_dispatched now same inv =
      subst (λ (m : SharedMemory F). Inv m (dispatched ++ now ∷ []) delivered) (sym same)
        record {
          in_valid = inv.in_valid;
          out_valid = inv.out_valid;
          sizes = inv.sizes;
          order = Subsequence-more now inv.order;
        }

  pub Read-Inv :
      (r : Bool)
      → Read r shm shm'
      → Inv shm dispatched delivered
      → Inv shm' dispatched
          (delivered ++ heard r ((shm.out_queue.slot shm.out_queue.head).timestamp_ns))
  Read-Inv true t inv = Taken-Inv t inv
  Read-Inv false same inv =
      subst (Inv shm' dispatched) (sym (append-nil delivered))
        (subst (λ (m : SharedMemory F). Inv m dispatched delivered) (sym same) inv)
