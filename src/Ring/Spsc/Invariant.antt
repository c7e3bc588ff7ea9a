-- ===== src/Ring/Spsc/Invariant.antt =====
-- What holds of the ring and both threads between any two steps.
use mathlib.Core.Path.{subst}
use linux_opensource_univers.Prelude.{
  update, ℕ, suc, ◌+◌, ◌^◌, ◌<◌, ◌≡◌, refl, sym, ap, ◌∙◌, [], ◌∷◌, ◌++◌, append_assoc, arith,
}
use linux_opensource_univers.Ring.{Ring, next}
use linux_opensource_univers.Ring.Window.{
  IsValid, contents, window, span, next_lt, span-next_tail, span-next_head, span_not_full,
  span_zero_iff, span_pos, span_not_full_conv, tail_lem, window-update, window-last,
}
use linux_opensource_univers.Ring.Spsc.{
  State, Step, Producer, Consumer, init, push_begin, push_full, push_clear, push_store,
  push_publish, pop_begin, pop_empty, pop_ready, pop_copy, pop_release,
}

-- What the producer's locals say of the ring: there is a free slot, and then the item is in it.
abbrev pub Producing : {A : Type 0} → ℕ → Ring A → Producer A → Type 0
Producing cap r Producer.resting = Unit
Producing cap r (Producer.loaded item t) = r.tail ≡ t
Producing cap r (Producer.cleared item t) = (r.tail ≡ t) × (span cap r.head r.tail + 1 < cap)
Producing cap r (Producer.stored item t) =
    (r.tail ≡ t) × (span cap r.head r.tail + 1 < cap) × (r.slot t ≡ item)

abbrev pub Consuming : {A : Type 0} → ℕ → Ring A → Consumer A → Type 0
Consuming cap r Consumer.resting = Unit
Consuming cap r (Consumer.loaded h) = r.head ≡ h
Consuming cap r (Consumer.ready h) = (r.head ≡ h) × (0 < span cap r.head r.tail)
Consuming cap r (Consumer.copied h item) =
    (r.head ≡ h) × (0 < span cap r.head r.tail) × (r.slot h ≡ item)

pub record Inv {A : Type 0} (cap : ℕ) (s : State A) : Type 0 where
  pub valid : IsValid cap s.ring
  pub producing : Producing cap s.ring s.producer
  pub consuming : Consuming cap s.ring s.consumer
  pub order : s.sent ≡ s.received ++ contents cap s.ring

pub Inv-init : {A : Type 0} (cap : ℕ) (slot : ℕ → A) → 0 < cap → cap < 2 ^ 64 → Inv cap (init slot)
Inv-init cap slot p q = record {
  valid = omega arith;
  producing = tt;
  consuming = tt;
  order = ap (window slot cap 0) (sym ((span_zero_iff cap 0 0 q p p).1 refl));
}

module _ {A : Type 0} {cap : ℕ} (r : Ring A) (v : IsValid cap r) where
  open v use {small, head_in, tail_in}

  -- The slot at `tail` is not among those that the consumer reads.
  Consuming-store :
      (x : A) (c : Consumer A)
      → span cap r.head r.tail + 1 < cap
      → Consuming cap r c
      → Consuming cap (record r { slot = update r.slot r.tail x }) c
  Consuming-store x Consumer.resting room k = tt
  Consuming-store x (Consumer.loaded h) room k = k
  Consuming-store x (Consumer.ready h) room k = k
  Consuming-store x (Consumer.copied h item) room k =
      ground (arith, span_zero_iff cap r.head r.tail small head_in tail_in)

  contents-store :
      (x : A)
      → span cap r.head r.tail + 1 < cap
      → contents cap (record r { slot = update r.slot r.tail x }) ≡ contents cap r
  contents-store x room =
      let n = span cap r.head r.tail in
      window-update r.slot cap x small n n r.head r.tail head_in (omega arith) (omega arith)
        (tail_lem cap r.head r.tail small head_in tail_in)

  module _ (room : span cap r.head r.tail + 1 < cap) where
    span-publish : span cap r.head (next cap r.tail) ≡ span cap r.head r.tail + 1
    span-publish =
        span-next_tail cap r.head r.tail small head_in tail_in
          (span_not_full_conv cap r.head r.tail small head_in tail_in room)

    Consuming-publish :
        (c : Consumer A) → Consuming cap r c → Consuming cap (record r { tail = next cap r.tail }) c
    Consuming-publish Consumer.resting k = tt
    Consuming-publish (Consumer.loaded h) k = k
    Consuming-publish (Consumer.ready h) k = (k.0, omega (arith, span-publish))
    Consuming-publish (Consumer.copied h item) k = (k.0, omega (arith, span-publish), k.2)

    contents-publish :
        contents cap (record r { tail = next cap r.tail }) ≡ contents cap r ++ r.slot r.tail ∷ []
    contents-publish =
        let n = span cap r.head r.tail in
        let longer : span cap r.head (next cap r.tail) ≡ suc n = omega (arith, span-publish) in
        ap (window r.slot cap r.head) longer
        ∙ window-last r.slot cap small n r.head r.tail head_in (omega arith)
            (tail_lem cap r.head r.tail small head_in tail_in)

  module _ (held : 0 < span cap r.head r.tail) where
    span-release : span cap r.head r.tail ≡ suc (span cap (next cap r.head) r.tail)
    span-release =
        span-next_head cap r.head r.tail small head_in tail_in
          λ e. omega (arith, (span_zero_iff cap r.head r.tail small head_in tail_in).1 e)

    Producing-release :
        (p : Producer A) → Producing cap r p → Producing cap (record r { head = next cap r.head }) p
    Producing-release Producer.resting k = tt
    Producing-release (Producer.loaded item t) k = k
    Producing-release (Producer.cleared item t) k = (k.0, omega (arith, span-release))
    Producing-release (Producer.stored item t) k = (k.0, omega (arith, span-release), k.2)

    contents-release :
        contents cap r ≡ r.slot r.head ∷ contents cap (record r { head = next cap r.head })
    contents-release = ap (window r.slot cap r.head) span-release

module _ {A : Type 0} {cap : ℕ} {s : State A} (inv : Inv cap s) where
  open inv use {valid, order}
  open valid use {small, head_in, tail_in}

  abbrev gap : ℕ
  gap = span cap s.ring.head s.ring.tail

  pub at_producer : {p : Producer A} → s.producer ≡ p → Producing cap s.ring p
  at_producer e = subst (Producing cap s.ring) e inv.producing

  pub at_consumer : {c : Consumer A} → s.consumer ≡ c → Consuming cap s.ring c
  at_consumer e = subst (Consuming cap s.ring) e inv.consuming

  -- Only the locals of a thread change.
  producer_moves : (p : Producer A) → Producing cap s.ring p → Inv cap (record s { producer = p })
  producer_moves p k = record {
    valid = valid;
    producing = k;
    consuming = inv.consuming;
    order = order;
  }

  consumer_moves : (c : Consumer A) → Consuming cap s.ring c → Inv cap (record s { consumer = c })
  consumer_moves c k = record {
    valid = valid;
    producing = inv.producing;
    consuming = k;
    order = order;
  }

  store-Inv :
      (item : A)
      → gap + 1 < cap
      → Inv cap (record s {
        ring = record (s.ring) { slot = update s.ring.slot s.ring.tail item };
        producer = Producer.stored item s.ring.tail;
      })
  store-Inv item room = record {
    valid = omega arith;
    producing = (refl, room, ground arith);
    consuming = Consuming-store s.ring valid item s.consumer room inv.consuming;
    order = order ∙ ap (◌++◌ s.received) (sym (contents-store s.ring valid item room));
  }

  publish-Inv :
      (item : A)
      → gap + 1 < cap
      → s.ring.slot s.ring.tail ≡ item
      → Inv cap (record s {
        ring = record (s.ring) { tail = next cap s.ring.tail };
        producer = Producer.resting;
        sent = s.sent ++ item ∷ [];
      })
  publish-Inv item room e = record {
    valid = ground (arith, next_lt cap s.ring.tail small tail_in);
    producing = tt;
    consuming = Consuming-publish s.ring valid room s.consumer inv.consuming;
    order =
        rw (contents-publish s.ring valid room, e, order)
          (append_assoc s.received (contents cap s.ring) (item ∷ []));
  }

  release-Inv :
      (item : A)
      → 0 < gap
      → s.ring.slot s.ring.head ≡ item
      → Inv cap (record s {
        ring = record (s.ring) { head = next cap s.ring.head };
        consumer = Consumer.resting;
        received = s.received ++ item ∷ [];
      })
  release-Inv item held e = record {
    valid = ground (arith, next_lt cap s.ring.head small head_in);
    producing = Producing-release s.ring valid held s.producer inv.producing;
    consuming = tt;
    order =
        rw append_assoc
          (rw (← e) (order ∙ ap (◌++◌ s.received) (contents-release s.ring valid held)));
  }

-- Every step keeps the invariant.
pub Step-Inv : {A : Type 0} {cap : ℕ} {s u : State A} → Inv cap s → Step cap s u → Inv cap u
Step-Inv {s} inv (push_begin item e d) = rw d (producer_moves inv _ refl)
Step-Inv {s} inv (push_full item t e f d) = rw d (producer_moves inv _ tt)
Step-Inv {cap} {s} inv (push_clear item t e f d) =
    let k : s.ring.tail ≡ t = at_producer inv e in
    rw d (
      producer_moves inv _ (
        k,
        span_not_full cap s.ring.head s.ring.tail inv.valid.small inv.valid.head_in
            inv.valid.tail_in (rw k f),
      ))
Step-Inv {s} inv (push_store item t e d) =
    let k = at_producer inv e in rw (d, ← k.0) (store-Inv inv item k.1)
Step-Inv {s} inv (push_publish item t e d) =
    let k = at_producer inv e in rw (d, ← k.0) (publish-Inv inv item k.1 (rw (k.0) (k.2)))
Step-Inv {s} inv (pop_begin e d) = rw d (consumer_moves inv _ refl)
Step-Inv {s} inv (pop_empty h e f d) = rw d (consumer_moves inv _ tt)
Step-Inv {cap} {s} inv (pop_ready h e f d) =
    let k : s.ring.head ≡ h = at_consumer inv e in
    let above =
      span_pos cap s.ring.head s.ring.tail inv.valid.small inv.valid.head_in inv.valid.tail_in in
    rw d (consumer_moves inv _ (k, above (rw k f)))
Step-Inv {s} inv (pop_copy h e d) =
    let k = at_consumer inv e in rw d (consumer_moves inv _ (k.0, k.1, refl))
Step-Inv {s} inv (pop_release h item e d) =
    let k = at_consumer inv e in rw (d, ← k.0) (release-Inv inv item k.1 (rw (k.0) (k.2)))
