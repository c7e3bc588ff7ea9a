-- ===== src/Ring/ZeroCopy.antt =====
-- daemon/ipc/include/ipc_shm.hpp: the two-step calls, as a client uses them that works in the slots
-- themselves.
use linux_opensource_univers.Prelude.{
  length, update, ℕ, suc, ◌+◌, ◌-◌, ◌%◌, ◌<◌, ◌≡◌, sym, ap, ◌∙◌, ◌≢◌, none, some, List, [], ◌∷◌,
  ◌++◌, arith,
}
use native.Mathlib.Nat.{mod-eq-sub-mod, mod-eq_of_lt}
use linux_opensource_univers.Ring.{
  Ring, next, peek_read, commit_read, reserve_write, commit_write, write_slot,
}
use linux_opensource_univers.Ring.Window.{
  IsValid, contents, window, length-window, span, next_lt, span_zero_iff, span-next_tail,
  span_not_full, span_not_full_conv, span-next_head, tail_lem, window-snoc, window-update, span_lt,
  next-add,
}

module _ {A : Type 0} {cap : ℕ} {r : Ring A} (v : IsValid cap r) where
  open v use {some_room, small, head_in, tail_in}

  -- With room for one more item the slot at `tail` is handed out, and committing it appends what was
  -- written there.
  pub record Reserved (x : A) : Type 0 where
    pub slot_at : reserve_write cap r ≡ some r.tail
    pub appended :
        contents cap (commit_write cap (write_slot r.tail x r)) ≡ contents cap r ++ x ∷ []
    pub still : IsValid cap (commit_write cap (write_slot r.tail x r))

  pub reserve_room : (x : A) → length (contents cap r) + 1 < cap → Reserved x
  unfolding reserve_write commit_write
  reserve_room x room =
      let n = span cap r.head r.tail in
      let len = length-window r.slot cap r.head n in
      let ne = span_not_full_conv cap r.head r.tail small head_in tail_in (omega (arith, len)) in
      let longer : span cap r.head (next cap r.tail) ≡ suc n =
        omega (arith, span-next_tail cap r.head r.tail small head_in tail_in ne) in
      record {
        slot_at = ground arith;
        appended =
            ap (window (update r.slot r.tail x) cap r.head) longer
            ∙ window-snoc r.slot cap x small n r.head r.tail head_in (omega (arith, len))
                (tail_lem cap r.head r.tail small head_in tail_in);
        still = ground (arith, next_lt cap r.tail small tail_in);
      }

  -- A full ring hands out no slot.
  pub reserve_full : length (contents cap r) + 1 ≡ cap → reserve_write cap r ≡ none
  unfolding reserve_write
  reserve_full full = ground (
    arith,
    length-window r.slot cap r.head (span cap r.head r.tail),
    span_not_full cap r.head r.tail small head_in tail_in,
  )

  -- The item to peek at is the oldest, and committing it leaves the rest.
  pub record Peeked (x : A) (rest : List A) : Type 0 where
    pub slot_at : peek_read cap r ≡ some r.head
    pub item : r.slot r.head ≡ x
    pub removed : contents cap (commit_read cap r) ≡ rest
    pub still : IsValid cap (commit_read cap r)

  pub peek_some : (x : A) (rest : List A) → contents cap r ≡ x ∷ rest → Peeked x rest
  unfolding peek_read commit_read
  peek_some x rest e =
      let len = length-window r.slot cap r.head (span cap r.head r.tail) in
      let ne : r.head ≢ r.tail = λ same.
        omega (
          arith,
          (span_zero_iff cap r.head r.tail small head_in tail_in).1 same,
          len,
          ap length e,
        ) in
      let shorter = span-next_head cap r.head r.tail small head_in tail_in ne in
      let split : r.slot r.head ∷ contents cap (commit_read cap r) ≡ x ∷ rest =
        sym (ap (window r.slot cap r.head) shorter) ∙ e in
      record {
        slot_at = ground arith;
        item = cc split;
        removed = cc split;
        still = ground (arith, next_lt cap r.head small head_in);
      }

  -- What a consumer writes into the slot that it peeks at, before it commits, does not touch the rest.
  pub peek-write :
      (x y : A) (rest : List A)
      → contents cap r ≡ x ∷ rest
      → (contents cap (commit_read cap (write_slot r.head y r)) ≡ rest)
        × IsValid cap (commit_read cap (write_slot r.head y r))
  unfolding commit_read
  peek-write x y rest e =
      let p = peek_some x rest e in
      let around : r.head ≡ (next cap r.head + (cap - 1)) % cap = omega (
        arith,
        next-add cap r.head (cap - 1) small head_in,
        mod-eq-sub-mod {n = r.head + suc (cap - 1)} {m = cap} (omega arith),
        mod-eq_of_lt {n = r.head + suc (cap - 1) - cap} {m = cap} (omega arith),
      ) in
      (
        window-update r.slot cap y small (span cap (next cap r.head) r.tail) (cap - 1)
              (next cap r.head) r.head (next_lt cap r.head small head_in)
              (omega (
                arith,
                span_lt cap (next cap r.head) r.tail small (next_lt cap r.head small head_in)
                    tail_in,
              ))
              (omega arith) around
            ∙ p.removed,
        ground (arith, next_lt cap r.head small head_in),
      )

  pub peek_none : contents cap r ≡ [] → peek_read cap r ≡ none
  unfolding peek_read
  peek_none e = ground (
    arith,
    length-window r.slot cap r.head (span cap r.head r.tail),
    ap length e,
    (span_zero_iff cap r.head r.tail small head_in tail_in).0,
  )
