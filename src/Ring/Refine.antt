-- ===== src/Ring/Refine.antt =====
-- A valid ring behaves as the bounded queue of the items that it holds.
use linux_opensource_univers.Prelude.{
  eq→==, ==→eq, length, ℕ, zero, suc, ◌<◌, ◌≡◌, refl, sym, ap, ◌∙◌, ◌↔◌, true, false, none, some,
  List, [], ◌∷◌, arith,
}
use linux_opensource_univers.Ring.Fifo
use linux_opensource_univers.Ring.Fifo.{Call, pushes, pops, Reply, pushed, popped}
use linux_opensource_univers.Ring.{
  Ring, push, pop, empty, peek_read, commit_read, reserve_write, commit_write, write_slot,
}
use linux_opensource_univers.Ring.Window.{
  IsValid, contents, window, length-window, span, next_lt, span_zero_iff, span-next_tail, span_full,
  span_not_full, span-next_head, tail_lem, window-snoc,
}

window_of_eq_zero : {A : Type 0} (slot : ℕ → A) (cap h n : ℕ) → n ≡ 0 → window slot cap h n ≡ []
window_of_eq_zero slot cap h zero e = refl
window_of_eq_zero slot cap h (suc n) e = absurd (omega arith)

module _ {A : Type 0} {cap : ℕ} {r : Ring A} (v : IsValid cap r) where
  open v use {some_room, small, head_in, tail_in}

  pub push-IsValid : (x : A) → IsValid cap (push cap r x).0
  unfolding push
  push-IsValid x = ground (arith, next_lt cap r.tail small tail_in)

  pub pop-IsValid : IsValid cap (pop cap r).0
  unfolding pop
  pop-IsValid = ground (arith, next_lt cap r.head small head_in)

  -- `push` fails on a full ring alone and changes nothing then; else the item goes last.
  pub push_refines :
      (x : A)
      → let (r', done) = push cap r x in (contents cap r', done) ≡ Fifo.push cap (contents cap r) x
  unfolding push Fifo.push
  push_refines x = ground (
    arith,
    length-window r.slot cap r.head (span cap r.head r.tail),
    span_full cap r.head r.tail small head_in tail_in,
    span_not_full cap r.head r.tail small head_in tail_in,
    span-next_tail cap r.head r.tail small head_in tail_in,
    tail_lem cap r.head r.tail small head_in tail_in,
    window-snoc r.slot cap x small (span cap r.head r.tail) r.head r.tail,
  )

  -- `pop` fails on an empty ring alone; else it gives the oldest item and leaves the rest.
  pub pop_refines : let (r', out) = pop cap r in (contents cap r', out) ≡ Fifo.pop (contents cap r)
  unfolding pop Fifo.pop
  pop_refines = ground (
    arith,
    span-next_head cap r.head r.tail small head_in tail_in,
    span_zero_iff cap r.head r.tail small head_in tail_in,
    window_of_eq_zero r.slot cap r.head (span cap r.head r.tail),
  )

  -- The ring is empty for `empty` exactly when it holds no item.
  pub empty_iff : (empty cap r ≡ true) ↔ (contents cap r ≡ [])
  unfolding empty
  empty_iff =
      let at_zero = span_zero_iff cap r.head r.tail small head_in tail_in in
      (
        λ e. window_of_eq_zero r.slot cap r.head _ (at_zero.1 (==→eq _ _ e)),
        λ e. eq→== _ _ (at_zero.0 (sym (length-window r.slot cap r.head _) ∙ ap length e)),
      )

  -- An index handed out by either lies in the array.
  pub reserve_write_bounds : {i : ℕ} → reserve_write cap r ≡ some i → i < cap
  unfolding reserve_write
  reserve_write_bounds e = ground arith

  pub peek_read_bounds : {i : ℕ} → peek_read cap r ≡ some i → i < cap
  unfolding peek_read
  peek_read_bounds e = ground arith

-- Reserving a slot, writing it and committing is a `push`, and none is reserved exactly when `push`
-- fails; peeking at a slot, reading it and committing is a `pop`, likewise.
pub two_step_refines :
    {A : Type 0} (cap : ℕ) (r : Ring A) (x : A)
    → (push cap r x ≡ (elim (reserve_write cap r) [
      | none ↦ (r, false)
      | some i ↦ (commit_write cap (write_slot i x r), true)
    ]))
      × (pop cap r ≡ (elim (peek_read cap r) [
        | none ↦ (r, none)
        | some i ↦ (commit_read cap r, some (r.slot i))
      ]))
unfolding push reserve_write commit_write pop peek_read commit_read
two_step_refines cap r x = (ground arith, ground arith)

-- The replies of a ring to a client's calls in order.
unfoldable pub run : {A : Type 0} → ℕ → Ring A → List (Call A) → List (Reply A)
run cap r [] = []
run cap r (pushes x ∷ calls) = let (r', done) = push cap r x in pushed done ∷ run cap r' calls
run cap r (pops ∷ calls) = let (r', out) = pop cap r in popped out ∷ run cap r' calls

-- No sequence of calls tells a valid ring from the bounded queue of its contents.
pub run_refines :
    {A : Type 0} {cap : ℕ} (calls : List (Call A)) {r : Ring A}
    → IsValid cap r
    → run cap r calls ≡ Fifo.run cap (contents cap r) calls
unfolding run Fifo.run
run_refines [] v = refl
run_refines (pushes x ∷ calls) v = rw (run_refines calls (push-IsValid v x), ← push_refines v x)
run_refines (pops ∷ calls) v = rw (run_refines calls (pop-IsValid v), ← pop_refines v)
