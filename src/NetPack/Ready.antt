-- ===== src/NetPack/Ready.antt =====
-- The ring of whole packets: `push_data` appends, `lpop` takes the oldest.
use native.Mathlib.Nat.{mod-eq_of_lt}
use native.Mathlib.Decide.{ℕ_discrete}
use game_server.Common.{
  ℕ, suc, ◌+◌, ◌-◌, ◌%◌, ◌<◌, ◌≡◌, ◌≢◌, refl, sym, ap, ◌∙◌, true, false, Option, none, some, List,
  [], ◌∷◌, ◌++◌, leb, ◌==◌, if◌then◌else◌, update, arith,
}
use game_server.Common.Ring.{
  next_cell, window, window-update, window-copied, copy_cells, copy_cells_lem,
}
use game_server.NetPack.{Netpack, PackQueue, queue_size, get_queue, expand_queue, push_data, lpop}

abbrev pub ready_count : PackQueue → ℕ
ready_count q = if leb q.head q.tail then q.tail - q.head else q.tail + q.cap - q.head

-- the packets that wait in the ring, oldest first
unfoldable pub ready : PackQueue → List Netpack
ready q = window q.queue q.cap q.head (ready_count q)

pub record IsRing (q : PackQueue) : Type 0 where
  pub head_in : q.head < q.cap
  pub tail_in : q.tail < q.cap

ready_at : (q : PackQueue) {n : ℕ} → ready_count q ≡ n → ready q ≡ window q.queue q.cap q.head n
unfolding ready
ready_at q e = ap (window q.queue q.cap q.head) e

abbrev written : Netpack → PackQueue → PackQueue
written np q = record q { queue = update q.queue q.tail np; tail = next_cell q.cap q.tail }

-- A full ring, where `head` has met `tail`, keeps all packets in order.
ready-expand_queue :
    (q : PackQueue) → q.head < q.cap → ready (expand_queue q) ≡ window q.queue q.cap q.head q.cap
unfolding ready expand_queue
ready-expand_queue q h =
    let copied : (j : ℕ)
        → j < 0 + q.cap
        → copy_cells q.queue q.head q.cap q.cap 0 q.queue j ≡ q.queue ((q.head + j) % q.cap) =
      λ j lt. ground (arith, copy_cells_lem q.queue q.head q.cap q.cap 0 q.queue j) in
    let n : (if leb 0 q.cap then q.cap - 0 else q.cap + (q.cap + queue_size) - 0) ≡ q.cap =
      ground arith in
    let start : (q.head + 0) % q.cap ≡ q.head = ground (arith, mod-eq_of_lt h) in
    rw n (
      window-copied q.queue (copy_cells q.queue q.head q.cap q.cap 0 q.queue) q.cap
        (q.cap + queue_size) q.head 0 q.cap copied h (omega arith) (omega arith)
      ∙ ap (λ k. window q.queue q.cap k q.cap) start)

push_data-written :
    (np : Netpack) (q : PackQueue)
    → IsRing q
    → push_data np q
      ≡ (if q.head == next_cell q.cap q.tail then expand_queue (written np q) else written np q)
unfolding push_data
push_data-written np q v =
    let e : (if leb q.cap (q.tail + 1) then q.tail + 1 - q.cap else q.tail + 1)
        ≡ next_cell q.cap q.tail =
      ground arith in
    rw e refl

pub push_data-IsRing : {q : PackQueue} (np : Netpack) → IsRing q → IsRing (push_data np q)
unfolding expand_queue
push_data-IsRing {q} np v = rw (push_data-written np q v) (ground arith)

window-written :
    (np : Netpack) (q : PackQueue)
    → IsRing q
    → window (written np q).queue q.cap q.head (suc (ready_count q)) ≡ ready q ++ (np ∷ [])
unfolding ready
window-written np q v =
    window-update q.queue q.cap q.head (ready_count q) q.tail np v.head_in (ground arith)
      (ground arith)

-- `push_data` puts the packet behind those that wait, whether or not the ring has to grow.
pub ready-push_data :
    {q : PackQueue} (np : Netpack) → IsRing q → ready (push_data np q) ≡ ready q ++ (np ∷ [])
ready-push_data {q} np v =
    rw (push_data-written np q v) (elim (ℕ_discrete q.head (next_cell q.cap q.tail)) [
      | yes e ↦
          let t : (q.head == next_cell q.cap q.tail) ≡ true = ground arith in
          let n : suc (ready_count q) ≡ q.cap = ground arith in
          rw t (
            ready-expand_queue (written np q) v.head_in
            ∙ ap (window (written np q).queue q.cap q.head) (sym n)
            ∙ window-written np q v)
      | no ne ↦
          let f : (q.head == next_cell q.cap q.tail) ≡ false = ground arith in
          let n : ready_count (written np q) ≡ suc (ready_count q) = ground arith in
          rw f (ready_at (written np q) n ∙ window-written np q v)
    ])

lpop_empty : (q : PackQueue) → q.head ≡ q.tail → lpop q ≡ (none, q)
unfolding lpop
lpop_empty q e = ground arith

lpop_first :
    (q : PackQueue)
    → q.head ≢ q.tail
    → lpop q ≡ (some (q.queue q.head), record q { head = next_cell q.cap q.head })
unfolding lpop
lpop_first q ne = ground arith

-- what `lpop` hands out, with the packets that then wait
unfoldable pub handed : Option Netpack × PackQueue → List Netpack
handed (none, q) = []
handed (some np, q) = np ∷ ready q

-- `lpop` hands out the oldest packet and leaves the others in order; it hands out none only where
-- none waits.
pub ready-lpop : {q : PackQueue} → IsRing q → ready q ≡ handed (lpop q)
unfolding ready handed
ready-lpop {q} v = elim (ℕ_discrete q.head q.tail) [
  | yes e ↦ let n : ready_count q ≡ 0 = ground arith in rw (lpop_empty q e) (ready_at q n)
  | no ne ↦
      let n : ready_count q ≡ suc (ready_count (record q { head = next_cell q.cap q.head })) =
        ground arith in
      rw (lpop_first q ne) (ready_at q n)
]

pub get_queue-IsRing : (cells : ℕ → Netpack) → IsRing (get_queue cells)
unfolding get_queue
get_queue-IsRing cells = record { head_in = omega arith; tail_in = omega arith }
