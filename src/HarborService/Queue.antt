-- ===== src/HarborService/Queue.antt =====
-- The ring of messages is the list of its messages: a push appends, a drain takes them in order.
use native.Mathlib.Decide.{ℕ_discrete}
use native.Mathlib.Nat.{mod-eq_of_lt, mod_self}
use game_server.Common.{
  ℕ, zero, suc, ◌+◌, ◌-◌, ◌*◌, ◌%◌, ◌<◌, ◌≡◌, ◌≢◌, refl, ap, ◌∙◌, none, some, true, false, List, [],
  ◌∷◌, ◌++◌, leb, ◌==◌, if◌then◌else◌, arith,
}
use game_server.Common.Ring.{
  next_cell, window, window-update, window-copied, copy_cells, copy_cells_lem,
}
use game_server.HarborService.{
  HarborMsg, HarborMsgQueue, new_queue, grow_queue, put_message, push_queue_msg, pop_queue, pop_all,
  drain_queue,
}

pub record IsRing (q : HarborMsgQueue) : Type 0 where
  pub head_in : q.head < q.size
  pub tail_in : q.tail < q.size

abbrev pub count : HarborMsgQueue → ℕ
count q = if leb q.head q.tail then q.tail - q.head else q.tail + q.size - q.head

-- the messages of a ring, oldest first
pub contents : HarborMsgQueue → List HarborMsg
contents q = window q.cells q.size q.head (count q)

mod-next_cell : (cap i : ℕ) → i < cap → (i + 1) % cap ≡ next_cell cap i
mod-next_cell cap i lt = elim (ℕ_discrete (i + 1) cap) [
  | yes e ↦ rw e (ground (arith, mod_self cap, e))
  | no ne ↦ ground (arith, mod-eq_of_lt {n = i + 1} {m = cap} (omega arith))
]

pub new_queue-IsRing : (cells : ℕ → HarborMsg) → IsRing (new_queue cells)
unfolding new_queue
new_queue-IsRing cells = omega arith

pub contents-new_queue : (cells : ℕ → HarborMsg) → contents (new_queue cells) ≡ []
unfolding contents new_queue
contents-new_queue cells = refl

-- A ring with a free cell takes a message.
put_message_lem :
    (q : HarborMsgQueue) (m : HarborMsg)
    → IsRing q
    → next_cell q.size q.tail ≢ q.head
    → IsRing (put_message q m) × (contents (put_message q m) ≡ contents q ++ (m ∷ []))
unfolding put_message contents
put_message_lem q m v ne =
    let step = mod-next_cell q.size q.tail v.tail_in in
    let n : (if leb q.head (next_cell q.size q.tail)
          then next_cell q.size q.tail - q.head
          else next_cell q.size q.tail + q.size - q.head)
        ≡ suc (count q) =
      ground arith in
    (
      rw step (ground arith),
      rw (step, n)
          (window-update q.cells q.size q.head (count q) q.tail m v.head_in (ground arith)
            (ground arith)),
    )

grow_queue_lem :
    (q : HarborMsgQueue)
    → IsRing q
    → next_cell q.size q.tail ≡ q.head
    → IsRing (grow_queue q)
      × (next_cell (grow_queue q).size (grow_queue q).tail ≢ (grow_queue q).head)
      × (contents (grow_queue q) ≡ contents q)
unfolding grow_queue contents
grow_queue_lem q v e =
    let n : count q ≡ q.size - 1 = ground arith in
    let copied : (j : ℕ)
        → j < 0 + (q.size - 1)
        → copy_cells q.cells q.head q.size (q.size - 1) 0 q.cells j
          ≡ q.cells ((q.head + j) % q.size) =
      λ j lt. ground (arith, copy_cells_lem q.cells q.head q.size (q.size - 1) 0 q.cells j) in
    let start : (q.head + 0) % q.size ≡ q.head = ground (arith, mod-eq_of_lt v.head_in) in
    let m : (if leb 0 (q.size - 1) then q.size - 1 - 0 else q.size - 1 + q.size * 2 - 0)
        ≡ q.size - 1 =
      ground arith in
    (
      omega (arith, v.head_in),
      ground (arith, v.head_in),
      rw (m, n)
          (window-copied q.cells (copy_cells q.cells q.head q.size (q.size - 1) 0 q.cells) q.size
              (q.size * 2) q.head 0 (q.size - 1) copied v.head_in (omega arith)
              (omega (arith, v.head_in))
            ∙ ap (λ k. window q.cells q.size k (q.size - 1)) start),
    )

-- `push_queue_msg` puts the message behind the others, whether or not the ring has to grow.
pub push_queue_msg_lem :
    (q : HarborMsgQueue) (m : HarborMsg)
    → IsRing q
    → IsRing (push_queue_msg q m) × (contents (push_queue_msg q m) ≡ contents q ++ (m ∷ []))
unfolding push_queue_msg
push_queue_msg_lem q m v =
    let step = mod-next_cell q.size q.tail v.tail_in in
    elim (ℕ_discrete (next_cell q.size q.tail) q.head) [
      | yes e ↦
          let full : ((q.tail + 1) % q.size == q.head) ≡ true = ground (arith, step, e) in
          let (v', room, same) = grow_queue_lem q v e in
          let (v'', put) = put_message_lem (grow_queue q) m v' room in
          rw full (v'', put ∙ ap (λ ms. ms ++ (m ∷ [])) same)
      | no ne ↦
          let room : ((q.tail + 1) % q.size == q.head) ≡ false = ground (arith, step, ne) in
          rw room (put_message_lem q m v ne)
    ]

pop_queue-some :
    (q : HarborMsgQueue)
    → IsRing q
    → q.head ≢ q.tail
    → (q' : HarborMsgQueue) × (pop_queue q ≡ some (q.cells q.head, q'))
      × IsRing q'
      × (contents q ≡ q.cells q.head ∷ contents q')
      × (count q ≡ suc (count q'))
unfolding pop_queue contents
pop_queue-some q v ne =
    let step = mod-next_cell q.size q.head v.head_in in
    let q' : HarborMsgQueue = record q { head = next_cell q.size q.head } in
    let n : count q ≡ suc (count q') = ground arith in
    let some_left : (q.head == q.tail) ≡ false = ground (arith, ne) in
    (q', rw (some_left, step) refl, ground arith, rw n refl, n)

pop_queue-none : (q : HarborMsgQueue) → q.head ≡ q.tail → (pop_queue q ≡ none) × (contents q ≡ [])
unfolding pop_queue contents
pop_queue-none q e =
    let n : count q ≡ 0 = ground arith in
    let none_left : (q.head == q.tail) ≡ true = ground (arith, e) in (rw none_left refl, rw n refl)

pop_all_lem :
    (fuel : ℕ) (q : HarborMsgQueue) → IsRing q → count q < fuel → pop_all fuel q ≡ some (contents q)
unfolding pop_all
pop_all_lem zero q v lt = absurd (omega arith)
pop_all_lem (suc fuel) q v lt = elim (ℕ_discrete q.head q.tail) [
  | yes e ↦ let (end, empty) = pop_queue-none q e in rw (pop_all, end, empty) refl
  | no ne ↦
      let (q', run, v', front, n) = pop_queue-some q v ne in
      rw (pop_all, run, front, pop_all_lem fuel q' v' (omega arith)) refl
]

-- The draining loop ends with all messages in order.
pub drain_queue_lem : (q : HarborMsgQueue) → IsRing q → drain_queue q ≡ some (contents q)
unfolding drain_queue
drain_queue_lem q v = pop_all_lem q.size q v (ground arith)
