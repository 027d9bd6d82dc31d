-- ===== src/Mq/Refine.antt =====
-- A valid queue behaves as the list of its messages: push appends, pop takes the oldest.
use native.Mathlib.Nat.{mod-eq_of_lt}
use native.Mathlib.Decide.{ℕ_discrete}
use game_server.Common.{
  ℕ, suc, ◌+◌, ◌-◌, ◌*◌, ◌%◌, ◌<◌, ◌≡◌, ◌≢◌, refl, sym, ap, ◌∙◌, Option, none, some, List, [], ◌∷◌,
  ◌++◌, length, leb, ◌==◌, Bool-cases, inl, inr, if◌then◌else◌, update, arith,
}
use game_server.Mq.{Message, MessageQueue, mq_length, expand_queue, pop, enqueue}
use game_server.Common.Ring.{
  next_cell, cell_after, window, length-window, window-update, window-copied, copy_cells,
  copy_cells_lem,
}
use game_server.Mq.Contents.{contents}
use game_server.Mq.Valid.{IsValid, pop-Popped, pop_empty, mq_length-lt}

pub length-contents : (q : MessageQueue) → length (contents q) ≡ mq_length q
unfolding contents
length-contents q = length-window q.queue q.cap q.head (mq_length q)

contents_at :
    (q : MessageQueue) {n : ℕ} → mq_length q ≡ n → contents q ≡ window q.queue q.cap q.head n
unfolding contents
contents_at q e = ap (window q.queue q.cap q.head) e

-- `expand_queue` at a full ring, where `head` has met `tail`, keeps all `cap` messages in order.
contents-expand_queue :
    (q : MessageQueue)
    → q.head < q.cap
    → contents (expand_queue q) ≡ window q.queue q.cap q.head q.cap
unfolding contents expand_queue mq_length
contents-expand_queue q h =
    let copied : (j : ℕ)
        → j < 0 + q.cap
        → copy_cells q.queue q.head q.cap q.cap 0 q.queue j ≡ q.queue ((q.head + j) % q.cap) =
      λ j lt. ground (arith, copy_cells_lem q.queue q.head q.cap q.cap 0 q.queue j) in
    let n : (if leb 0 q.cap then q.cap - 0 else q.cap + q.cap * 2 - 0) ≡ q.cap = ground arith in
    let start : (q.head + 0) % q.cap ≡ q.head = ground (arith, mod-eq_of_lt h) in
    rw n (
      window-copied q.queue (copy_cells q.queue q.head q.cap q.cap 0 q.queue) q.cap (q.cap * 2)
        q.head 0 q.cap copied h (omega arith) (omega arith)
      ∙ ap (λ k. window q.queue q.cap k q.cap) start)

-- the queue that `skynet_mq_push` has written to, before it looks whether the ring is full
abbrev written : MessageQueue → Message → MessageQueue
written q m = record q { queue = update q.queue q.tail m; tail = next_cell q.cap q.tail }

enqueue_roomy :
    (q : MessageQueue) (m : Message) → q.head ≢ next_cell q.cap q.tail → enqueue q m ≡ written q m
unfolding enqueue
enqueue_roomy q m ne = ground arith

enqueue_full :
    (q : MessageQueue) (m : Message)
    → q.head ≡ next_cell q.cap q.tail
    → enqueue q m ≡ expand_queue (written q m)
unfolding enqueue
enqueue_full q m e = elim (Bool-cases (q.head == next_cell q.cap q.tail)) [
  | inl t ↦ rw t
  | inr f ↦ absurd (ground arith)
]

mq_length-written :
    {q : MessageQueue} (m : Message)
    → IsValid q
    → q.head ≢ next_cell q.cap q.tail
    → mq_length (written q m) ≡ suc (mq_length q)
unfolding mq_length
mq_length-written m v ne = ground arith

mq_length_full :
    {q : MessageQueue} → IsValid q → q.head ≡ next_cell q.cap q.tail → suc (mq_length q) ≡ q.cap
unfolding mq_length
mq_length_full v e = ground arith

tail-cell_after : {q : MessageQueue} → IsValid q → q.tail ≡ cell_after q.cap q.head (mq_length q)
unfolding mq_length
tail-cell_after v = ground arith

-- `skynet_mq_push` puts the message behind those that the ring holds, whether or not it has to grow.
pub contents-enqueue :
    {q : MessageQueue} (m : Message) → IsValid q → contents (enqueue q m) ≡ contents q ++ (m ∷ [])
contents-enqueue {q} m v =
    let grown : window (update q.queue q.tail m) q.cap q.head (suc (mq_length q))
        ≡ contents q ++ (m ∷ []) =
      rw (contents_at q refl) (
        window-update q.queue q.cap q.head (mq_length q) q.tail m v.head_in (mq_length-lt v)
          (tail-cell_after v)) in
    elim (ℕ_discrete q.head (next_cell q.cap q.tail)) [
      | yes e ↦
          rw (enqueue_full q m e, contents-expand_queue (written q m) v.head_in)
            (ap (window (update q.queue q.tail m) q.cap q.head) (sym (mq_length_full v e)) ∙ grown)
      | no ne ↦
          rw (enqueue_roomy q m ne, contents_at (written q m) (mq_length-written m v ne)) grown
    ]

-- The abstract queue: taking the oldest message of a list.
abbrev pub take_first : List Message → Option Message × List Message
take_first [] = (none, [])
take_first (m ∷ rest) = (some m, rest)

mq_length_step :
    {q : MessageQueue}
    → IsValid q
    → q.head ≢ q.tail
    → (o t : ℕ)
    → mq_length q
      ≡ suc (
          mq_length
            (record q { head = next_cell q.cap q.head; overload = o; overload_threshold = t }))
unfolding mq_length
mq_length_step v ne o t = ground arith

mq_length_empty : (q : MessageQueue) → q.head ≡ q.tail → mq_length q ≡ 0
unfolding mq_length
mq_length_empty q e = ground arith

-- `skynet_mq_pop` returns the oldest message and leaves the others in order.
pub contents-pop :
    {q : MessageQueue}
    → IsValid q
    → let (m, q') = pop q in (m, contents q') ≡ take_first (contents q)
contents-pop {q} v = elim (ℕ_discrete q.head q.tail) [
  | yes e ↦
      rw (pop_empty q e, contents_at q (mq_length_empty q e))
        (ap (λ (l : List Message). (let r : Option Message × List Message = (none, l) in r))
          (contents_at _ (mq_length_empty _ e)))
  | no ne ↦
      let (o, t, p) = pop-Popped v ne in
      rw (p.returns, contents_at q (mq_length_step v ne o t), contents_at _ refl)
]
