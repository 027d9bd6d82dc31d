-- ===== src/Mq/Drain.antt =====
-- `_drop_queue` of skynet_mq.c: what a released queue still held goes to the drop function, in order.
use native.Mathlib.Decide.{ℕ_discrete}
use game_server.Common.{
  ◌∙◌, ap, ℕ, zero, suc, ◌<◌, ◌≡◌, refl, Option, none, some, List, [], ◌∷◌, length, arith,
}
use game_server.Mq.{Message, MessageQueue, mq_length, pop}
use game_server.Mq.Contents.{contents}
use game_server.Mq.Valid.{IsValid, pop-IsValid, pop-Popped, pop_empty}
use game_server.Mq.Refine.{contents-pop, length-contents}

-- `while (!skynet_mq_pop(q, &msg)) drop_func(&msg, ud)` on fuel: the messages handed to `drop_func`
-- and the queue at the end; `none` is a run that is not over.
unfoldable pub drain : ℕ → MessageQueue → Option (List Message × MessageQueue)
drain zero q = none
drain (suc fuel) q =
    let (m, q') = pop q in
    let rest = drain fuel q' in
    elim m [
      | none ↦ some ([], q')
      | some m ↦ elim rest [ none ↦ none | some (ms, last) ↦ some (m ∷ ms, last) ]
    ]

drain_done :
    (fuel : ℕ) (q q' : MessageQueue) → pop q ≡ (none, q') → drain (suc fuel) q ≡ some ([], q')
unfolding drain
drain_done fuel q q' e = ground arith

drain_more :
    (fuel : ℕ) (q q' last : MessageQueue) (m : Message) (ms : List Message)
    → pop q ≡ (some m, q')
    → drain fuel q' ≡ some (ms, last)
    → drain (suc fuel) q ≡ some (m ∷ ms, last)
unfolding drain
drain_more fuel q q' last m ms e f = ground arith

pop-next : {q : MessageQueue} → IsValid q → (pop q).1.next ≡ q.next
pop-next {q} v = elim (ℕ_discrete q.head q.tail) [
  | yes e ↦ ap (λ r. r.1.next) (pop_empty q e)
  | no ne ↦ let (o, t, p) = pop-Popped v ne in ap (λ r. r.1.next) p.returns
]

-- With more fuel than messages the loop ends, on every message of the queue, oldest first; the queue
-- is then empty, and where it was in the global list.
drain_list :
    (fuel : ℕ) (q : MessageQueue) (ms : List Message)
    → IsValid q
    → contents q ≡ ms
    → length ms < fuel
    → (last : MessageQueue) × (drain fuel q ≡ some (ms, last))
      × (contents last ≡ [])
      × (last.next ≡ q.next)
drain_list zero q ms v e h = absurd (omega arith)
drain_list (suc fuel) q [] v e h =
    let p : ((pop q).0, contents (pop q).1) ≡ (none, []) = rw e at (contents-pop v) in
    ((pop q).1, drain_done fuel q (pop q).1 (λ i. ((p i).0, (pop q).1)), (λ i. (p i).1), pop-next v)
drain_list (suc fuel) q (m ∷ ms) v e h =
    let fewer : length ms < fuel = omega arith in
    let p : ((pop q).0, contents (pop q).1) ≡ (some m, ms) = rw e at (contents-pop v) in
    let (last, run, empty, same) =
      drain_list fuel (pop q).1 ms (pop-IsValid v) (λ i. (p i).1) fewer in
    (
      last,
      drain_more fuel q (pop q).1 last m ms (λ i. ((p i).0, (pop q).1)) run,
      empty,
      same ∙ pop-next v,
    )

-- With more fuel than messages the loop ends, has handed every message to the drop function, oldest
-- first, and leaves the queue empty.
pub drain_lem :
    (fuel : ℕ) {q : MessageQueue}
    → IsValid q
    → mq_length q < fuel
    → (last : MessageQueue) × (drain fuel q ≡ some (contents q, last)) × (contents last ≡ [])
drain_lem fuel {q} v h =
    let (last, run, empty, same) =
      drain_list fuel q (contents q) v refl (omega (arith, length-contents q)) in
    (last, run, empty)

-- The same loop leaves the queue's place in the global list.
pub drain-next :
    (fuel : ℕ) {q : MessageQueue}
    → IsValid q
    → mq_length q < fuel
    → (last : MessageQueue) × (drain fuel q ≡ some (contents q, last)) × (last.next ≡ q.next)
drain-next fuel {q} v h =
    let (last, run, empty, same) =
      drain_list fuel q (contents q) v refl (omega (arith, length-contents q)) in
    (last, run, same)
