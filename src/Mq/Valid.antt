-- ===== src/Mq/Valid.antt =====
-- What every operation on a queue keeps: indices in range, a threshold that the loop can double.
use native.Mathlib.Decide.{dec_lt, ℕ_discrete}
use game_server.Common.{
  ℕ, zero, suc, ◌+◌, ◌*◌, ◌≤◌, ◌<◌, ◌≡◌, ◌≢◌, none, some, max, ltb, if◌then◌else◌, update,
  Bool-cases, ◌==◌, inl, inr, arith,
}
use game_server.Common.Ring.{next_cell}
use game_server.Mq.{
  Message, MessageQueue, mq_overload, create, mq_length, raise_threshold, length_after, pop,
  expand_queue, enqueue,
}

pub record IsValid (q : MessageQueue) : Type 0 where
  pub head_in : q.head < q.cap
  pub tail_in : q.tail < q.cap
  pub positive : 0 < q.overload_threshold

-- With the length for fuel the loop ends: the flag is the old one or the length, and the threshold
-- ends at or above the length, at least where it began.
pub raise_threshold_total :
    (fuel length o t : ℕ)
    → 0 < t
    → 0 < fuel
    → length < fuel + t
    → (o' t' : ℕ) × (raise_threshold fuel length (o, t) ≡ some (o', t'))
      × (length ≤ t')
      × (t ≤ t')
      × (t' ≤ max t (length * 2))
      × (o' ≡ (if ltb t length then length else o))
unfolding raise_threshold
raise_threshold_total zero length o t pos run h = absurd (omega arith)
raise_threshold_total (suc fuel) length o t pos run h = elim (dec_lt t length) [
  | no p ↦ (o, t, ground arith, omega arith, omega arith, omega arith, ground arith)
  | yes p ↦
      let (o', t', e, a, b, c, d) =
        raise_threshold_total fuel length length (t * 2) (omega arith) (omega arith)
          (omega arith) in
      (o', t', ground arith, omega arith, omega arith, omega arith, ground arith)
]

pub create-IsValid : (handle : ℕ) (cells : ℕ → Message) → IsValid (create handle cells)
unfolding create
create-IsValid handle cells = omega arith

expand_queue-IsValid : {q : MessageQueue} → IsValid q → IsValid (expand_queue q)
unfolding expand_queue
expand_queue-IsValid v = omega arith

pub enqueue-IsValid : {q : MessageQueue} (m : Message) → IsValid q → IsValid (enqueue q m)
unfolding enqueue
enqueue-IsValid {q} m v = ground (
  arith,
  expand_queue-IsValid
      {q = record q { queue = update q.queue q.tail m; tail = next_cell q.cap q.tail }},
)

-- What the branch of `pop` for a queue with a message returns: the threshold loop ends.
pub record Popped (q : MessageQueue) (o t : ℕ) : Type 0 where
  pub returns : pop q ≡ (
    some (q.queue q.head),
    record q { head = next_cell q.cap q.head; overload = o; overload_threshold = t },
  )
  pub reached : length_after (next_cell q.cap q.head) q.tail q.cap ≤ t
  pub grown : q.overload_threshold ≤ t
  pub bounded : t ≤ max q.overload_threshold (2 * q.cap)
  pub flagged : o ≡ (
      if ltb q.overload_threshold (length_after (next_cell q.cap q.head) q.tail q.cap)
      then length_after (next_cell q.cap q.head) q.tail q.cap
      else q.overload)

length_after-lt : (h t cap : ℕ) → h < cap → t < cap → length_after h t cap < cap
unfolding length_after
length_after-lt h t cap a b = ground arith

pop_returns :
    (q : MessageQueue) (o t : ℕ)
    → q.head ≢ q.tail
    → raise_threshold
        (suc (length_after (next_cell q.cap q.head) q.tail q.cap))
        (length_after (next_cell q.cap q.head) q.tail q.cap)
        (q.overload, q.overload_threshold)
      ≡ some (o, t)
    → pop q ≡ (
      some (q.queue q.head),
      record q { head = next_cell q.cap q.head; overload = o; overload_threshold = t },
    )
unfolding pop
pop_returns q o t ne e = elim (Bool-cases (q.head == q.tail)) [
  | inl same ↦ absurd (ne (ground arith))
  | inr other ↦ rw (other, e)
]

pub pop-Popped : {q : MessageQueue} → IsValid q → q.head ≢ q.tail → (o t : ℕ) × Popped q o t
pop-Popped {q} v ne =
    let h = next_cell q.cap q.head in
    let n = length_after h q.tail q.cap in
    let small = length_after-lt h q.tail q.cap (ground arith) v.tail_in in
    let (o, t, e, a, b, c, d) =
      raise_threshold_total (suc n) n q.overload q.overload_threshold v.positive (omega arith)
        (omega arith) in
    (
      o,
      t,
      record {
        returns = pop_returns q o t ne e;
        reached = a;
        grown = b;
        bounded = omega arith;
        flagged = d;
      },
    )

pub pop_empty :
    (q : MessageQueue)
    → q.head ≡ q.tail
    → pop q ≡ (none, record q { overload_threshold = mq_overload; in_global = 0 })
unfolding pop
pop_empty q e = ground arith

pub pop-IsValid : {q : MessageQueue} → IsValid q → IsValid (pop q).1
pop-IsValid {q} v = elim (ℕ_discrete q.head q.tail) [
  | yes e ↦ rw (pop_empty q e) (ground arith)
  | no ne ↦ let (o, t, p) = pop-Popped v ne in rw p.returns (ground arith)
]

-- The indices that the code reads and writes lie in the array.
pub mq_length-lt : {q : MessageQueue} → IsValid q → mq_length q < q.cap
unfolding mq_length
mq_length-lt v = ground arith
