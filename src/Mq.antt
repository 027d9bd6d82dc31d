-- ===== src/Mq.antt =====
-- skynet-dist/skynet-src/skynet_mq.c: the message queue of a service, a ring that doubles.
-- A queue's cells are a function of the index; the code touches those below `cap`.
pub mod Contents
pub mod Valid
pub mod Refine
pub mod Drain
pub mod Global
use game_server.Common.Ring.{copy_cells}
use game_server.Common.{
  ℕ, zero, suc, ◌+◌, ◌-◌, ◌*◌, ◌%◌, Bool, true, false, Option, none, some, List, [], ◌∷◌, ltb, leb,
  ◌==◌, if◌then◌else◌, update,
}

-- `struct skynet_message` of skynet_mq.h; `body` stands for the pointer `data`.
pub record Message : Type 0 where
  pub source : ℕ
  pub session : ℕ
  pub body : ℕ
  pub sz : ℕ

abbrev pub default_queue_size : ℕ
default_queue_size = 64

abbrev pub mq_in_global : ℕ
mq_in_global = 1

abbrev pub mq_overload : ℕ
mq_overload = 1024

-- `struct message_queue`; `next` is a queue's address.
pub record MessageQueue : Type 0 where
  pub handle : ℕ
  pub cap : ℕ
  pub head : ℕ
  pub tail : ℕ
  pub release : ℕ
  pub in_global : ℕ
  pub overload : ℕ
  pub overload_threshold : ℕ
  pub queue : ℕ → Message
  pub next : Option ℕ

-- `skynet_mq_create`; `cells` is what the allocated array happens to hold.
unfoldable pub create : ℕ → (ℕ → Message) → MessageQueue
create handle cells = record {
  handle = handle;
  cap = default_queue_size;
  head = 0;
  tail = 0;
  release = 0;
  in_global = mq_in_global;
  overload = 0;
  overload_threshold = mq_overload;
  queue = cells;
  next = none;
}

unfoldable pub mq_length : MessageQueue → ℕ
mq_length q = if leb q.head q.tail then q.tail - q.head else q.tail + q.cap - q.head

-- `skynet_mq_overload` reads the flag and clears it.
pub take_overload : MessageQueue → ℕ × MessageQueue
take_overload q = if q.overload == 0 then (0, q) else (q.overload, record q { overload = 0 })

-- `while (length > threshold) { overload = length; threshold *= 2; }` on fuel: `none` is a run that
-- is not over. The pair is the flag and the threshold.
pub raise_threshold : ℕ → ℕ → ℕ × ℕ → Option (ℕ × ℕ)
raise_threshold zero length s = none
raise_threshold (suc fuel) length (o, t) =
    let rest = raise_threshold fuel length (length, t * 2) in
    if ltb t length then rest else some (o, t)

-- The length that `skynet_mq_pop` computes once `head` is past the message.
pub length_after : ℕ → ℕ → ℕ → ℕ
length_after head tail cap = if ltb tail head then tail + cap - head else tail - head

-- `skynet_mq_pop`: `none` is the return value 1.
pub pop : MessageQueue → Option Message × MessageQueue
pop q =
    if q.head == q.tail
    then (none, record q { overload_threshold = mq_overload; in_global = 0 })
    else let head = if leb q.cap (q.head + 1) then 0 else q.head + 1 in
      let length = length_after head q.tail q.cap in
      let raised = raise_threshold (suc length) length (q.overload, q.overload_threshold) in
      (
        some (q.queue q.head),
        elim raised [
          | none ↦ record q { head = head }
          | some (o, t) ↦ record q { head = head; overload = o; overload_threshold = t }
        ],
      )

-- `expand_queue`; the new array is filled from the old one, and what lies beyond is not initialised.
pub expand_queue : MessageQueue → MessageQueue
expand_queue q = record q {
  head = 0;
  tail = q.cap;
  cap = q.cap * 2;
  queue = copy_cells q.queue q.head q.cap q.cap 0 q.queue;
}

-- The ring part of `skynet_mq_push`: the write, the step of `tail` and the growth.
unfoldable pub enqueue : MessageQueue → Message → MessageQueue
enqueue q m =
    let tail = if leb q.cap (q.tail + 1) then 0 else q.tail + 1 in
    let written = record q { queue = update q.queue q.tail m; tail = tail } in
    if q.head == tail then expand_queue written else written
