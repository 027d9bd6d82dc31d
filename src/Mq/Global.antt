-- ===== src/Mq/Global.antt =====
-- The global queue of skynet_mq.c: the queues that have something to do, linked by their `next`. Queues
-- are at addresses; `none` is a failed assertion or an access to a queue that was freed.
pub mod Links
pub mod Lists
pub mod Sound
pub mod Moves
pub mod Calls
pub mod Release
pub mod Workers
pub mod Safety
use game_server.Common.{
  ℕ, suc, ◌+◌, Bool, true, false, Option, none, some, List, [], ◌∷◌, ◌==◌, if◌then◌else◌, update,
}
use game_server.Mq.{Message, MessageQueue, mq_in_global, create, pop, enqueue, mq_length}
use game_server.Mq.Drain.{drain}

-- The queues in memory, and `struct global_queue`.
pub record World : Type 0 where
  pub queues : ℕ → Option MessageQueue
  pub head : Option ℕ
  pub tail : Option ℕ

-- `skynet_mq_init`
unfoldable pub mq_init : World
mq_init = record { queues = λ _. none; head = none; tail = none }

-- a queue written back to its address
abbrev pub put : ℕ → MessageQueue → World → World
put a q w = record w { queues = update w.queues a (some q) }

-- `skynet_globalmq_push`
pub globalmq_push : ℕ → World → Option World
globalmq_push a w = elim (w.queues a) [
  | none ↦ none
  | some q ↦ elim q.next [
    | some b ↦ none
    | none ↦ elim w.tail [
      | none ↦ some (record w { head = some a; tail = some a })
      | some t ↦ elim (w.queues t) [
        | none ↦ none
        | some l ↦ some (record (put t (record l { next = some a }) w) { tail = some a })
      ]
    ]
  ]
]

-- `mq == q->tail`
abbrev pub is_tail : ℕ → Option ℕ → Bool
is_tail a none = false
is_tail a (some t) = a == t

-- `skynet_globalmq_pop`
pub globalmq_pop : World → Option (Option ℕ × World)
globalmq_pop w = elim w.head [
  | none ↦ some (none, w)
  | some a ↦ elim (w.queues a) [
    | none ↦ none
    | some q ↦ elim q.next [
      | none ↦
          if is_tail a w.tail
          then some
              (some a, record (put a (record q { next = none }) w) { head = none; tail = none })
          else none
      | some b ↦ some (some a, record (put a (record q { next = none }) w) { head = some b })
    ]
  ]
]

-- `skynet_mq_push`
unfoldable pub mq_push : ℕ → Message → World → Option World
mq_push a m w = elim (w.queues a) [
  | none ↦ none
  | some q ↦
      let q' = enqueue q m in
      if q'.in_global == 0
      then globalmq_push a (put a (record q' { in_global = mq_in_global }) w)
      else some (put a q' w)
]

-- `skynet_mq_pop` of a queue in memory
pub mq_pop : ℕ → World → Option (Option Message × World)
mq_pop a w = elim (w.queues a) [ none ↦ none | some q ↦ some ((pop q).0, put a (pop q).1 w) ]

-- `skynet_mq_mark_release`
pub mq_mark_release : ℕ → World → Option World
mq_mark_release a w = elim (w.queues a) [
  | none ↦ none
  | some q ↦
      if q.release == 0
      then (if q.in_global == mq_in_global
          then some (put a (record q { release = 1 }) w)
          else globalmq_push a (put a (record q { release = 1 }) w))
      else none
]

-- `skynet_mq_release`, `_drop_queue` and `_release`: the messages that are dropped, if the queue is
-- freed.
pub mq_release : ℕ → World → Option (Option (List Message) × World)
mq_release a w = elim (w.queues a) [
  | none ↦ none
  | some q ↦
      if q.release == 0
      then elim (globalmq_push a w) [ none ↦ none | some w' ↦ some (none, w') ]
      else elim (drain (suc (mq_length q)) q) [
        | none ↦ none
        | some (ms, q') ↦ elim q'.next [
          | some b ↦ none
          | none ↦ some (
            some ms,
            record w { queues = update w.queues a (let gone : Option MessageQueue = none in gone) },
          )
        ]
      ]
]

-- `skynet_mq_create` at a free address
abbrev pub mq_create : ℕ → ℕ → (ℕ → Message) → World → World
mq_create a handle cells w = put a (create handle cells) w
