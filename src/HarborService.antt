-- ===== src/HarborService.antt =====
-- skynet-dist/service-src/service_harbor.c: the service that passes messages between the nodes. Its
-- state and its queues are here, and what it asks of other parts is a list of actions in their order.
pub mod Queue
pub mod Wire
pub mod Receive
pub mod Send
pub mod Names
pub mod Service
use game_server.Common.Ring.{copy_cells}
use game_server.Common.{
  ℕ, zero, suc, ◌+◌, ◌-◌, ◌*◌, ◌/◌, ◌%◌, ◌^◌, Option, none, some, List, [], ◌∷◌, ◌++◌, ◌==◌,
  if◌then◌else◌, update,
}

-- `struct remote_message_header`
pub record RemoteHeader : Type 0 where
  pub source : ℕ
  pub destination : ℕ
  pub session : ℕ

-- `struct harbor_msg`; the bytes stand for `buffer` and `size`.
pub record HarborMsg : Type 0 where
  pub header : RemoteHeader
  pub buffer : List ℕ

-- `struct harbor_msg_queue`, a ring
pub record HarborMsgQueue : Type 0 where
  pub size : ℕ
  pub head : ℕ
  pub tail : ℕ
  pub cells : ℕ → HarborMsg

-- `STATUS_WAIT` to `STATUS_DOWN`
pub data Status : Type 0 where
  wait handshake header content down : Status

-- `struct slave`; `received` is the first `read` bytes of `size`, or of `recv_buffer` if the status is
-- `content`.
pub record Slave : Type 0 where
  pub fd : ℕ
  pub queue : Option HarborMsgQueue
  pub status : Status
  pub length : ℕ
  pub received : List ℕ

-- `struct keyvalue`; a key is 16 bytes.
pub record KeyValue : Type 0 where
  pub key : List ℕ
  pub hash : ℕ
  pub value : ℕ
  pub queue : Option HarborMsgQueue

-- `struct harbor`; a bucket of the map is the chain of its nodes.
pub record Harbor : Type 0 where
  pub id : ℕ
  pub slave : ℕ
  pub map : ℕ → List KeyValue
  pub s : ℕ → Slave

-- `send source destination type session bytes` is skynet_send, the next three are skynet_socket_send,
-- skynet_socket_close and skynet_socket_start, and `complain` is a call of skynet_error.
pub data Action : Type 0 where
  send : ℕ → ℕ → ℕ → ℕ → List ℕ → Action
  socket_send : ℕ → List ℕ → Action
  socket_close : ℕ → Action
  socket_start : ℕ → Action
  complain : Action

abbrev pub default_queue_size : ℕ
default_queue_size = 1024

-- `new_queue`; `cells` is what the allocated array happens to hold.
pub new_queue : (ℕ → HarborMsg) → HarborMsgQueue
new_queue cells = record { size = default_queue_size; head = 0; tail = 0; cells = cells }

-- The growth in `push_queue_msg`; beyond the copied cells the new array is not initialised.
pub grow_queue : HarborMsgQueue → HarborMsgQueue
grow_queue q = record {
  size = q.size * 2;
  head = 0;
  tail = q.size - 1;
  cells = copy_cells q.cells q.head q.size (q.size - 1) 0 q.cells;
}

-- The write at the end of `push_queue_msg`.
pub put_message : HarborMsgQueue → HarborMsg → HarborMsgQueue
put_message q m = record q { cells = update q.cells q.tail m; tail = (q.tail + 1) % q.size }

-- `push_queue_msg`
pub push_queue_msg : HarborMsgQueue → HarborMsg → HarborMsgQueue
push_queue_msg q m = put_message (if (q.tail + 1) % q.size == q.head then grow_queue q else q) m

-- `pop_queue`
pub pop_queue : HarborMsgQueue → Option (HarborMsg × HarborMsgQueue)
pop_queue q =
    if q.head == q.tail
    then none
    else some (q.cells q.head, record q { head = (q.head + 1) % q.size })

-- The loops `while ((m = pop_queue(queue)) != NULL)` on fuel: the messages that they take, in order.
pub pop_all : ℕ → HarborMsgQueue → Option (List HarborMsg)
pop_all zero q = none
pop_all (suc fuel) q = elim (pop_queue q) [
  | none ↦ some []
  | some (m, q') ↦ elim (pop_all fuel q') [ none ↦ none | some ms ↦ some (m ∷ ms) ]
]

pub drain_queue : HarborMsgQueue → Option (List HarborMsg)
drain_queue q = pop_all q.size q

-- `close_harbor`: the slave's part; its queue is freed.
unfoldable pub close_harbor : Slave → List Action × Slave
close_harbor s =
    (if s.fd == 0 then [] else socket_close s.fd ∷ [], record s { status = down; queue = none })
