-- ===== src/NetPack.antt =====
-- skynet-dist/lualib-src/lua-netpack.c: packets with a two-byte length in front, cut out of the bytes
-- that sockets deliver. The bytes of a buffer are a list; a queue that Lua has not made yet, `NULL`,
-- is the one that `get_queue` makes, which has no packet and nothing to complete either.
pub mod Ready
pub mod Table
pub mod Split
pub mod Filter
pub mod Fill
pub mod Chunk
pub mod Deliver
pub mod Messages
use game_server.Common.Ring.{copy_cells}
use game_server.Common.{
  ℕ, zero, suc, ◌+◌, ◌-◌, ◌*◌, ◌/◌, ◌%◌, ◌^◌, Bool, Option, none, some, List, [], ◌∷◌, ◌++◌, length,
  take, drop, ltb, leb, ◌==◌, if◌then◌else◌, update,
}

-- `struct netpack`
pub record Netpack : Type 0 where
  pub id : ℕ
  pub size : ℕ
  pub buffer : List ℕ

-- What a socket has delivered of a packet: the first byte of its header (`read` is -1), or its size
-- and the first `read` bytes.
pub data Progress : Type 0 where
  header_only : ℕ → Progress
  filling : ℕ → List ℕ → Progress

-- `struct uncomplete`
pub record Uncomplete : Type 0 where
  pub id : ℕ
  pub progress : Progress

abbrev pub queue_size : ℕ
queue_size = 1024

abbrev pub hash_size : ℕ
hash_size = 4096

-- `struct queue`; a chain of `hash` is a list.
pub record PackQueue : Type 0 where
  pub cap : ℕ
  pub head : ℕ
  pub tail : ℕ
  pub hash : ℕ → List Uncomplete
  pub queue : ℕ → Netpack

-- `get_queue` where there is none; `cells` is what the allocated array happens to hold.
unfoldable pub get_queue : (ℕ → Netpack) → PackQueue
get_queue cells = record { cap = queue_size; head = 0; tail = 0; hash = λ _. []; queue = cells }

unfoldable pub hash_fd : ℕ → ℕ
hash_fd fd = (fd / 2 ^ 24 + fd / 2 ^ 12 + fd) % 2 ^ 32 % hash_size

-- `find_uncomplete` on one chain: the entry, and the chain without it.
pub find_uncomplete : ℕ → List Uncomplete → Option Progress
find_uncomplete fd [] = none
find_uncomplete fd (uc ∷ ucs) =
    let rest = find_uncomplete fd ucs in if uc.id == fd then some uc.progress else rest

pub unlink : ℕ → List Uncomplete → List Uncomplete
unlink fd [] = []
unlink fd (uc ∷ ucs) = let rest = unlink fd ucs in if uc.id == fd then ucs else uc ∷ rest

-- `expand_queue`: the new queue.
pub expand_queue : PackQueue → PackQueue
expand_queue q = record q {
  cap = q.cap + queue_size;
  head = 0;
  tail = q.cap;
  queue = copy_cells q.queue q.head q.cap q.cap 0 q.queue;
}

-- `push_data`
pub push_data : Netpack → PackQueue → PackQueue
push_data np q =
    let tail = if leb q.cap (q.tail + 1) then q.tail + 1 - q.cap else q.tail + 1 in
    let written = record q { queue = update q.queue q.tail np; tail = tail } in
    if q.head == tail then expand_queue written else written

-- `save_uncomplete`, and what its callers then store in the entry.
pub save_uncomplete : ℕ → Progress → PackQueue → PackQueue
save_uncomplete fd p q = record q {
  hash = update q.hash (hash_fd fd) (record { id = fd; progress = p } ∷ q.hash (hash_fd fd));
}

abbrev pub netpack : ℕ → ℕ → List ℕ → Netpack
netpack fd size buffer = record { id = fd; size = size; buffer = buffer }

-- `read_size`
abbrev pub read_size : ℕ → ℕ → ℕ
read_size a b = a * 2 ^ 8 + b

-- `push_more` on fuel. `none` is a read past the buffer, or a run that is not over.
pub push_more : ℕ → ℕ → List ℕ → PackQueue → Option PackQueue
push_more zero fd buffer q = none
push_more (suc fuel) fd [] q = none
push_more (suc fuel) fd (h ∷ []) q = some (save_uncomplete fd (header_only h) q)
push_more (suc fuel) fd (a ∷ b ∷ buffer) q =
    let pack_size = read_size a b in
    let pushed = push_data (netpack fd pack_size (take pack_size buffer)) q in
    let rest = push_more fuel fd (drop pack_size buffer) pushed in
    if ltb (length buffer) pack_size
    then some (save_uncomplete fd (filling pack_size buffer) q)
    else if ltb 0 (length buffer - pack_size)
    then rest
    else some pushed

-- What `filter_data_` returns: nothing but the queue, one packet, or word that the queue has packets.
pub data Answer : Type 0 where
  wait : Answer
  packet : Netpack → Answer
  more : Answer

-- the end of both branches with "more data": the first packet is queued, the rest is cut up
pub queue_all : ℕ → Netpack → List ℕ → PackQueue → Option (Answer × PackQueue)
queue_all fd np buffer q = elim (push_more (suc (length buffer)) fd buffer (push_data np q)) [
  | none ↦ none
  | some q' ↦ some (more, q')
]

-- The branch of `filter_data_` for a packet of which `got` is there, `q` without its entry.
pub fill : ℕ → ℕ → List ℕ → List ℕ → PackQueue → Option (Answer × PackQueue)
fill fd pack_size got buffer q =
    let need = pack_size - length got in
    let whole = netpack fd pack_size (got ++ take need buffer) in
    let onwards = queue_all fd whole (drop need buffer) q in
    if ltb (length buffer) need
    then some (wait, save_uncomplete fd (filling pack_size (got ++ buffer)) q)
    else if length buffer - need == 0
    then some (packet whole, q)
    else onwards

-- `filter_data_` where an entry is found: the second byte of the header first, if it is missing.
pub filter_found : ℕ → Progress → List ℕ → PackQueue → Option (Answer × PackQueue)
filter_found fd (header_only h) [] q = none
filter_found fd (header_only h) (b ∷ buffer) q = fill fd (read_size h b) [] buffer q
filter_found fd (filling pack_size got) buffer q = fill fd pack_size got buffer q

-- `filter_data_` where there is no entry.
pub filter_new : ℕ → List ℕ → PackQueue → Option (Answer × PackQueue)
filter_new fd [] q = none
filter_new fd (h ∷ []) q = some (wait, save_uncomplete fd (header_only h) q)
filter_new fd (a ∷ b ∷ buffer) q =
    let pack_size = read_size a b in
    let first = netpack fd pack_size (take pack_size buffer) in
    let onwards = queue_all fd first (drop pack_size buffer) q in
    if ltb (length buffer) pack_size
    then some (wait, save_uncomplete fd (filling pack_size buffer) q)
    else if length buffer == pack_size
    then some (packet first, q)
    else onwards

-- `filter_data_`; `none` is a read past the buffer.
pub filter_data : ℕ → List ℕ → PackQueue → Option (Answer × PackQueue)
filter_data fd buffer q = elim (find_uncomplete fd (q.hash (hash_fd fd))) [
  | none ↦ filter_new fd buffer q
  | some p ↦
      filter_found fd p buffer
        (record q { hash = update q.hash (hash_fd fd) (unlink fd (q.hash (hash_fd fd))) })
]

-- `close_uncomplete`
pub close_uncomplete : ℕ → PackQueue → PackQueue
close_uncomplete fd q = record q {
  hash = update q.hash (hash_fd fd) (unlink fd (q.hash (hash_fd fd)));
}

-- `lpop`
pub lpop : PackQueue → Option Netpack × PackQueue
lpop q =
    if q.head == q.tail
    then (none, q)
    else let head = if leb q.cap (q.head + 1) then 0 else q.head + 1 in
      (some (q.queue q.head), record q { head = head })

-- `lclear`
pub lclear : PackQueue → PackQueue
lclear q = record q { hash = λ _. []; head = 0; tail = 0 }

-- `write_size`
abbrev pub write_size : ℕ → List ℕ
write_size len = len / 2 ^ 8 % 2 ^ 8 ∷ len % 2 ^ 8 ∷ []

-- `lpack`: `none` is the error for 65536 bytes and more.
pub lpack : List ℕ → Option (List ℕ)
lpack bytes = if leb 65536 (length bytes) then none else some (write_size (length bytes) ++ bytes)
