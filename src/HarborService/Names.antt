-- ===== src/HarborService/Names.antt =====
-- Messages to other nodes, by a global name, and what happens when the handle of a name is learned.
pub mod Search
pub mod Waiting
pub mod Delivered
pub mod Links
use Prim.Native.Nat.{bit_or, bit_xor}
use game_server.Common.{
  ℕ, zero, suc, ◌+◌, ◌-◌, ◌*◌, ◌/◌, ◌%◌, ◌^◌, Bool, true, false, ◌&&◌, Option, none, some, List, [],
  ◌∷◌, ◌++◌, length, take, drop, le_value, ◌==◌, ltb, if◌then◌else◌, update,
}
use game_server.HarborService.{
  RemoteHeader, HarborMsg, HarborMsgQueue, push_queue_msg, drain_queue, KeyValue, Slave, Harbor,
  Action, send, complain,
}
use game_server.HarborService.Wire.{send_all}
use game_server.HarborService.Receive.{dontcopy}
use game_server.HarborService.Send.{is_down, addressed, queued, remote_send_handle}

-- `ptr[0] ^ ptr[1] ^ ptr[2] ^ ptr[3]` of the 16 bytes of a name
unfoldable pub name_hash : List ℕ → ℕ
name_hash name =
    bit_xor
      (bit_xor (bit_xor (le_value (take 4 name)) (le_value (take 4 (drop 4 name))))
        (le_value (take 4 (drop 8 name))))
      (le_value (take 4 (drop 12 name)))

-- `strncmp(a, b, n) == 0` on `n` bytes each
unfoldable pub same_text : List ℕ → List ℕ → Bool
same_text (a ∷ xs) (b ∷ ys) =
    let rest = same_text xs ys in if a == b then (if a == 0 then true else rest) else false
same_text (a ∷ xs) [] = true
same_text [] ys = true

-- The test of `hash_search` on a node.
unfoldable pub is_node : List ℕ → KeyValue → Bool
is_node name node = (node.hash == name_hash name) && same_text node.key name

-- The walk of `hash_search` along a chain.
unfoldable pub find_node : List ℕ → List KeyValue → Option KeyValue
find_node name [] = none
find_node name (node ∷ nodes) =
    let rest = find_node name nodes in if is_node name node then some node else rest

-- `hash_search`
unfoldable pub hash_search : (ℕ → List KeyValue) → List ℕ → Option KeyValue
hash_search map name = find_node name (map (name_hash name % 4096))

-- A write through the pointer that `hash_search` returns.
pub write_node : List ℕ → KeyValue → List KeyValue → List KeyValue
write_node name new [] = []
write_node name new (node ∷ nodes) =
    let rest = write_node name new nodes in if is_node name node then new ∷ nodes else node ∷ rest

-- The node that `hash_insert` makes.
pub new_node : List ℕ → KeyValue
new_node name = record { key = name; hash = name_hash name; value = 0; queue = none }

-- `hash_insert`
pub hash_insert : (ℕ → List KeyValue) → List ℕ → ℕ → List KeyValue
hash_insert map name =
    update map (name_hash name % 4096) (new_node name ∷ map (name_hash name % 4096))

-- `if (node == NULL) node = hash_insert(h->map, name);`
pub found_map : (ℕ → List KeyValue) → List ℕ → ℕ → List KeyValue
found_map map name = elim (hash_search map name) [ none ↦ hash_insert map name | some node ↦ map ]

pub found_node : (ℕ → List KeyValue) → List ℕ → KeyValue
found_node map name = elim (hash_search map name) [ none ↦ new_node name | some node ↦ node ]

pub store : (ℕ → List KeyValue) → List ℕ → KeyValue → ℕ → List KeyValue
store map name node =
    update map (name_hash name % 4096) (write_node name node (map (name_hash name % 4096)))

-- `m->header.destination |= (handle & HANDLE_MASK)`; where the low bits are 0, the one is the other.
pub or_handle : ℕ → ℕ → ℕ
or_handle destination handle =
    if destination % 2 ^ 24 == 0
    then destination + handle % 2 ^ 24
    else bit_or destination (handle % 2 ^ 24)

pub with_handle : ℕ → HarborMsg → HarborMsg
with_handle handle m = record m {
  header = record m.header { destination = or_handle m.header.destination handle };
}

pub all_with_handle : ℕ → List HarborMsg → List HarborMsg
all_with_handle handle [] = []
all_with_handle handle (m ∷ ms) = with_handle handle m ∷ all_with_handle handle ms

-- The messages of a queue pushed to another.
pub push_all : HarborMsgQueue → List HarborMsg → HarborMsgQueue
push_all q [] = q
push_all q (m ∷ ms) = push_all (push_queue_msg q m) ms

-- The queue of the slave after `dispatch_name_queue` has given it that of the name.
pub joined : Option HarborMsgQueue → HarborMsgQueue → Option HarborMsgQueue
joined none queue = some queue
joined (some q) queue = elim (drain_queue queue) [ none ↦ none | some ms ↦ some (push_all q ms) ]

-- The sends to a name of this node.
pub send_local : ℕ → List HarborMsg → List Action
send_local handle [] = []
send_local handle (m ∷ ms) =
    send m.header.source handle (dontcopy (m.header.destination / 2 ^ 24)) m.header.session m.buffer
    ∷ send_local handle ms

-- `dispatch_name_queue`, with the key, the value and the queue of the node.
pub dispatch_name_queue : Harbor → ℕ → HarborMsgQueue → Option (List Action × Harbor)
dispatch_name_queue h handle queue =
    let harbor_id = handle / 2 ^ 24 in
    let s = h.s harbor_id in
    if s.fd == 0
    then (if is_down s.status then some (complain ∷ [], h) else elim (joined s.queue queue) [
      | none ↦ none
      | some q ↦
          if harbor_id == h.slave / 2 ^ 24
          then elim (drain_queue q) [
            | none ↦ none
            | some ms ↦ some (
              send_local handle ms,
              record h { s = update h.s harbor_id (record s { queue = none }) },
            )
          ]
          else some ([], record h { s = update h.s harbor_id (record s { queue = some q }) })
    ])
    else elim (drain_queue queue) [
      | none ↦ none
      | some ms ↦ some (send_all s.fd (all_with_handle handle ms), h)
    ]

-- `update_name`
pub update_name : Harbor → List ℕ → ℕ → Option (List Action × Harbor)
update_name h name handle =
    let map = found_map h.map name in
    let node = record (found_node h.map name) { value = handle } in
    elim node.queue [
      | none ↦ some ([], record h { map = store map name node })
      | some queue ↦ elim (dispatch_name_queue h handle queue) [
        | none ↦ none
        | some (actions, h') ↦
            some (actions, record h' { map = store map name (record node { queue = none }) })
      ]
    ]

-- The bytes of a text before its end.
pub text_of : List ℕ → List ℕ
text_of [] = []
text_of (b ∷ bs) = let rest = text_of bs in if b == 0 then [] else b ∷ rest

-- `remote_send_name`; the last component is whether it returns 1.
pub remote_send_name :
    (ℕ → HarborMsg) → Harbor → ℕ → List ℕ → ℕ → ℕ → List ℕ → List Action × Harbor × Bool
remote_send_name fresh h source name type session msg =
    let map = found_map h.map name in
    let node = found_node h.map name in
    let m : HarborMsg = record {
      header = record { source = source; destination = type * 2 ^ 24 % 2 ^ 32; session = session };
      buffer = msg;
    } in
    if node.value == 0
    then (
      send 0 h.slave 0 0 (81 ∷ 32 ∷ text_of name) ∷ [],
      record h { map = store map name (record node { queue = some (queued fresh node.queue m) }) },
      true,
    )
    else remote_send_handle fresh (record h { map = map }) source node.value type session msg
