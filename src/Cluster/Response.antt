-- ===== src/Cluster/Response.antt =====
-- Responses: `lpackresponse` and `lunpackresponse`.
pub mod Sent
pub mod Channel
pub mod RoundTrip
use game_server.Common.{
  ℕ, zero, suc, ◌+◌, ◌-◌, ◌*◌, ◌/◌, ◌%◌, ◌^◌, Bool, true, false, ◌||◌, Option, none, some, List, [],
  ◌∷◌, ◌++◌, length, take, drop, ltb, leb, ◌==◌, if◌then◌else◌,
}
use game_server.Cluster.{
  multi_part, Result, returned, raised, faulted, bind, Value, number, string, boolean, fill_uint32,
  push_packet, unpack_uint32, part_count, part_size,
}
use game_server.Cluster.Request.{byte_at}

-- A response is one packet, or a table of packets.
pub data Packets : Type 0 where
  single : List ℕ → Packets
  table : List (List ℕ) → Packets

-- the loop of `lpackresponse`: the parts that are left, and the bytes from `ptr` on
pub response_parts : ℕ → ℕ → List ℕ → Result (List (List ℕ))
response_parts zero session msg = returned []
response_parts (suc part) session msg =
    let sz = length msg in
    let s = part_size sz in
    let kind = if ltb multi_part sz then 3 else 4 in
    let rest = response_parts part session (drop s msg) in
    bind (push_packet (s + 5) (fill_uint32 session ++ (kind ∷ take s msg)))
      (λ packet. bind rest (λ packets. returned (packet ∷ packets)))

-- the packet behind the last `if` of `lpackresponse`
pub response_packet : ℕ → ℕ → List ℕ → Result Packets
response_packet session ok msg =
    bind (push_packet (length msg + 5) (fill_uint32 session ++ (ok ∷ msg)))
      (λ packet. returned (single packet))

-- `lpackresponse`; the message is the bytes of the string or of the block that Lua hands over.
pub lpackresponse : ℕ → Bool → List ℕ → Result Packets
lpackresponse session false msg = response_packet session 0 (take (part_size (length msg)) msg)
lpackresponse session true msg =
    let sz = length msg in
    if ltb multi_part sz
    then bind (push_packet 9 (fill_uint32 session ++ (2 ∷ fill_uint32 sz))) (λ begin.
      bind (response_parts (part_count sz) session msg) (λ parts. returned (table (begin ∷ parts))))
    else response_packet session 1 msg

-- What `lunpackresponse` returns to Lua; an absent `padding` is false.
pub record Response : Type 0 where
  pub session : ℕ
  pub ok : Bool
  pub msg : Value
  pub padding : Bool

-- the `switch` of `lunpackresponse`
pub response_of : ℕ → ℕ → List ℕ → Result (Option Response)
response_of session kind buf =
    let msg = string (drop 5 buf) in
    if kind == 0
    then returned (some (record { session = session; ok = false; msg = msg; padding = false }))
    else if (kind == 1) || (kind == 4)
    then returned (some (record { session = session; ok = true; msg = msg; padding = false }))
    else if kind == 2
    then if length buf == 9
      then bind (unpack_uint32 (drop 5 buf)) (λ size.
        returned
          (some (record { session = session; ok = true; msg = number size; padding = true })))
      else returned none
    else if kind == 3
    then returned (some (record { session = session; ok = true; msg = msg; padding = true }))
    else returned none

-- `lunpackresponse`; `none` is the return of no value.
pub lunpackresponse : List ℕ → Result (Option Response)
lunpackresponse buf =
    if ltb (length buf) 5
    then returned none
    else (bind (unpack_uint32 buf)
        (λ session. bind (byte_at 4 buf) (λ kind. response_of session kind buf)))
