-- ===== src/Cluster/Request.antt =====
-- Requests: `lpackrequest` and `lunpackrequest`.
pub mod Sent
pub mod Packs
pub mod Call
pub mod Total
use game_server.Common.{
  ℕ, zero, suc, ◌+◌, ◌-◌, ◌*◌, ◌/◌, ◌%◌, ◌^◌, Bool, true, false, ◌||◌, Option, none, some, List, [],
  ◌∷◌, ◌++◌, length, take, drop, ltb, leb, ◌==◌, if◌then◌else◌,
}
use game_server.Cluster.{
  multi_part, Result, returned, raised, faulted, bind, Value, number, string, boolean, fill_uint32,
  push_packet, unpack_uint32, part_count, part_size,
}

-- `packreq_number`: the packet and the number of parts that follow it. The address is what
-- `lua_tointeger` gives, the message is the `sz` bytes at `msg`.
pub packreq_number : ℕ → ℕ → List ℕ → Result (List ℕ × ℕ)
packreq_number id session msg =
    let sz = length msg in
    let addr = id % 2 ^ 32 in
    if ltb sz multi_part
    then bind (push_packet (sz + 9) (0 ∷ (fill_uint32 addr ++ (fill_uint32 session ++ msg))))
        (λ packet. returned (packet, 0))
    else bind (push_packet 13 (1 ∷ (fill_uint32 addr ++ (fill_uint32 session ++ fill_uint32 sz))))
        (λ packet. returned (packet, part_count sz))

-- `packreq_string` of a name
pub packreq_name : List ℕ → ℕ → List ℕ → Result (List ℕ × ℕ)
packreq_name name session msg =
    let sz = length msg in
    let namelen = length name in
    if ltb namelen 1 || ltb 255 namelen
    then raised
    else (if ltb sz multi_part
        then bind
            (push_packet (sz + 6 + namelen)
              (128 ∷ (namelen % 2 ^ 8) ∷ (name ++ (fill_uint32 session ++ msg))))
            (λ packet. returned (packet, 0))
        else bind
            (push_packet (10 + namelen)
              (129 ∷ (namelen % 2 ^ 8) ∷ (name ++ (fill_uint32 session ++ fill_uint32 sz))))
            (λ packet. returned (packet, part_count sz)))

-- `packreq_string`; `lua_tolstring` of a boolean is `NULL`.
pub packreq_string : Value → ℕ → List ℕ → Result (List ℕ × ℕ)
packreq_string (string name) session msg = packreq_name name session msg
packreq_string (number n) session msg = raised
packreq_string (boolean b) session msg = raised

-- the loop of `packreq_multi`: the parts that are left, and the bytes from `ptr` on
pub packreq_multi : ℕ → ℕ → List ℕ → Result (List (List ℕ))
packreq_multi zero session msg = returned []
packreq_multi (suc part) session msg =
    let sz = length msg in
    let s = part_size sz in
    let kind = if ltb multi_part sz then 2 else 3 in
    let rest = packreq_multi part session (drop s msg) in
    bind (push_packet (s + 5) (kind ∷ (fill_uint32 session ++ take s msg)))
      (λ packet. bind rest (λ packets. returned (packet ∷ packets)))

-- What `lpackrequest` returns to Lua; a table of parts when the message is large.
pub record PackedRequest : Type 0 where
  pub request : List ℕ
  pub next_session : ℕ
  pub padding : Option (List (List ℕ))

-- The session behind a positive `int`: the successor of the largest one wraps below 0.
pub advance : ℕ → ℕ
advance session = if leb (2 ^ 31) (session + 1) then 1 else session + 1

abbrev pub packreq : Value → ℕ → List ℕ → Result (List ℕ × ℕ)
packreq (number id) session msg = packreq_number id session msg
packreq (string name) session msg = packreq_string (string name) session msg
packreq (boolean b) session msg = packreq_string (boolean b) session msg

-- `lpackrequest`; the session is an `int` by its 32-bit pattern, no message is `NULL`.
pub lpackrequest : Value → ℕ → Option (List ℕ) → Result PackedRequest
lpackrequest addr session none = raised
lpackrequest addr session (some msg) =
    if (session == 0) || leb (2 ^ 31) session
    then raised
    else (bind (packreq addr session msg) (λ (request, multipak).
        if multipak == 0
        then returned (record { request = request; next_session = advance session; padding = none })
        else bind (packreq_multi multipak session msg) (λ parts.
          returned
            (record { request = request; next_session = advance session; padding = some parts }))))

-- What `lunpackrequest` returns to Lua; an absent `padding` is false.
pub record Unpacked : Type 0 where
  pub addr : Value
  pub session : ℕ
  pub msg : Value
  pub padding : Bool

-- the byte at an index
pub byte_at : ℕ → List ℕ → Result ℕ
byte_at i [] = faulted
byte_at zero (b ∷ buf) = returned b
byte_at (suc i) (b ∷ buf) = byte_at i buf

-- `unpackreq_number`
pub unpackreq_number : List ℕ → Result Unpacked
unpackreq_number buf =
    if ltb (length buf) 9
    then raised
    else (bind (unpack_uint32 (drop 1 buf)) (λ address.
        bind (unpack_uint32 (drop 5 buf)) (λ session. returned (record {
          addr = number address;
          session = session;
          msg = string (drop 9 buf);
          padding = false;
        }))))

-- `unpackmreq_number`
pub unpackmreq_number : List ℕ → Result Unpacked
unpackmreq_number buf =
    if length buf == 13
    then bind (unpack_uint32 (drop 1 buf)) (λ address. bind (unpack_uint32 (drop 5 buf)) (λ session.
      bind (unpack_uint32 (drop 9 buf)) (λ size.
        returned (record {
          addr = number address;
          session = session;
          msg = number size;
          padding = true;
        }))))
    else raised

-- `unpackmreq_part`
pub unpackmreq_part : List ℕ → Result Unpacked
unpackmreq_part buf =
    if ltb (length buf) 5
    then raised
    else (bind (byte_at 0 buf) (λ kind. bind (unpack_uint32 (drop 1 buf)) (λ session.
        returned (record {
          addr = boolean false;
          session = session;
          msg = string (drop 5 buf);
          padding = kind == 2;
        }))))

-- `unpackreq_string`
pub unpackreq_string : List ℕ → Result Unpacked
unpackreq_string buf =
    if ltb (length buf) 2
    then raised
    else (bind (byte_at 1 buf) (λ namesz.
        if ltb (length buf) (namesz + 6)
        then raised
        else (bind (unpack_uint32 (drop (namesz + 2) buf)) (λ session. returned (record {
          addr = string (take namesz (drop 2 buf));
          session = session;
          msg = string (drop (namesz + 6) buf);
          padding = false;
        })))))

-- `unpackmreq_string`
pub unpackmreq_string : List ℕ → Result Unpacked
unpackmreq_string buf =
    if ltb (length buf) 2
    then raised
    else (bind (byte_at 1 buf) (λ namesz.
        if ltb (length buf) (namesz + 10)
        then raised
        else (bind (unpack_uint32 (drop (namesz + 2) buf)) (λ session.
            bind (unpack_uint32 (drop (namesz + 6) buf)) (λ size. returned (record {
              addr = string (take namesz (drop 2 buf));
              session = session;
              msg = number size;
              padding = true;
            }))))))

-- `lunpackrequest`; behind the bytes of a Lua string stands a 0.
pub lunpackrequest : List ℕ → Result Unpacked
lunpackrequest [] = unpackreq_number []
lunpackrequest (kind ∷ rest) =
    let buf = kind ∷ rest in
    if kind == 0
    then unpackreq_number buf
    else (if kind == 1
        then unpackmreq_number buf
        else (if (kind == 2) || (kind == 3)
            then unpackmreq_part buf
            else (if kind == 128
                then unpackreq_string buf
                else (if kind == 129 then unpackmreq_string buf else raised))))
