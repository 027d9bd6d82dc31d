-- ===== src/Cluster/Request/Packs.antt =====
-- The packets of `lpackrequest`: a small message is one packet, a large one is announced and cut.
use mathlib.Core.Path.{subst}
use game_server.Common.{
  ℕ, zero, suc, ◌+◌, ◌*◌, ◌%◌, ◌^◌, ◌<◌, ◌≤◌, ◌≡◌, refl, true, false, List, [], ◌∷◌, ◌++◌, map,
  length, take, drop, ltb, ◌||◌, inl, inr, arith, take-drop, take-length, length-take, length-drop,
}
use game_server.NetPack.Split.{frame}
use game_server.Cluster.{
  multi_part, Result, returned, Value, number, string, boolean, fill_uint32, part_count,
}
use game_server.Cluster.Packet.{push_packet-frame}
use game_server.Cluster.Request.{
  packreq_number, packreq_name, packreq_string, packreq_multi, packreq, Unpacked, lunpackrequest,
}
use game_server.Cluster.Request.Sent.{
  IsAddress, whole, start, part, number_body, name_body, lunpackrequest-number, length-name_body,
  lunpackrequest-number_start, lunpackrequest-name, lunpackrequest-name_start, lunpackrequest-part,
}

-- A packet, the number of parts that follow it, and what is read from it.
pub record Packet (sent : Result (List ℕ × ℕ)) (parts : ℕ) (u : Unpacked) : Type 0 where
  pub body : List ℕ
  pub packed : sent ≡ returned (frame body, parts)
  pub short : length body < 2 ^ 16
  pub unpacked : lunpackrequest body ≡ returned u

-- The address and the session of a packet are 32-bit numbers.
pub packreq-small :
    (addr : Value) (session : ℕ) (msg : List ℕ)
    → IsAddress addr
    → session < 2 ^ 32
    → length msg < multi_part
    → Packet (packreq addr session msg) 0 (whole addr session msg)
unfolding packreq_number packreq_string packreq_name fill_uint32
packreq-small (number id) session msg a b c =
    let mask : id % 2 ^ 32 ≡ id = omega arith in
    let small : ltb (length msg) multi_part ≡ true = ground arith in
    let body = number_body 0 id session msg in
    let fits = push_packet-frame (length msg + 9) body (omega arith) (omega arith) in
    record {
      body = body;
      packed = rw (packreq_number, mask, small, fits) refl;
      short = omega arith;
      unpacked = lunpackrequest-number id session msg a b;
    }
packreq-small (string name) session msg a b c =
    let small : ltb (length msg) multi_part ≡ true = ground arith in
    let named : (ltb (length name) 1 || ltb 255 (length name)) ≡ false = ground (arith, a.0, a.1) in
    let body = name_body 128 name session msg in
    let len = length-name_body 128 session name msg in
    let fits =
      push_packet-frame (length msg + 6 + length name) body (omega arith) (omega (arith, a.1)) in
    record {
      body = body;
      packed = rw (packreq_string, packreq_name, named, small, fits) refl;
      short = omega (arith, a.1);
      unpacked = lunpackrequest-name name session msg a.1 b;
    }
packreq-small (boolean b) session msg a c d = absurd a

pub packreq-large :
    (addr : Value) (session : ℕ) (msg : List ℕ)
    → IsAddress addr
    → session < 2 ^ 32
    → multi_part ≤ length msg
    → length msg < 2 ^ 32
    → Packet (packreq addr session msg) (part_count (length msg)) (start addr session (length msg))
unfolding packreq_number packreq_string packreq_name fill_uint32
packreq-large (number id) session msg a b c d =
    let mask : id % 2 ^ 32 ≡ id = omega arith in
    let large : ltb (length msg) multi_part ≡ false = ground arith in
    let body = number_body 1 id session (fill_uint32 (length msg)) in
    let fits = push_packet-frame 13 body refl (omega arith) in
    record {
      body = body;
      packed = rw (packreq_number, mask, large, fits) refl;
      short = omega arith;
      unpacked = lunpackrequest-number_start id session (length msg) a b d;
    }
packreq-large (string name) session msg a b c d =
    let large : ltb (length msg) multi_part ≡ false = ground arith in
    let named : (ltb (length name) 1 || ltb 255 (length name)) ≡ false = ground (arith, a.0, a.1) in
    let body = name_body 129 name session (fill_uint32 (length msg)) in
    let len = length-name_body 129 session name (fill_uint32 (length msg)) in
    let fits = push_packet-frame (10 + length name) body (omega arith) (omega (arith, a.1)) in
    record {
      body = body;
      packed = rw (packreq_string, packreq_name, named, large, fits) refl;
      short = omega (arith, a.1);
      unpacked = lunpackrequest-name_start name session (length msg) a.1 b d;
    }
packreq-large (boolean b) session msg a c d e = absurd a

-- Bodies that are read as the parts of a message, in order; only the last has no padding.
pub data Parts (session : ℕ) : List ℕ → List (List ℕ) → Type 0 where
  last :
      (msg body : List ℕ)
      → length body < 2 ^ 16
      → lunpackrequest body ≡ returned (part session msg false)
      → Parts session msg (body ∷ [])
  more :
      (front rest body : List ℕ) (bodies : List (List ℕ))
      → length body < 2 ^ 16
      → lunpackrequest body ≡ returned (part session front true)
      → Parts session rest bodies
      → Parts session (front ++ rest) (body ∷ bodies)

-- As many parts as the size asks for end with the message.
pub packreq_multi-Parts :
    (n session : ℕ) (msg : List ℕ)
    → session < 2 ^ 32
    → n * multi_part < length msg
    → length msg ≤ suc n * multi_part
    → (bodies : List (List ℕ)) × (packreq_multi (suc n) session msg ≡ returned (map frame bodies))
      × Parts session msg bodies
unfolding packreq_multi fill_uint32
packreq_multi-Parts zero session msg a b c =
    let all : ltb multi_part (length msg) ≡ false = ground arith in
    let body = 3 ∷ (fill_uint32 session ++ msg) in
    let cut = take-length msg in
    let fits = push_packet-frame (length msg + 5) body (omega arith) (omega arith) in
    (
      body ∷ [],
      rw (packreq_multi, all, cut, fits) refl,
      last msg body (omega arith) (lunpackrequest-part 3 session msg (inr refl) a),
    )
packreq_multi-Parts (suc n) session msg a b c =
    let some_left : ltb multi_part (length msg) ≡ true = ground arith in
    let front = take multi_part msg in
    let rest = drop multi_part msg in
    let len : length front ≡ multi_part = omega (arith, length-take multi_part msg) in
    let left = length-drop multi_part msg in
    let body = 2 ∷ (fill_uint32 session ++ front) in
    let fits = push_packet-frame (multi_part + 5) body (omega arith) (omega arith) in
    let (bodies, packed, parts) =
      packreq_multi-Parts n session rest a (omega arith) (omega arith) in
    (
      body ∷ bodies,
      rw (packreq_multi, some_left, fits, packed) refl,
      subst (λ xs. Parts session xs (body ∷ bodies)) (take-drop multi_part msg)
          (more front rest body bodies (omega arith)
            (lunpackrequest-part 2 session front (inl refl) a) parts),
    )
