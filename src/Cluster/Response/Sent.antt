-- ===== src/Cluster/Response/Sent.antt =====
-- The packets of `lpackresponse` are read by `lunpackresponse` as they were written.
use mathlib.Core.Path.{subst}
use game_server.Common.{
  ℕ, zero, suc, ◌+◌, ◌-◌, ◌*◌, ◌/◌, ◌%◌, ◌^◌, ◌<◌, ◌≤◌, ◌≡◌, refl, ap, ◌∙◌, Bool, true, false, some,
  List, [], ◌∷◌, ◌++◌, map, length, take, drop, ltb, arith, take-drop, take-length, length-take,
  length-drop,
}
use game_server.NetPack.Split.{frame}
use game_server.Cluster.{
  multi_part, Result, returned, Value, number, string, fill_uint32, part_count,
}
use game_server.Cluster.Packet.{unpack_uint32-fill_uint32, push_packet-frame}
use game_server.Cluster.Request.Call.{byte_at_four}
use game_server.Cluster.Response.{
  Packets, single, table, response_parts, response_packet, lpackresponse, Response, response_of,
  lunpackresponse,
}

abbrev pub reply : ℕ → Bool → Value → Bool → Response
reply session ok msg more = record { session = session; ok = ok; msg = msg; padding = more }

abbrev response_body : ℕ → ℕ → List ℕ → List ℕ
response_body session kind rest = fill_uint32 session ++ (kind ∷ rest)

-- A packet is its session, and the type and the rest are read by the `switch`.
lunpackresponse_body :
    (session kind : ℕ) (rest : List ℕ)
    → session < 2 ^ 32
    → lunpackresponse (response_body session kind rest)
      ≡ response_of session kind (response_body session kind rest)
unfolding lunpackresponse fill_uint32
lunpackresponse_body session kind rest lt =
    let few : ltb (length (response_body session kind rest)) 5 ≡ false = ground arith in
    let first = unpack_uint32-fill_uint32 session (kind ∷ rest) lt in
    let type_of =
      byte_at_four (session % 2 ^ 8) (session / 2 ^ 8 % 2 ^ 8) (session / 2 ^ 16 % 2 ^ 8)
        (session / 2 ^ 24 % 2 ^ 8) kind rest in
    rw (lunpackresponse, few, first, type_of) refl

-- A packet, and what is read from it.
pub record Written (sent : Result Packets) (r : Response) : Type 0 where
  pub body : List ℕ
  pub packed : sent ≡ returned (single (frame body))
  pub short : length body < 2 ^ 16
  pub unpacked : lunpackresponse body ≡ returned (some r)

abbrev pub bit : Bool → ℕ
bit true = 1
bit false = 0

-- The last packet of `lpackresponse`: of a message that is not large.
pub response_packet-Written :
    (session : ℕ) (ok : Bool) (msg : List ℕ)
    → session < 2 ^ 32
    → length msg ≤ multi_part
    → Written (response_packet session (bit ok) msg) (reply session ok (string msg) false)
unfolding response_packet response_of fill_uint32
response_packet-Written session true msg a b =
    let body = response_body session 1 msg in
    let fits = push_packet-frame (length msg + 5) body (omega arith) (omega arith) in
    record {
      body = body;
      packed = rw (response_packet, fits) refl;
      short = omega arith;
      unpacked = lunpackresponse_body session 1 msg a;
    }
response_packet-Written session false msg a b =
    let body = response_body session 0 msg in
    let fits = push_packet-frame (length msg + 5) body (omega arith) (omega arith) in
    record {
      body = body;
      packed = rw (response_packet, fits) refl;
      short = omega arith;
      unpacked = lunpackresponse_body session 0 msg a;
    }

-- Bodies that are read as the parts of a message, in order; only the last has no padding.
pub data Parts (session : ℕ) : List ℕ → List (List ℕ) → Type 0 where
  last :
      (msg body : List ℕ)
      → length body < 2 ^ 16
      → lunpackresponse body ≡ returned (some (reply session true (string msg) false))
      → Parts session msg (body ∷ [])
  more :
      (front rest body : List ℕ) (bodies : List (List ℕ))
      → length body < 2 ^ 16
      → lunpackresponse body ≡ returned (some (reply session true (string front) true))
      → Parts session rest bodies
      → Parts session (front ++ rest) (body ∷ bodies)

-- As many parts as the size asks for end with the message.
response_parts-Parts :
    (n session : ℕ) (msg : List ℕ)
    → session < 2 ^ 32
    → n * multi_part < length msg
    → length msg ≤ suc n * multi_part
    → (bodies : List (List ℕ)) × (response_parts (suc n) session msg ≡ returned (map frame bodies))
      × Parts session msg bodies
unfolding response_parts response_of fill_uint32
response_parts-Parts zero session msg a b c =
    let all : ltb multi_part (length msg) ≡ false = ground arith in
    let body = response_body session 4 msg in
    let cut = take-length msg in
    let fits = push_packet-frame (length msg + 5) body (omega arith) (omega arith) in
    (
      body ∷ [],
      rw (response_parts, all, cut, fits) refl,
      last msg body (omega arith) (lunpackresponse_body session 4 msg a),
    )
response_parts-Parts (suc n) session msg a b c =
    let some_left : ltb multi_part (length msg) ≡ true = ground arith in
    let front = take multi_part msg in
    let rest = drop multi_part msg in
    let len : length front ≡ multi_part = omega (arith, length-take multi_part msg) in
    let left = length-drop multi_part msg in
    let body = response_body session 3 front in
    let fits = push_packet-frame (multi_part + 5) body (omega arith) (omega arith) in
    let (bodies, packed, parts) =
      response_parts-Parts n session rest a (omega arith) (omega arith) in
    (
      body ∷ bodies,
      rw (response_parts, some_left, fits, packed) refl,
      subst (λ xs. Parts session xs (body ∷ bodies)) (take-drop multi_part msg)
          (more front rest body bodies (omega arith) (lunpackresponse_body session 3 front a)
            parts),
    )

-- A large response is announced by a packet with its size.
pub record Announced (session : ℕ) (msg : List ℕ) : Type 0 where
  pub body : List ℕ
  pub bodies : List (List ℕ)
  pub packed : lpackresponse session true msg ≡ returned (table (map frame (body ∷ bodies)))
  pub short : length body < 2 ^ 16
  pub unpacked :
      lunpackresponse body ≡ returned (some (reply session true (number (length msg)) true))
  pub parts : Parts session msg bodies

pub lpackresponse-Announced :
    (session : ℕ) (msg : List ℕ)
    → session < 2 ^ 32
    → multi_part < length msg
    → length msg < 2 ^ 32
    → Announced session msg
unfolding lpackresponse response_of fill_uint32
lpackresponse-Announced session msg a b c =
    let large : ltb multi_part (length msg) ≡ true = ground arith in
    let body = response_body session 2 (fill_uint32 (length msg)) in
    let fits = push_packet-frame 9 body refl (omega arith) in
    let count : part_count (length msg) ≡ suc ((length msg - 1) / multi_part) = omega arith in
    let (bodies, packed, parts) =
      response_parts-Parts ((length msg - 1) / multi_part) session msg a (omega arith)
        (omega arith) in
    let size = unpack_uint32-fill_uint32 (length msg) [] c in
    let read = lunpackresponse_body session 2 (fill_uint32 (length msg)) a in
    let counted = ap (λ k. response_parts k session msg) count ∙ packed in
    record {
      body = body;
      bodies = bodies;
      packed = rw (lpackresponse, large, fits, counted) refl;
      short = omega arith;
      unpacked = read ∙ rw size refl;
      parts = parts;
    }
