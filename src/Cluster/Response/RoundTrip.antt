-- ===== src/Cluster/Response/RoundTrip.antt =====
-- From `lpackresponse` on one node to the answer that the other gives its caller.
use game_server.Common.{
  ℕ, ◌^◌, ◌<◌, ◌≤◌, ◌≡◌, refl, sym, ap, ◌∙◌, Bool, true, false, none, some, List, [], ◌∷◌, ◌++◌,
  map, length, take, All, ltb, inl, inr, Bool-cases, arith, length-take, take-length, take_all,
  update, update_self,
}
use game_server.NetPack.Split.{frame}
use game_server.Cluster.{multi_part, returned, number, string}
use game_server.Cluster.Joined.{Collected-opened}
use game_server.Cluster.Response.{Packets, single, table, response_packet, lpackresponse}
use game_server.Cluster.Response.Channel.{ResultData, values_of}
use game_server.Cluster.Response.Channel.Wakes.{Wakes, Wakes-next, Wakes-single, Parts-Wakes}
use game_server.Cluster.Response.Sent.{
  reply, bit, Written, response_packet-Written, Parts, last, more, Announced,
  lpackresponse-Announced,
}

-- all packets of a response
abbrev pub all_packets : Packets → List (List ℕ)
all_packets (single packet) = packet ∷ []
all_packets (table packets) = packets

-- what arrives of a message: an error is cut
abbrev pub received : Bool → List ℕ → List ℕ
received true msg = msg
received false msg = take multi_part msg

-- What becomes of a response.
pub record Answered (session : ℕ) (ok : Bool) (msg : List ℕ) (data_of : ResultData) : Type 0 where
  pub packets : Packets
  pub bodies : List (List ℕ)
  pub returns : lpackresponse session ok msg ≡ returned packets
  pub framed : all_packets packets ≡ map frame bodies
  pub short : All (λ body. length body < 2 ^ 16) bodies
  pub wakes : Wakes session ok bodies data_of (received ok msg)

short-Parts :
    {session : ℕ} {msg : List ℕ} {bodies : List (List ℕ)}
    → Parts session msg bodies
    → All (λ body. length body < 2 ^ 16) bodies
short-Parts (last msg body short u) = (short, tt)
short-Parts (more front rest body bodies short u parts) = (short, short-Parts parts)

lpackresponse_small :
    (session : ℕ) (msg : List ℕ)
    → length msg ≤ multi_part
    → lpackresponse session true msg ≡ response_packet session 1 msg
unfolding lpackresponse
lpackresponse_small session msg le =
    let small : ltb multi_part (length msg) ≡ false = ground arith in rw (lpackresponse, small) refl

lpackresponse_error :
    (session : ℕ) (msg : List ℕ)
    → lpackresponse session false msg ≡ response_packet session 0 (take multi_part msg)
unfolding lpackresponse
lpackresponse_error session msg = elim (Bool-cases (ltb multi_part (length msg))) [
  | inl t ↦ rw (lpackresponse, t) refl
  | inr f ↦
      rw (lpackresponse, f)
        (ap (response_packet session 0)
          (take-length msg ∙ sym (take_all multi_part msg (ground arith))))
]

Written-Answered :
    (session : ℕ) (ok : Bool) (msg : List ℕ) (data_of : ResultData)
    → lpackresponse session ok msg ≡ response_packet session (bit ok) (received ok msg)
    → Written
        (response_packet session (bit ok) (received ok msg))
        (reply session ok (string (received ok msg)) false)
    → data_of session ≡ none
    → Answered session ok msg data_of
Written-Answered session ok msg data_of r w e = record {
  packets = single (frame w.body);
  bodies = w.body ∷ [];
  returns = r ∙ w.packed;
  framed = refl;
  short = (w.short, tt);
  wakes = Wakes-single session ok w.body (received ok msg) data_of w.unpacked e;
}

Announced-Answered :
    (session : ℕ) (msg : List ℕ) (data_of : ResultData)
    → length msg < 2 ^ 31
    → data_of session ≡ none
    → Announced session msg
    → Answered session true msg data_of
Announced-Answered session msg data_of small e p =
    let entry = ap (λ o. some (values_of o ++ (number (length msg) ∷ []))) e in
    let after =
      update data_of session (some (values_of (data_of session) ++ (number (length msg) ∷ []))) in
    let completed =
      Parts-Wakes (length msg) [] (number (length msg) ∷ []) after p.parts
        (Collected-opened (length msg) small) (update_self data_of session _ ∙ entry)
        (omega arith) in
    record {
      packets = table (map frame (p.body ∷ p.bodies));
      bodies = p.body ∷ p.bodies;
      returns = p.packed;
      framed = refl;
      short = (p.short, short-Parts p.parts);
      wakes = Wakes-next p.body (number (length msg)) data_of p.unpacked completed;
    }

-- A response below 2^31 bytes, of a 32-bit session, is packed in packets that are shorter than 2^16
-- bytes behind their size. When the bodies of the packets come back in order, and nothing is kept of
-- the session, the coroutine that waits for it is woken once, with the result that was packed; the
-- answer is the whole message, or the first 32768 bytes of it when the result is an error. Nothing of
-- the session is kept then, and what is kept of others is as it was.
pub lpackresponse-dispatch_by_session :
    (session : ℕ) (ok : Bool) (msg : List ℕ) (data_of : ResultData)
    → session < 2 ^ 32
    → length msg < 2 ^ 31
    → data_of session ≡ none
    → Answered session ok msg data_of
lpackresponse-dispatch_by_session session true msg data_of a b e =
    elim (Bool-cases (ltb multi_part (length msg))) [
      | inl t ↦
          Announced-Answered session msg data_of b e
            (lpackresponse-Announced session msg a (ground arith) (omega arith))
      | inr f ↦
          Written-Answered session true msg data_of (lpackresponse_small session msg (ground arith))
            (response_packet-Written session true msg a (ground arith)) e
    ]
lpackresponse-dispatch_by_session session false msg data_of a b e =
    Written-Answered session false msg data_of (lpackresponse_error session msg)
      (response_packet-Written session false (take multi_part msg) a
        (omega (arith, length-take multi_part msg)))
      e
