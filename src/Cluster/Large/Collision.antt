-- ===== src/Cluster/Large/Collision.antt =====
-- `large_request` is one table for all sockets, and its key is the session alone.
use game_server.Common.{
  ℕ, ◌^◌, ◌%◌, ◌<◌, ◌≤◌, ◌≡◌, ◌∙◌, ap, refl, false, ◌++◌, append_assoc, none, some, List, [], ◌∷◌,
  length, leb, ◌==◌, arith, update, update_self,
}
use game_server.Cluster.{multi_part, returned, Value, number, string, lconcat, concat_strings}
use game_server.Cluster.Request.{lunpackrequest}
use game_server.Cluster.Request.Sent.{IsAddress, part}
use game_server.Cluster.Request.Packs.{Parts, last, more}
use game_server.Cluster.Request.Call.{Announced, lpackrequest-Announced}
use game_server.Cluster.Large.{
  Req, LargeRequest, invalid, waiting, opened, with_value, complete, socket_data,
}
use game_server.Cluster.Large.Received.{socket_data_more, Arrives, Arrives-next, Arrives-last}
use game_server.Cluster.Large.RoundTrip.{socket_data-start, begin_opened}

-- No values behind those of the entry make a message.
record Broken (req : Req) : Type 0 where
  fails : (rest : List Value) → lconcat (req.values ++ rest) ≡ returned none

Broken-with_value : {req : Req} (v : Value) → Broken req → Broken (with_value req v)
Broken-with_value {req} v b = record {
  fails = λ rest. ap lconcat (append_assoc req.values (v ∷ []) rest) ∙ b.fails (v ∷ rest);
}

-- two sizes in front
Broken-sizes :
    (addr addr' : Value) (size size' : ℕ)
    → 0 < size
    → size < 2 ^ 31
    → Broken (
        with_value
          (opened (some (with_value (opened none addr) (number size))) addr')
          (number size'))
unfolding lconcat concat_strings
Broken-sizes addr addr' size size' pos lt = record {
  fails = λ rest.
      let whole_size : size % 2 ^ 32 ≡ size = omega arith in
      let small : leb (2 ^ 31) size ≡ false = ground arith in
      let nothing_copied : (0 == size) ≡ false = ground arith in
      rw (lconcat, whole_size, small, concat_strings, nothing_copied) refl;
}

socket_data_invalid :
    (buf msg : List ℕ) (session : ℕ) (req : Req) (large : LargeRequest)
    → lunpackrequest buf ≡ returned (part session msg false)
    → large session ≡ some req
    → lconcat (req.values ++ (string msg ∷ [])) ≡ returned none
    → socket_data buf large ≡ returned (invalid session, update large session none)
unfolding socket_data complete
socket_data_invalid buf msg session req large u e c = rw (socket_data, u, e, complete, c) refl

-- The parts of a message are spent on such an entry.
Parts-Broken :
    {session : ℕ} {msg : List ℕ} {bodies : List (List ℕ)} (req : Req) (large : LargeRequest)
    → Parts session msg bodies
    → Broken req
    → large session ≡ some req
    → Arrives session bodies large (invalid session ∷ [])
Parts-Broken {session} req large (last msg body short u) b e =
    Arrives-last session body large (invalid session)
      (socket_data_invalid body msg session req large u e (b.fails (string msg ∷ [])))
Parts-Broken {session} req large (more front rest body bodies short u parts) b e =
    let next = with_value req (string front) in
    Arrives-next body large (some next) (socket_data_more body front session req large u e) (
      Parts-Broken next (update large session (some next)) parts
        (Broken-with_value (string front) b) (update_self large session (some next)))

-- Two large requests with one session.
pub record Collided (addr addr' : Value) (session : ℕ) (msg msg' : List ℕ) (large : LargeRequest)
    : Type 0 where
  pub first : Announced addr session msg
  pub second : Announced addr' session msg'
  pub lost : Arrives session (first.body ∷ second.body ∷ first.bodies) large (invalid session ∷ [])

-- Two nodes count their sessions on their own, so two sockets of a node can bring large requests with
-- the same session. When the packet that announces the second one arrives behind the one that
-- announces the first, the parts of the first are answered with the error `Invalid large req`, and no
-- service gets its message, although both requests were packed as they should be.
pub lpackrequest-Collided :
    (addr addr' : Value) (session : ℕ) (msg msg' : List ℕ) (large : LargeRequest)
    → IsAddress addr
    → IsAddress addr'
    → 0 < session
    → session < 2 ^ 31
    → multi_part ≤ length msg
    → length msg < 2 ^ 31
    → multi_part ≤ length msg'
    → length msg' < 2 ^ 31
    → large session ≡ none
    → Collided addr addr' session msg msg' large
lpackrequest-Collided addr addr' session msg msg' large a a' pos lt size small size' small' e =
    let first = lpackrequest-Announced addr session msg a pos lt size small in
    let second = lpackrequest-Announced addr' session msg' a' pos lt size' small' in
    let req = with_value (opened none addr) (number (length msg)) in
    let both = with_value (opened (some req) addr') (number (length msg')) in
    let after = update large session (some req) in
    let held = update_self large session (some req) in
    let again : socket_data second.body after
        ≡ returned (waiting, update after session (some both)) =
      socket_data-start addr' session (length msg') second.body after second.unpacked
      ∙ ap
          (λ o. returned (
            waiting,
            update after session (some (with_value (opened o addr') (number (length msg')))),
          ))
          held in
    let spent =
      Parts-Broken both (update after session (some both)) first.parts
        (Broken-sizes addr addr' (length msg) (length msg') (omega arith) small)
        (update_self after session (some both)) in
    record {
      first = first;
      second = second;
      lost =
          Arrives-next first.body large (some req) (begin_opened large first e)
            (Arrives-next second.body after (some both) again spent);
    }
