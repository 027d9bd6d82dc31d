-- ===== src/Cluster/Large/Received.antt =====
-- A request arrives as it was sent: `lpackrequest` on one node, `command.socket` on the other.
use mathlib.Core.Path.{subst}
use game_server.Common.{
  ℕ, ◌+◌, ◌≡◌, ◌≢◌, refl, ap, ◌∙◌, true, false, Option, none, some, List, [], ◌∷◌, ◌++◌, append-nil,
  append_assoc, length, arith, length-append, update, update_self, update_other,
}
use game_server.Cluster.{returned, Value, string, lconcat}
use game_server.Cluster.Joined.{Collected, Collected-part, concat_strings_end}
use game_server.Cluster.Request.{lunpackrequest}
use game_server.Cluster.Request.Sent.{whole, part}
use game_server.Cluster.Request.Packs.{Parts, last, more}
use game_server.Cluster.Large.{
  Req, LargeRequest, Dispatch, waiting, request, with_value, complete, socket_data, outcomes,
  socket_data_all,
}

-- A packet of a session that has an entry, and a packet of one that has none.
pub socket_data_more :
    (buf front : List ℕ) (session : ℕ) (req : Req) (large : LargeRequest)
    → lunpackrequest buf ≡ returned (part session front true)
    → large session ≡ some req
    → socket_data buf large
      ≡ returned (waiting, update large session (some (with_value req (string front))))
unfolding socket_data
socket_data_more buf front session req large u e = rw (socket_data, u, e) refl

socket_data_last :
    (buf msg whole : List ℕ) (session : ℕ) (req : Req) (large : LargeRequest)
    → lunpackrequest buf ≡ returned (part session msg false)
    → large session ≡ some req
    → lconcat (req.values ++ (string msg ∷ [])) ≡ returned (some whole)
    → socket_data buf large
      ≡ returned (request req.addr session (string whole), update large session none)
unfolding socket_data complete
socket_data_last buf msg whole session req large u e c = rw (socket_data, u, e, complete, c) refl

-- What messages of one session do: they hand out `calls`, and leave no entry.
pub record Arrives (session : ℕ) (bodies : List (List ℕ)) (large : LargeRequest)
    (calls : List Dispatch) : Type 0 where
  pub after : LargeRequest
  pub runs : socket_data_all bodies large ≡ returned (calls, after)
  pub removed : after session ≡ none
  pub others : (session' : ℕ) → session' ≢ session → after session' ≡ large session'

-- The first of several messages.
pub Arrives-next :
    {session : ℕ} {bodies : List (List ℕ)} {calls : List Dispatch} (buf : List ℕ)
    (large : LargeRequest) (entry : Option Req)
    → socket_data buf large ≡ returned (waiting, update large session entry)
    → Arrives session bodies (update large session entry) calls
    → Arrives session (buf ∷ bodies) large calls
unfolding socket_data_all
Arrives-next {session} buf large entry e a = record {
  after = a.after;
  runs = rw (socket_data_all, e, a.runs) refl;
  removed = a.removed;
  others = λ s ne. a.others s ne ∙ update_other large session s entry ne;
}

-- The last of them.
pub Arrives-last :
    (session : ℕ) (buf : List ℕ) (large : LargeRequest) (d : Dispatch)
    → socket_data buf large ≡ returned (d, update large session none)
    → Arrives session (buf ∷ []) large (outcomes d)
unfolding socket_data_all
Arrives-last session buf large d e = record {
  after = update large session none;
  runs = rw (socket_data_all, e, append-nil (outcomes d)) refl;
  removed = update_self large session none;
  others = λ s ne. update_other large session s none ne;
}

-- The parts complete the entry.
pub Parts-Arrives :
    {session : ℕ} {msg : List ℕ} {bodies : List (List ℕ)} (addr : Value) (size : ℕ) (got : List ℕ)
    (req : Req) (large : LargeRequest)
    → Parts session msg bodies
    → Collected req.values size got
    → req.addr ≡ addr
    → large session ≡ some req
    → length got + length msg ≡ size
    → Arrives session bodies large (request addr session (string (got ++ msg)) ∷ [])
Parts-Arrives {session} addr size got req large (last msg body short u) c a e len =
    let joined = c.joins (string msg ∷ []) ∙ ap returned (concat_strings_end size got msg len) in
    let runs = socket_data_last body msg (got ++ msg) session req large u e joined in
    Arrives-last session body large (request addr session (string (got ++ msg))) (
      runs
      ∙ ap (λ x. returned (request x session (string (got ++ msg)), update large session none)) a)
Parts-Arrives {session} addr size got req large (more front rest body bodies short u parts) c a e
      len =
    let next = with_value req (string front) in
    let part_of = length-append front rest in
    let both = length-append got front in
    let runs = socket_data_more body front session req large u e in
    let onward =
      Parts-Arrives addr size (got ++ front) next (update large session (some next)) parts
        (Collected-part req.values size got front c (omega arith)) a
        (update_self large session (some next)) (omega arith) in
    Arrives-next body large (some next) runs (
      subst
        (λ xs.
          Arrives session bodies (update large session (some next))
            (request addr session (string xs) ∷ []))
        (append_assoc got front rest) onward)
