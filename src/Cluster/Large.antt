-- ===== src/Cluster/Large.antt =====
-- skynet-dist/service/clusterd.lua and skynet-dist/lualib/socketchannel.lua: how the values that come out of the packets
-- are put together.
pub mod Received
pub mod RoundTrip
pub mod Collision
use game_server.Common.{
  ℕ, Bool, true, false, Option, none, some, List, [], ◌∷◌, ◌++◌, if◌then◌else◌, update,
}
use game_server.Cluster.{
  Result, returned, raised, faulted, bind, Value, number, string, boolean, lconcat,
}
use game_server.Cluster.Request.{Unpacked, lunpackrequest}

-- An entry of `large_request`: the address, and the values of the table.
pub record Req : Type 0 where
  pub addr : Value
  pub values : List Value

abbrev pub LargeRequest : Type 0
LargeRequest = ℕ → Option Req

-- What becomes of a socket message: it waits for others, it is answered with an error, or it is a
-- request, the address, the session and the message.
pub data Dispatch : Type 0 where
  waiting : Dispatch
  invalid : ℕ → Dispatch
  request : Value → ℕ → Value → Dispatch

-- `large_request[session] or { addr = addr }`
abbrev pub opened : Option Req → Value → Req
opened none addr = record { addr = addr; values = [] }
opened (some req) addr = req

abbrev pub with_value : Req → Value → Req
with_value req msg = record req { values = req.values ++ (msg ∷ []) }

-- A message without padding, and the entry of its session.
pub complete : Option Req → Unpacked → Result Dispatch
complete none u = returned (request u.addr u.session u.msg)
complete (some req) u = bind (lconcat (req.values ++ (u.msg ∷ []))) (λ whole. elim whole [
  | none ↦ returned (invalid u.session)
  | some bytes ↦ returned (request req.addr u.session (string bytes))
])

-- `command.socket` for the subcommand `data`, up to the call of the service
pub socket_data : List ℕ → LargeRequest → Result (Dispatch × LargeRequest)
socket_data buf large = bind (lunpackrequest buf) (λ u.
    if u.padding
    then returned (
      waiting,
      update large u.session (some (with_value (opened (large u.session) u.addr) u.msg)),
    )
    else bind (complete (large u.session) u) (λ d. returned (d, update large u.session none)))

-- the dispatches that are not waited for
abbrev pub outcomes : Dispatch → List Dispatch
outcomes waiting = []
outcomes (invalid session) = invalid session ∷ []
outcomes (request addr session msg) = request addr session msg ∷ []

-- The messages of a gate, one after the other.
pub socket_data_all : List (List ℕ) → LargeRequest → Result (List Dispatch × LargeRequest)
socket_data_all [] large = returned ([], large)
socket_data_all (buf ∷ bufs) large = bind (socket_data buf large) (λ (d, large').
    bind (socket_data_all bufs large') (λ (ds, after). returned (outcomes d ++ ds, after)))
