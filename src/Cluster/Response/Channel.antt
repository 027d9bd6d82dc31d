-- ===== src/Cluster/Response/Channel.antt =====
-- skynet-dist/lualib/socketchannel.lua: `dispatch_by_session`, for sessions that a coroutine waits
-- for, and what `command.req` of skynet-dist/service/clusterd.lua answers with.
pub mod Wakes
use game_server.Common.{
  ℕ, Bool, true, false, ◌&&◌, Option, none, some, List, [], ◌∷◌, ◌++◌, if◌then◌else◌, update,
}
use game_server.Cluster.{Result, returned, bind, Value, string, lconcat}
use game_server.Cluster.Response.{Response, lunpackresponse}

-- `__result_data` by the session of the coroutine, while it is a table.
abbrev pub ResultData : Type 0
ResultData = ℕ → Option (List Value)

-- What the coroutine finds when it is woken: a value or a table.
pub data ResultValue : Type 0 where
  value : Value → ResultValue
  values : List Value → ResultValue

-- The socket is closed, a value is kept, or the coroutine of the session is woken with a result.
pub data Turn : Type 0 where
  closed : Turn
  kept : Turn
  woken : ℕ → Bool → ResultValue → Turn

abbrev pub values_of : Option (List Value) → List Value
values_of none = []
values_of (some vs) = vs

-- the result without padding, and the table of the coroutine
abbrev pub found : Bool → Option (List Value) → Value → ResultValue
found true (some vs) msg = values (vs ++ (msg ∷ []))
found true none msg = value msg
found false vs msg = value msg

-- One turn of the loop; the woken coroutine removes its entry.
pub dispatch_by_session : List ℕ → ResultData → Result (Turn × ResultData)
dispatch_by_session buf data_of = bind (lunpackresponse buf) (λ response. elim response [
  | none ↦ returned (closed, data_of)
  | some r ↦
      if r.padding && r.ok
      then returned
          (kept, update data_of r.session (some (values_of (data_of r.session) ++ (r.msg ∷ []))))
      else returned (
        woken r.session r.ok (found r.ok (data_of r.session) r.msg),
        update data_of r.session none,
      )
])

-- `command.req`, of a call that succeeds
pub answer : ResultValue → Result (Option Value)
answer (value v) = returned (some v)
answer (values vs) =
    bind (lconcat vs)
      (λ whole. elim whole [ none ↦ returned none | some bytes ↦ returned (some (string bytes)) ])

abbrev pub turns : Turn → List Turn
turns closed = closed ∷ []
turns kept = []
turns (woken session ok found) = woken session ok found ∷ []

-- The packets of a socket, one after the other; what is kept is left out.
pub dispatch_all : List (List ℕ) → ResultData → Result (List Turn × ResultData)
dispatch_all [] data_of = returned ([], data_of)
dispatch_all (buf ∷ bufs) data_of =
    bind (dispatch_by_session buf data_of) (λ (e, data').
      bind (dispatch_all bufs data') (λ (es, after). returned (turns e ++ es, after)))
