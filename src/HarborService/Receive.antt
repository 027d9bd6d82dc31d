-- ===== src/HarborService/Receive.antt =====
-- What the service does with the bytes of a connection to another node. `refuses` tells of which
-- destinations skynet_send fails.
pub mod Held
pub mod Steps
pub mod Stream
pub mod Linked
use Prim.Native.Nat.{bit_or}
use game_server.Common.{
  ℕ, zero, suc, ◌+◌, ◌-◌, ◌*◌, ◌/◌, ◌%◌, ◌^◌, Bool, Option, none, some, List, [], ◌∷◌, ◌++◌, length,
  take, drop, ltb, ◌==◌, if◌then◌else◌, update,
}
use game_server.HarborService.{
  RemoteHeader, Status, wait, handshake, header, content, down, Slave, Harbor, Action, send,
  complain, close_harbor,
}
use game_server.HarborService.Wire.{header_cookie_length, message_to_header, dispatch_queue}

abbrev pub ptype_error : ℕ
ptype_error = 7

-- `type | PTYPE_TAG_DONTCOPY`
abbrev pub dontcopy : ℕ → ℕ
dontcopy type = bit_or type 0x10000

-- A destination of this node: `(destination & HANDLE_MASK) | (id << HANDLE_REMOTE_SHIFT)`
abbrev pub localised : ℕ → ℕ → ℕ
localised id destination = destination % 2 ^ 24 + id * 2 ^ 24 % 2 ^ 32

-- What a step of the loop ends with: it returns, or goes on with the bytes that are left.
pub data Next : Type 0 where
  returns : Next
  goes_on : List ℕ → Next

module _ (refuses : ℕ → Bool) where
  -- `forward_local_messsage` in a node with this id; `none` is a read before the buffer.
  pub forward_local : ℕ → List ℕ → Option (List Action)
  forward_local id msg =
      let cookie = message_to_header (drop (length msg - header_cookie_length) msg) in
      let type = cookie.destination / 2 ^ 24 in
      let destination = localised id cookie.destination in
      let sent =
        send cookie.source destination (dontcopy type) cookie.session
          (take (length msg - header_cookie_length) msg) in
      if ltb (length msg) header_cookie_length
      then none
      else if refuses destination
      then some (
          sent
          ∷ (if type == ptype_error
              then complain ∷ []
              else send destination cookie.source ptype_error cookie.session [] ∷ complain ∷ []))
      else some (sent ∷ [])

  -- `case STATUS_CONTENT`
  pub on_content : ℕ → Slave → List ℕ → Option (List Action × Slave × Next)
  on_content self s bytes =
      let need = s.length - length s.received in
      let whole = forward_local self (s.received ++ take need bytes) in
      if ltb (length bytes) need
      then some ([], record s { received = s.received ++ bytes }, returns)
      else elim whole [
        | none ↦ none
        | some actions ↦ some (
          actions,
          record s { length = 0; received = []; status = header },
          (if length bytes - need == 0 then returns else goes_on (drop need bytes)),
        )
      ]

  -- The rest of `case STATUS_HEADER`, with the four bytes of the size and the bytes behind them.
  pub on_size : ℕ → Slave → List ℕ → List ℕ → Option (List Action × Slave × Next)
  on_size self s (a ∷ b ∷ c ∷ d ∷ []) bytes =
      let s' = record s { length = b * 2 ^ 16 + c * 2 ^ 8 + d; received = []; status = content } in
      let (closing, closed) = close_harbor s in
      if a == 0
      then (if length bytes == 0 then some ([], s', returns) else on_content self s' bytes)
      else some (complain ∷ closing, closed, returns)
  on_size self s size bytes = none

  -- `case STATUS_HEADER`
  pub on_header : ℕ → Slave → List ℕ → Option (List Action × Slave × Next)
  on_header self s bytes =
      let need = 4 - length s.received in
      if ltb (length bytes) need
      then some ([], record s { received = s.received ++ bytes }, returns)
      else on_size self s (s.received ++ take need bytes) (drop need bytes)

  -- `case STATUS_HANDSHAKE` of the slave `id`; `none` is a read of no bytes.
  unfoldable pub on_handshake : ℕ → ℕ → Slave → List ℕ → Option (List Action × Slave × Next)
  on_handshake self id s [] = none
  on_handshake self id s (remote_id ∷ bytes) =
      let (closing, closed) = close_harbor s in
      if remote_id == id
      then elim (dispatch_queue (record s { status = header })) [
        | none ↦ none
        | some (sent, s') ↦
            if length bytes == 0
            then some (sent, s', goes_on [])
            else elim (on_header self s' bytes) [
              | none ↦ none
              | some (actions, s'', next) ↦ some (sent ++ actions, s'', next)
            ]
      ]
      else some (complain ∷ closing, closed, returns)

  -- The switch of `push_socket_data`.
  unfoldable pub on_status : ℕ → ℕ → Slave → Status → List ℕ → Option (List Action × Slave × Next)
  on_status self id s handshake bytes = on_handshake self id s bytes
  on_status self id s header bytes = on_header self s bytes
  on_status self id s content bytes = on_content self s bytes
  on_status self id s wait bytes = some ([], s, returns)
  on_status self id s down bytes = some ([], s, returns)

  -- The loop of `push_socket_data` on fuel.
  unfoldable pub receive : ℕ → ℕ → ℕ → Slave → List ℕ → Option (List Action × Slave)
  receive zero self id s bytes = none
  receive (suc fuel) self id s bytes = elim (on_status self id s s.status bytes) [
    | none ↦ none
    | some (actions, s', returns) ↦ some (actions, s')
    | some (actions, s', goes_on rest) ↦ elim (receive fuel self id s' rest) [
      | none ↦ none
      | some (more, s'') ↦ some (actions ++ more, s'')
    ]
  ]

-- The loop of `harbor_id`, and of `push_socket_data`, over the `n` slaves from `i` on; 0 if there is none.
unfoldable pub harbor_id_from : ℕ → ℕ → Harbor → ℕ → ℕ
harbor_id_from zero i h fd = 0
harbor_id_from (suc n) i h fd =
    let rest = harbor_id_from n (i + 1) h fd in if (h.s i).fd == fd then i else rest

-- `harbor_id`
unfoldable pub harbor_id : Harbor → ℕ → ℕ
harbor_id h fd = harbor_id_from 255 1 h fd

-- `push_socket_data`; each round but three takes a byte.
unfoldable pub push_socket_data : (ℕ → Bool) → Harbor → ℕ → List ℕ → Option (List Action × Harbor)
push_socket_data refuses h fd bytes =
    let id = harbor_id h fd in
    let run =
      receive refuses (suc (length (h.s id).received + length bytes + 2)) h.id id (h.s id) bytes in
    if id == 0 then some (complain ∷ [], h) else elim run [
      | none ↦ none
      | some (actions, s) ↦ some (actions, record h { s = update h.s id s })
    ]
