-- ===== src/HarborService/Service.antt =====
-- The commands to the service, and its main loop. `scan` is what `sscanf` reads of two numbers, as 32-bit
-- patterns, and `print_down` the text that reports a node.
pub mod Lost
pub mod Linked
pub mod EndToEnd
use game_server.Common.{
  ℕ, zero, suc, ◌+◌, ◌-◌, ◌*◌, ◌/◌, ◌%◌, ◌^◌, Bool, ◌||◌, Option, none, some, List, [], ◌∷◌, ◌++◌,
  length, take, drop, ◌==◌, ltb, leb, if◌then◌else◌, update,
}
use game_server.HarborService.{
  HarborMsg, Status, wait, handshake, header, Slave, Harbor, KeyValue, Action, send, socket_send,
  socket_start, complain,
}
use game_server.HarborService.Wire.{dispatch_queue}
use game_server.HarborService.Receive.{harbor_id, push_socket_data}
use game_server.HarborService.Send.{remote_send_handle}
use game_server.HarborService.Names.{update_name, remote_send_name}

-- the slave of a node that has not been heard of
abbrev pub no_slave : Slave
no_slave = record { fd = 0; queue = none; status = wait; length = 0; received = [] }

-- `harbor_create`, and what `harbor_init` sets
unfoldable pub harbor_init : ℕ → ℕ → Harbor
harbor_init id slave = record { id = id; slave = slave; map = λ _. []; s = λ _. no_slave }

abbrev pub zeros : ℕ → List ℕ
zeros zero = []
zeros (suc n) = 0 ∷ zeros n

-- What comes to `mainloop`: data, the end and a warning of a socket, any other message of a socket, a
-- command with its source, and a message to a handle or to a name of another node.
pub data Input : Type 0 where
  socket_data : ℕ → List ℕ → Input
  socket_end : ℕ → Input
  socket_warning : ℕ → Input
  socket_connect : Input
  socket_other : Input
  command : ℕ → List ℕ → Input
  to_handle : ℕ → ℕ → ℕ → ℕ → List ℕ → Input
  to_name : ℕ → List ℕ → ℕ → ℕ → List ℕ → Input

-- `case 'S'` and `case 'A'` of `harbor_command`, once the two numbers are read.
unfoldable pub connect : Harbor → Bool → ℕ → ℕ → Option (List Action × Harbor)
connect h shakes fd id =
    let s = h.s id in
    let greeting = socket_start fd ∷ socket_send fd ((h.id % 256) ∷ []) ∷ [] in
    if fd == 0 || (id == 0 || leb 256 id)
    then some (complain ∷ [], h)
    else if s.fd == 0
    then (if shakes
        then some
            (greeting, record h { s = update h.s id (record s { fd = fd; status = handshake }) })
        else elim (dispatch_queue (record s { fd = fd; status = header })) [
          | none ↦ none
          | some (sent, s') ↦ some (greeting ++ sent, record h { s = update h.s id s' })
        ])
    else some (complain ∷ [], h)

module _ (refuses : ℕ → Bool) (fresh : ℕ → HarborMsg) (scan : List ℕ → ℕ × ℕ)
    (print_down : ℕ → List ℕ) where
  -- `harbor_command`; `none` is a read or a copy out of range, for a text of fewer than two bytes.
  unfoldable pub harbor_command : Harbor → ℕ → List ℕ → Option (List Action × Harbor)
  harbor_command h source [] = none
  harbor_command h source (c ∷ msg) =
      let name = drop 1 msg in
      let (fd, id) = scan name in
      if c == 78
      then (if length name == 0 || leb 16 (length name)
          then some (complain ∷ [], h)
          else update_name h (name ++ zeros (16 - length name)) source)
      else if c == 83 || c == 65
      then (if length msg == 0 then none else connect h (c == 83) fd id)
      else some (complain ∷ [], h)

  -- `mainloop`
  unfoldable pub mainloop : Harbor → Input → Option (List Action × Harbor)
  mainloop h (socket_data fd bytes) = push_socket_data refuses h fd bytes
  mainloop h (socket_end fd) =
      let id = harbor_id h fd in
      some ((if id == 0 then complain ∷ [] else send 0 h.slave 0 0 (print_down id) ∷ []), h)
  mainloop h (socket_warning fd) = some ((if harbor_id h fd == 0 then [] else complain ∷ []), h)
  mainloop h socket_connect = some ([], h)
  mainloop h socket_other = some (complain ∷ [], h)
  mainloop h (command source msg) = harbor_command h source msg
  mainloop h (to_handle source destination type session msg) =
      let (actions, h', kept) = remote_send_handle fresh h source destination type session msg in
      some (actions, h')
  mainloop h (to_name source name type session msg) =
      let (actions, h', kept) = remote_send_name fresh h source name type session msg in
      some (actions, h')
