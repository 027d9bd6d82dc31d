-- ===== src/Gate.antt =====
-- skynet-dist/service-src/service_gate.c: what a gate does with the bytes of a connection. What the
-- gate asks of other parts is a list of actions in their order; `print_data` stands for the text that
-- `snprintf` makes of a connection's id.
pub mod Held
pub mod Packets
use Prim.Native.Nat.{bit_or}
use game_server.Common.{
  ℕ, zero, suc, ◌^◌, Bool, Option, none, some, List, [], ◌∷◌, ◌++◌, length, ltb, leb, ◌==◌,
  if◌then◌else◌,
}
use game_server.DataBuffer.{DataBuffer, MessagePool, push, read, readheader, reset, clear}

-- `struct connection`, without the name of the peer
pub record Connection : Type 0 where
  pub id : ℕ
  pub agent : ℕ
  pub client : ℕ
  pub buffer : DataBuffer

-- The fields of `struct gate` by which it forwards.
pub record Gate : Type 0 where
  pub watchdog : ℕ
  pub broker : ℕ
  pub client_tag : ℕ
  pub header_size : ℕ

-- `send source destination type session bytes` is skynet_send, `close` is skynet_socket_close, and
-- `too_long` the call of skynet_error.
pub data Action : Type 0 where
  send : ℕ → ℕ → ℕ → ℕ → List ℕ → Action
  close : ℕ → Action
  too_long : Action

-- `PTYPE_TEXT`, `PTYPE_TAG_DONTCOPY`
abbrev pub ptype_text : ℕ
ptype_text = 0

abbrev pub ptype_tag_dontcopy : ℕ
ptype_tag_dontcopy = 0x10000

module _ (print_data : ℕ → List ℕ) where
  -- To whom `_forward` sends: the broker, else the agent, else the watchdog.
  unfoldable pub receiver : Gate → Connection → Option (List ℕ → Action)
  receiver g c =
      if g.broker == 0
      then (if c.agent == 0
          then (if g.watchdog == 0
              then none
              else some (λ bytes.
                send 0 g.watchdog (bit_or ptype_text ptype_tag_dontcopy) 1
                  (print_data c.id ++ bytes)))
          else some (send c.client c.agent (bit_or g.client_tag ptype_tag_dontcopy) 1))
      else some (send 0 g.broker (bit_or g.client_tag ptype_tag_dontcopy) 1)

  -- `_forward`; without a receiver nothing is read.
  pub forward :
      Gate
      → Connection
      → DataBuffer
      → MessagePool
      → ℕ
      → Option (List Action × DataBuffer × MessagePool)
  forward g c db mp size = elim (receiver g c) [
    | none ↦ some ([], db, mp)
    | some to ↦ elim (read db mp size) [
      | none ↦ none
      | some (bytes, db', mp') ↦ some (to bytes ∷ [], db', mp')
    ]
  ]

  -- The loop of `dispatch_message` on fuel; a size from 2^31 on is negative.
  pub dispatch_loop :
      ℕ
      → Gate
      → Connection
      → ℕ
      → DataBuffer
      → MessagePool
      → Option (List Action × DataBuffer × MessagePool)
  dispatch_loop zero g c id db mp = none
  dispatch_loop (suc fuel) g c id db mp = elim (readheader db mp g.header_size) [
    | none ↦ none
    | some (size, db1, mp1) ↦
        if leb (2 ^ 31) size
        then some ([], db1, mp1)
        else if size == 0
        then dispatch_loop fuel g c id db1 mp1
        else if leb 0x1000000 size
        then (let (db2, mp2) = clear db1 mp1 in some (close id ∷ too_long ∷ [], db2, mp2))
        else elim (forward g c db1 mp1 size) [
          | none ↦ none
          | some (sent, db2, mp2) ↦ elim (dispatch_loop fuel g c id (reset db2) mp2) [
            | none ↦ none
            | some (more, db3, mp3) ↦ some (sent ++ more, db3, mp3)
          ]
        ]
  ]

  -- `dispatch_message`; each round takes a byte at least.
  pub dispatch_message :
      Gate → Connection → ℕ → MessagePool → List ℕ → Option (List Action × Connection × MessagePool)
  dispatch_message g c id mp bytes =
      let (db, mp1) = push c.buffer mp bytes in
      elim (dispatch_loop (suc db.size) g c id db mp1) [
        | none ↦ none
        | some (actions, db', mp') ↦ some (actions, record c { buffer = db' }, mp')
      ]
