-- ===== src/Tests/Gates.antt =====
-- A packet and the beginning of another come to a gate.
use game_server.Common.{ℕ, ◌≡◌, refl, inr, some, List, [], ◌∷◌, map, arith}
use game_server.DataBuffer.{DataBuffer, MessagePool}
use game_server.DataBuffer.Stream.{stream}
use game_server.Gate.{Connection, Gate, send, receiver, dispatch_message}
use game_server.Gate.Held.{short, Holds, at_header}
use game_server.Gate.Packets.{dispatch_message_lem}

abbrev gate : Gate
gate = record { watchdog = 0; broker = 8; client_tag = 3; header_size = 4 }

abbrev peer : Connection
peer = record {
  id = 5;
  agent = 0;
  client = 0;
  buffer = record { header = 0; offset = 0; size = 0; messages = [] };
}

abbrev no_cells : MessagePool
no_cells = record { blocks = 0; free = 0 }

abbrev no_text : ℕ → List ℕ
no_text id = []

peer-Holds : Holds 0 4 [] peer.buffer no_cells
unfolding stream
peer-Holds = at_header (record { offset_in = refl; counted = refl }) refl refl refl

-- "AB" and the first byte of the next header
dispatch_message_lem_example :
    (db' : DataBuffer) × (mp' : MessagePool) × (dispatch_message no_text gate peer 5 no_cells
        (0 ∷ 0 ∷ 0 ∷ 2 ∷ 65 ∷ 66 ∷ 0 ∷ [])
      ≡ some (map (send 0 8 0x10003 1) ((65 ∷ 66 ∷ []) ∷ []), record peer { buffer = db' }, mp'))
    × Holds 0 4 (0 ∷ []) db' mp'
unfolding receiver
dispatch_message_lem_example =
    dispatch_message_lem no_text 0 gate peer 5 no_cells [] (0 ∷ 0 ∷ 0 ∷ 2 ∷ 65 ∷ 66 ∷ 0 ∷ [])
      (0 ∷ []) ((65 ∷ 66 ∷ []) ∷ []) (send 0 8 0x10003 1) (inr refl) peer-Holds refl
      ((omega arith, omega arith), tt) (short (0 ∷ []) (omega arith)) refl
