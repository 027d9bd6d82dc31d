-- ===== src/Tests/Buffers.antt =====
-- The receive buffer on small inputs.
use game_server.Common.{ℕ, ◌+◌, ◌≡◌, refl, some, List, [], ◌∷◌, ◌++◌, length, take, drop, arith}
use game_server.DataBuffer.{DataBuffer, MessagePool, read, readheader, reset}
use game_server.DataBuffer.Stream.{stream, IsValid, Accounts, read_lem}
use game_server.DataBuffer.Packet.{packet_lem}

-- the packet of the bytes 8 and 9, then a byte more, in two buffers, one byte of the first already read
abbrev received : DataBuffer
received = record {
  header = 0;
  offset = 1;
  size = 5;
  messages = (4 ∷ 0 ∷ 2 ∷ 8 ∷ []) ∷ (9 ∷ 1 ∷ []) ∷ [];
}

abbrev pool : MessagePool
pool = record { blocks = 1; free = 1021 }

abbrev payload : List ℕ
payload = 8 ∷ 9 ∷ []

stream-received : stream received ≡ 0 ∷ 2 ∷ (payload ++ (1 ∷ []))
unfolding stream
stream-received = refl

received-IsValid : IsValid received
unfolding stream
received-IsValid = omega arith

packet_lem_example :
    (db1 db2 : DataBuffer) × (mp1 mp2 : MessagePool) × (readheader received pool 2
      ≡ some (length payload, db1, mp1))
    × (read db1 mp1 (length payload) ≡ some (payload, db2, mp2))
    × (stream (reset db2) ≡ 1 ∷ [])
    × IsValid (reset db2)
    × Accounts mp2 (length db2.messages + 0)
packet_lem_example =
    packet_lem 0 received pool 0 2 payload (1 ∷ []) received-IsValid refl refl (omega arith)
      (omega arith) (omega arith) refl stream-received

read_lem_example :
    (db' : DataBuffer) × (mp' : MessagePool) × (read received pool 4
      ≡ some (take 4 (stream received), db', mp'))
    × (stream db' ≡ drop 4 (stream received))
    × IsValid db'
    × Accounts mp' (length db'.messages + 0)
    × (db'.header ≡ received.header)
read_lem_example = read_lem 0 received pool 4 received-IsValid (omega arith) (omega arith) refl
