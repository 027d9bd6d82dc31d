-- ===== src/DataBuffer/Push.antt =====
-- `databuffer_push` extends the stream of buffered bytes at its end.
use native.Mathlib.Decide.{ℕ_discrete}
use game_server.Common.{
  concat, concat-append, ℕ, ◌+◌, ◌≤◌, ◌≡◌, refl, ap, List, [], ◌∷◌, ◌++◌, length, drop,
  length-append, drop-append_le, arith,
}
use game_server.DataBuffer.{DataBuffer, MessagePool, take_cell, push}
use game_server.DataBuffer.Stream.{stream, InFirst, IsValid, Accounts}

InFirst-append :
    (ms : List (List ℕ)) (b : List ℕ) (offset : ℕ)
    → InFirst ms offset
    → InFirst (ms ++ (b ∷ [])) offset
InFirst-append [] b offset h = omega arith
InFirst-append (m ∷ ms) b offset h = h

InFirst-le : (ms : List (List ℕ)) (offset : ℕ) → InFirst ms offset → offset ≤ length (concat ms)
InFirst-le [] offset h = omega arith
InFirst-le (m ∷ ms) offset h = omega (arith, length-append m (concat ms))

stream_push :
    (db : DataBuffer) (bytes : List ℕ)
    → InFirst db.messages db.offset
    → drop db.offset (concat (db.messages ++ (bytes ∷ [])))
      ≡ drop db.offset (concat db.messages) ++ bytes
stream_push db bytes h =
    rw (concat-append db.messages bytes)
      (drop-append_le db.offset (concat db.messages) bytes (InFirst-le db.messages db.offset h))

push_cells :
    (others : ℕ) (mp : MessagePool) (ms : List (List ℕ)) (b : List ℕ)
    → Accounts mp (length ms + others)
    → Accounts (take_cell mp) (length (ms ++ (b ∷ [])) + others)
unfolding take_cell
push_cells others mp ms b acc = elim (ℕ_discrete mp.free 0) [
  | yes z ↦ let q = length-append ms (b ∷ []) in ground arith
  | no p ↦ let q = length-append ms (b ∷ []) in ground arith
]

-- `databuffer_push` puts the bytes behind the stream, and takes one cell.
pub push_lem :
    (others : ℕ) (db : DataBuffer) (mp : MessagePool) (bytes : List ℕ)
    → IsValid db
    → Accounts mp (length db.messages + others)
    → let (db', mp') = push db mp bytes in
      (stream db' ≡ stream db ++ bytes)
      × IsValid db'
      × Accounts mp' (length db'.messages + others)
      × (db'.header ≡ db.header)
unfolding push stream take_cell
push_lem others db mp bytes v acc =
    let s = stream_push db bytes v.offset_in in
    (
      s,
      record {
        offset_in = InFirst-append db.messages bytes db.offset v.offset_in;
        counted = omega (arith, v.counted, ap length s, length-append (stream db) bytes);
      },
      push_cells others mp db.messages bytes acc,
      refl,
    )
