-- ===== src/DataBuffer.antt =====
-- skynet-dist/service-src/databuffer.h: the bytes that a gate has received and not yet handed on, in
-- the buffers in which they came, and the pool of list cells. A buffer is the list of its bytes.
pub mod Stream
pub mod Push
pub mod Packet
use game_server.Common.{
  ℕ, zero, suc, ◌+◌, ◌-◌, ◌*◌, ◌^◌, Option, none, some, List, [], ◌∷◌, ◌++◌, length, take, drop,
  ltb, leb, ◌==◌, if◌then◌else◌,
}

-- `struct databuffer`; the list is the chain from `head` to `tail`.
pub record DataBuffer : Type 0 where
  pub header : ℕ
  pub offset : ℕ
  pub size : ℕ
  pub messages : List (List ℕ)

-- `struct messagepool`: how many blocks of cells there are, and how many cells are on the free list.
pub record MessagePool : Type 0 where
  pub blocks : ℕ
  pub free : ℕ

abbrev pub messagepool : ℕ
messagepool = 1023

-- an `int` by its bit pattern
abbrev pub minus_one : ℕ
minus_one = 2 ^ 32 - 1

-- `_return_message` gives a cell back; the chain is cut by the caller below.
abbrev pub return_cell : MessagePool → MessagePool
return_cell mp = record mp { free = mp.free + 1 }

-- What a read hands out and leaves.
pub record Rest : Type 0 where
  pub bytes : List ℕ
  pub messages : List (List ℕ)
  pub offset : ℕ
  pub pool : MessagePool

-- The loop of `databuffer_read` over the chain; `none` is a read through a null `head`.
pub read_loop : List (List ℕ) → ℕ → ℕ → MessagePool → Option Rest
read_loop [] offset sz mp = none
read_loop (current ∷ ms) offset sz mp =
    let bsz = length current - offset in
    let more = read_loop ms 0 (sz - bsz) (return_cell mp) in
    if ltb sz bsz
    then some (record {
      bytes = take sz (drop offset current);
      messages = current ∷ ms;
      offset = offset + sz;
      pool = mp;
    })
    else if bsz == sz
    then some (record {
      bytes = take sz (drop offset current);
      messages = ms;
      offset = 0;
      pool = return_cell mp;
    })
    else elim more [
      | none ↦ none
      | some r ↦ some (record r { bytes = take bsz (drop offset current) ++ r.bytes })
    ]

-- `databuffer_read`; `none` is also the failed assertion.
pub read : DataBuffer → MessagePool → ℕ → Option (List ℕ × DataBuffer × MessagePool)
read db mp sz =
    if leb sz db.size
    then elim (read_loop db.messages db.offset sz mp) [
      | none ↦ none
      | some r ↦ some (
        r.bytes,
        record db { size = db.size - sz; offset = r.offset; messages = r.messages },
        r.pool,
      )
    ]
    else none

-- the cell that `databuffer_push` takes, from the free list or from a new block
pub take_cell : MessagePool → MessagePool
take_cell mp =
    if mp.free == 0
    then record { blocks = mp.blocks + 1; free = messagepool - 1 }
    else record mp { free = mp.free - 1 }

-- `databuffer_push`
pub push : DataBuffer → MessagePool → List ℕ → DataBuffer × MessagePool
push db mp bytes = (
  record db { size = db.size + length bytes; messages = db.messages ++ (bytes ∷ []) },
  take_cell mp,
)

-- The bytes of a header, most significant first, on 32 bits.
unfoldable pub big_endian : ℕ → List ℕ → ℕ
big_endian acc [] = acc
big_endian acc (b ∷ bs) = big_endian (acc * 2 ^ 8 + b) bs

-- The end of `databuffer_readheader`: a signed comparison of the size with the header.
pub wait_for : DataBuffer → ℕ
wait_for db =
    if ltb db.header (2 ^ 31)
    then (if ltb db.size db.header then minus_one else db.header)
    else db.header

-- `databuffer_readheader` for a header of 2 or 4 bytes: the packet's length, or -1 for not yet.
pub readheader : DataBuffer → MessagePool → ℕ → Option (ℕ × DataBuffer × MessagePool)
unfolding wait_for
readheader db mp header_size =
    if db.header == 0
    then (if ltb db.size header_size
        then some (minus_one, db, mp)
        else elim (read db mp header_size) [
          | none ↦ none
          | some (plen, db', mp') ↦
              let got = record db' { header = big_endian 0 plen } in some (wait_for got, got, mp')
        ])
    else some (wait_for db, db, mp)

-- `databuffer_reset`
pub reset : DataBuffer → DataBuffer
reset db = record db { header = 0 }

-- `databuffer_clear`
pub clear : DataBuffer → MessagePool → DataBuffer × MessagePool
clear db mp = (
  record { header = 0; offset = 0; size = 0; messages = [] },
  record mp { free = mp.free + length db.messages },
)
