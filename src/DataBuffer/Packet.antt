-- ===== src/DataBuffer/Packet.antt =====
-- Packets out of the stream: `databuffer_readheader` and the read that follows it, whatever the
-- buffers in which the bytes came.
use game_server.Common.{
  ℕ, ◌+◌, ◌*◌, ◌^◌, ◌≤◌, ◌<◌, ◌≡◌, refl, ap, ◌∙◌, some, List, [], ◌∷◌, ◌++◌, length, take, drop,
  ltb, if◌then◌else◌, length-append, take_front, drop_front, arith,
}
use game_server.DataBuffer.{
  DataBuffer, MessagePool, minus_one, big_endian, wait_for, readheader, read, reset,
}
use game_server.DataBuffer.Stream.{stream, IsValid, Accounts, read_lem}

-- `databuffer_readheader` on fewer bytes than a header has says "not yet" and changes nothing.
pub readheader_short :
    (db : DataBuffer) (mp : MessagePool) (n : ℕ)
    → db.header ≡ 0
    → db.size < n
    → readheader db mp n ≡ some (minus_one, db, mp)
unfolding readheader
readheader_short db mp n e h = ground arith

readheader_runs :
    (db db' : DataBuffer) (mp mp' : MessagePool) (n : ℕ) (plen : List ℕ)
    → db.header ≡ 0
    → n ≤ db.size
    → read db mp n ≡ some (plen, db', mp')
    → readheader db mp n
      ≡ some (
        wait_for (record db' { header = big_endian 0 plen }),
        record db' { header = big_endian 0 plen },
        mp',
      )
unfolding readheader
readheader_runs db db' mp mp' n plen e h r = ground arith

-- What `databuffer_readheader` has done with a header of `n` bytes in front of `rest`.
pub record Headed (others n : ℕ) (db : DataBuffer) (mp : MessagePool) (len : ℕ) (rest : List ℕ)
    (db' : DataBuffer) (mp' : MessagePool) : Type 0 where
  pub returns :
      readheader db mp n ≡ some ((if ltb (length rest) len then minus_one else len), db', mp')
  pub valid : IsValid db'
  pub cells : Accounts mp' (length db'.messages + others)
  pub left : stream db' ≡ rest
  pub header : db'.header ≡ len

wait_for_lem :
    (db : DataBuffer) (rest : List ℕ) (len : ℕ)
    → len < 2 ^ 31
    → db.size ≡ length rest
    → wait_for (record db { header = len }) ≡ (if ltb (length rest) len then minus_one else len)
unfolding wait_for
wait_for_lem db rest len lt size = ground arith

Headed-of :
    (others n : ℕ) (db db1 : DataBuffer) (mp mp1 : MessagePool) (header rest : List ℕ)
    → db.header ≡ 0
    → n ≤ db.size
    → big_endian 0 header < 2 ^ 31
    → read db mp n ≡ some (header, db1, mp1)
    → stream db1 ≡ rest
    → IsValid db1
    → Accounts mp1 (length db1.messages + others)
    → Headed others n db mp
        (big_endian 0 header)
        rest
        (record db1 { header = big_endian 0 header })
        mp1
unfolding stream
Headed-of others n db db1 mp mp1 header rest e le small run s v acc =
    let size : db1.size ≡ length rest = v.counted ∙ ap length s in
    record {
      returns =
          readheader_runs db db1 mp mp1 n header e le run
          ∙ ap (λ k. some (k, record db1 { header = big_endian 0 header }, mp1))
              (wait_for_lem db1 rest (big_endian 0 header) small size);
      valid = record { offset_in = v.offset_in; counted = v.counted };
      cells = acc;
      left = s;
      header = refl;
    }

-- `databuffer_readheader` takes a header off the stream, most significant byte first, and answers with
-- its value if the whole packet is there, and with -1 if it is not.
pub readheader_lem :
    (others : ℕ) (db : DataBuffer) (mp : MessagePool) (header rest : List ℕ)
    → IsValid db
    → Accounts mp (length db.messages + others)
    → db.header ≡ 0
    → 0 < length header
    → big_endian 0 header < 2 ^ 31
    → stream db ≡ header ++ rest
    → (db' : DataBuffer) × (mp' : MessagePool) × Headed others
        (length header)
        db
        mp
        (big_endian 0 header)
        rest
        db'
        mp'
readheader_lem others db mp header rest v acc e pos small s =
    let size : db.size ≡ length header + length rest =
      v.counted ∙ ap length s ∙ length-append header rest in
    let (db1, mp1, run, left, v1, acc1, _) =
      read_lem others db mp (length header) v pos (omega arith) acc in
    (
      record db1 { header = big_endian 0 header },
      mp1,
      Headed-of others (length header) db db1 mp mp1 header rest e (omega arith) small
          (run
            ∙ ap (λ l. some (l, db1, mp1)) (ap (take (length header)) s ∙ take_front header rest))
          (left ∙ ap (drop (length header)) s ∙ drop_front header rest) v1 acc1,
    )

whole :
    (payload rest : List ℕ) {len : ℕ}
    → len ≡ length payload
    → (if ltb (length (payload ++ rest)) len then minus_one else len) ≡ length payload
whole payload rest n = ground (arith, length-append payload rest)

-- A packet behind its header comes out whole and alone: the read of the announced length hands out
-- the payload, and what is left of the stream is what followed it.
pub packet_lem :
    (others : ℕ) (db : DataBuffer) (mp : MessagePool) (hi lo : ℕ) (payload rest : List ℕ)
    → IsValid db
    → Accounts mp (length db.messages + others)
    → db.header ≡ 0
    → hi < 2 ^ 8
    → lo < 2 ^ 8
    → 0 < length payload
    → hi * 2 ^ 8 + lo ≡ length payload
    → stream db ≡ hi ∷ lo ∷ (payload ++ rest)
    → (db1 db2 : DataBuffer) × (mp1 mp2 : MessagePool) × (readheader db mp 2
        ≡ some (length payload, db1, mp1))
      × (read db1 mp1 (length payload) ≡ some (payload, db2, mp2))
      × (stream (reset db2) ≡ rest)
      × IsValid (reset db2)
      × Accounts mp2 (length db2.messages + others)
unfolding reset stream big_endian
packet_lem others db mp hi lo payload rest v acc e h l pos n s =
    let (db1, mp1, t) =
      readheader_lem others db mp (hi ∷ lo ∷ []) (payload ++ rest) v acc e (omega arith)
        (omega arith) s in
    let value : big_endian 0 (hi ∷ lo ∷ []) ≡ length payload = omega arith in
    let (db2, mp2, run, left, v2, acc2, _) =
      read_lem others db1 mp1 (length payload) t.valid pos
        (omega (arith, t.valid.counted ∙ ap length t.left, length-append payload rest)) t.cells in
    (
      db1,
      db2,
      mp1,
      mp2,
      t.returns ∙ ap (λ k. some (k, db1, mp1)) (whole payload rest value),
      run
          ∙ ap (λ b. some (b, db2, mp2))
              (ap (take (length payload)) t.left ∙ take_front payload rest),
      left ∙ ap (drop (length payload)) t.left ∙ drop_front payload rest,
      record { offset_in = v2.offset_in; counted = v2.counted },
      acc2,
    )

-- With its header taken off before, a packet is awaited until it is all there.
pub readheader_known :
    (db : DataBuffer) (mp : MessagePool) (n len : ℕ)
    → db.header ≡ len
    → 0 < len
    → len < 2 ^ 31
    → readheader db mp n ≡ some ((if ltb db.size len then minus_one else len), db, mp)
unfolding readheader wait_for
readheader_known db mp n len e pos lt = ground arith

-- `databuffer_reset` forgets the header and nothing else.
pub reset_lem :
    (others : ℕ) (db : DataBuffer) (mp : MessagePool)
    → IsValid db
    → Accounts mp (length db.messages + others)
    → IsValid (reset db)
      × (stream (reset db) ≡ stream db)
      × ((reset db).header ≡ 0)
      × Accounts mp (length (reset db).messages + others)
unfolding reset stream
reset_lem others db mp v acc =
    (record { offset_in = v.offset_in; counted = v.counted }, refl, refl, acc)
