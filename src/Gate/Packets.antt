-- ===== src/Gate/Packets.antt =====
-- `dispatch_message`: whole packets are handed on, in order, and the rest waits.
use mathlib.Core.Path.{subst}
use game_server.Common.{
  inl, inr, ℕ, zero, suc, ◌+◌, ◌*◌, ◌^◌, ◌≤◌, ◌<◌, ◌≡◌, refl, ap, ◌∙◌, false, some, List, [], ◌∷◌,
  ◌++◌, map, length, take, drop, All, take_front, drop_front, append_assoc, ltb, leb, ◌==◌,
  if◌then◌else◌, length-append, arith,
}
use game_server.DataBuffer.{DataBuffer, MessagePool, minus_one, push, read, readheader, reset}
use game_server.DataBuffer.Stream.{read_lem}
use game_server.DataBuffer.Packet.{readheader_short, reset_lem}
use game_server.Gate.{Connection, Gate, Action, receiver, forward, dispatch_loop, dispatch_message}
use game_server.Gate.Held.{
  IsHeaderSize, size_bytes, IsPayload, frames, IsPart, short, part, Sized, size_bytes-Sized, Holds,
  at_header, at_payload, Holds-push, Ready-Holds, Holds-length, length-frames,
}

-- There are bytes enough for a round for each packet.
rounds :
    (n packets bytes size : ℕ)
    → IsHeaderSize n
    → n * packets + packets ≤ bytes
    → bytes ≤ size + n
    → packets ≤ size
rounds n packets bytes size (inl e) a b =
    let a' : 2 * packets + packets ≤ bytes = subst (λ k. k * packets + packets ≤ bytes) e a in
    omega arith
rounds n packets bytes size (inr e) a b =
    let a' : 4 * packets + packets ≤ bytes = subst (λ k. k * packets + packets ≤ bytes) e a in
    omega arith

module _ (print_data : ℕ → List ℕ) (others : ℕ) where
  -- The rounds of the loop.
  loop_waits :
      (fuel id : ℕ) (g : Gate) (c : Connection) (db db' : DataBuffer) (mp mp' : MessagePool)
      → readheader db mp g.header_size ≡ some (minus_one, db', mp')
      → dispatch_loop print_data (suc fuel) g c id db mp ≡ some ([], db', mp')
  unfolding dispatch_loop
  loop_waits fuel id g c db db' mp mp' e = rw (dispatch_loop, e) refl

  loop_hands_on :
      (fuel id size : ℕ) (g : Gate) (c : Connection) (to : List ℕ → Action)
      (db db1 db2 db3 : DataBuffer) (mp mp1 mp2 mp3 : MessagePool) (bytes : List ℕ)
      (more : List Action)
      → readheader db mp g.header_size ≡ some (size, db1, mp1)
      → 0 < size
      → size < 0x1000000
      → receiver print_data g c ≡ some to
      → read db1 mp1 size ≡ some (bytes, db2, mp2)
      → dispatch_loop print_data fuel g c id (reset db2) mp2 ≡ some (more, db3, mp3)
      → dispatch_loop print_data (suc fuel) g c id db mp ≡ some (to bytes ∷ more, db3, mp3)
  unfolding dispatch_loop forward
  loop_hands_on fuel id size g c to db db1 db2 db3 mp mp1 mp2 mp3 bytes more e pos lt r run rest =
      let a : leb (2 ^ 31) size ≡ false = ground arith in
      let b : (size == 0) ≡ false = ground arith in
      let d : leb 0x1000000 size ≡ false = ground arith in
      rw (dispatch_loop, e, a, b, d, forward, r, run, rest) refl

  -- Without a whole header.
  waits_short :
      (n : ℕ) (text : List ℕ) (fuel id : ℕ) (g : Gate) (c : Connection) (db : DataBuffer)
      (mp : MessagePool)
      → length text < n
      → Holds others n text db mp
      → g.header_size ≡ n
      → (db' : DataBuffer) × (mp' : MessagePool) × (dispatch_loop print_data (suc fuel) g c id db mp
          ≡ some ([], db', mp'))
        × Holds others n text db' mp'
  waits_short n text fuel id g c db mp lt (at_header v acc e s) size =
      let few : db.size < n = omega (arith, v.counted, ap length s) in
      (
        db,
        mp,
        loop_waits fuel id g c db db mp mp
            (ap (readheader db mp) size ∙ readheader_short db mp n e few),
        at_header v acc e s,
      )
  waits_short n text fuel id g c db mp lt (at_payload len rest v acc z e pos s t) size =
      absurd (omega (arith, ap length t, z.count, length-append (size_bytes n len) rest))

  -- What is left when no whole packet is there.
  waits_for_part :
      (n : ℕ) (text : List ℕ) (fuel id : ℕ) (g : Gate) (c : Connection) (db : DataBuffer)
      (mp : MessagePool)
      → IsHeaderSize n
      → IsPart n text
      → Holds others n text db mp
      → g.header_size ≡ n
      → (db' : DataBuffer) × (mp' : MessagePool) × (dispatch_loop print_data (suc fuel) g c id db mp
          ≡ some ([], db', mp'))
        × Holds others n text db' mp'
  waits_for_part n text fuel id g c db mp two (short t few) holds size =
      waits_short n t fuel id g c db mp few holds size
  waits_for_part n text fuel id g c db mp two (part len bytes lt few) holds size =
      let z = size_bytes-Sized n len two lt in
      let r = Ready-Holds others n len bytes db mp holds z in
      let h = r.headed in
      let wait : (if ltb (length bytes) len then minus_one else len) ≡ minus_one = ground arith in
      (
        r.db',
        r.mp',
        loop_waits fuel id g c db r.db' mp r.mp'
            (ap (readheader db mp) size ∙ h.returns ∙ ap (λ k. some (k, r.db', r.mp')) wait),
        at_payload len bytes h.valid h.cells z h.header (omega (arith, h.header)) h.left refl,
      )

  -- A whole packet in front is handed on.
  hands_on :
      (n : ℕ) (p rest : List ℕ) (fuel id : ℕ) (g : Gate) (c : Connection) (to : List ℕ → Action)
      (db : DataBuffer) (mp : MessagePool)
      → Sized n (length p)
      → 0 < length p
      → Holds others n (size_bytes n (length p) ++ (p ++ rest)) db mp
      → g.header_size ≡ n
      → receiver print_data g c ≡ some to
      → (db2 : DataBuffer) × (mp2 : MessagePool) × Holds others n rest (reset db2) mp2
        × ((more : List Action) (db3 : DataBuffer) (mp3 : MessagePool)
            → dispatch_loop print_data fuel g c id (reset db2) mp2 ≡ some (more, db3, mp3)
            → dispatch_loop print_data (suc fuel) g c id db mp ≡ some (to p ∷ more, db3, mp3))
  hands_on n p rest fuel id g c to db mp z pos holds size r =
      let ready = Ready-Holds others n (length p) (p ++ rest) db mp holds z in
      let d = ready.headed in
      let db' : DataBuffer = ready.db' in
      let mp' : MessagePool = ready.mp' in
      let here : db'.size ≡ length p + length rest =
        d.valid.counted ∙ ap length d.left ∙ length-append p rest in
      let (db2, mp2, run, left, v2, acc2, _) =
        read_lem others db' mp' (length p) d.valid pos (omega (arith, here)) d.cells in
      let (v3, s3, h3, acc3) = reset_lem others db2 mp2 v2 acc2 in
      let whole : (if ltb (length (p ++ rest)) (length p) then minus_one else length p) ≡ length p =
        ground (arith, length-append p rest) in
      (
        db2,
        mp2,
        at_header v3 acc3 h3 (s3 ∙ left ∙ ap (drop (length p)) d.left ∙ drop_front p rest),
        λ more db3 mp3 e.
            loop_hands_on fuel id (length p) g c to db db' db2 db3 mp mp' mp2 mp3 p more
              (ap (readheader db mp) size ∙ d.returns ∙ ap (λ k. some (k, db', mp')) whole) pos
              (omega (arith, z.small)) r
              (run ∙ ap (λ b. some (b, db2, mp2)) (ap (take (length p)) d.left ∙ take_front p rest))
              e,
      )

  loop_lem :
      (n : ℕ) (ps : List (List ℕ)) (tail : List ℕ) (fuel id : ℕ) (g : Gate) (c : Connection)
      (to : List ℕ → Action) (db : DataBuffer) (mp : MessagePool)
      → IsHeaderSize n
      → All (IsPayload n) ps
      → IsPart n tail
      → Holds others n (frames n ps ++ tail) db mp
      → g.header_size ≡ n
      → receiver print_data g c ≡ some to
      → length ps ≤ fuel
      → (db' : DataBuffer) × (mp' : MessagePool) × (dispatch_loop print_data (suc fuel) g c id db mp
          ≡ some (map to ps, db', mp'))
        × Holds others n tail db' mp'
  loop_lem n [] tail fuel id g c to db mp two q t holds size r le =
      waits_for_part n tail fuel id g c db mp two t holds size
  loop_lem n (p ∷ ps) tail zero id g c to db mp two q t holds size r le = absurd (omega arith)
  loop_lem n (p ∷ ps) tail (suc fuel) id g c to db mp two q t holds size r le =
      let joined : frames n (p ∷ ps) ++ tail
          ≡ size_bytes n (length p) ++ (p ++ (frames n ps ++ tail)) =
        append_assoc (size_bytes n (length p)) (p ++ frames n ps) tail
        ∙ ap (λ k. size_bytes n (length p) ++ k) (append_assoc p (frames n ps) tail) in
      let here : Holds others n (size_bytes n (length p) ++ (p ++ (frames n ps ++ tail))) db mp =
        subst (λ x. Holds others n x db mp) joined holds in
      let (db2, mp2, next, step) =
        hands_on n p (frames n ps ++ tail) (suc fuel) id g c to db mp
          (size_bytes-Sized n (length p) two q.0.1) q.0.0 here size r in
      let (db', mp', run, rest) =
        loop_lem n ps tail fuel id g c to (reset db2) mp2 two q.1 t next size r (omega arith) in
      (db', mp', step (map to ps) db' mp' run, rest)

  dispatch_message_runs :
      (g : Gate) (c : Connection) (id : ℕ) (mp : MessagePool) (bytes : List ℕ) (sent : List Action)
      (db' : DataBuffer) (mp' : MessagePool)
      → dispatch_loop print_data
          (suc (push c.buffer mp bytes).0.size)
          g
          c
          id
          (push c.buffer mp bytes).0
          (push c.buffer mp bytes).1
        ≡ some (sent, db', mp')
      → dispatch_message print_data g c id mp bytes ≡ some (sent, record c { buffer = db' }, mp')
  unfolding dispatch_message
  dispatch_message_runs g c id mp bytes sent db' mp' run = rw (dispatch_message, run) refl

  -- `dispatch_message` on the bytes that have just come, for a gate with headers of two or of four bytes
  -- and a connection that has a broker, an agent or a watchdog to forward to: if what was waiting and
  -- the new bytes are some packets and the beginning of another, no packet empty and each shorter than
  -- 2^24 bytes (2^16 with headers of two bytes), the payloads of these packets are sent, each as a whole
  -- and in order, and that beginning waits. So the packets do not depend on how the bytes were split. Of
  -- the pool's cells `others` are in other chains.
  pub dispatch_message_lem :
      (g : Gate) (c : Connection) (id : ℕ) (mp : MessagePool) (waiting bytes tail : List ℕ)
      (ps : List (List ℕ)) (to : List ℕ → Action)
      → IsHeaderSize g.header_size
      → Holds others g.header_size waiting c.buffer mp
      → waiting ++ bytes ≡ frames g.header_size ps ++ tail
      → All (IsPayload g.header_size) ps
      → IsPart g.header_size tail
      → receiver print_data g c ≡ some to
      → (db' : DataBuffer) × (mp' : MessagePool) × (dispatch_message print_data g c id mp bytes
          ≡ some (map to ps, record c { buffer = db' }, mp'))
        × Holds others g.header_size tail db' mp'
  dispatch_message_lem g c id mp waiting bytes tail ps to two holds split q t r =
      let n : ℕ = g.header_size in
      let db : DataBuffer = (push c.buffer mp bytes).0 in
      let mp1 : MessagePool = (push c.buffer mp bytes).1 in
      let all : Holds others n (frames n ps ++ tail) db mp1 =
        subst (λ x. Holds others n x db mp1) split
          (Holds-push others n waiting bytes c.buffer mp holds) in
      let enough : length ps ≤ db.size =
        rounds n (length ps) (length (frames n ps)) db.size two (length-frames n ps two q) (
          omega (
            arith,
            Holds-length others n (frames n ps ++ tail) db mp1 all,
            length-append (frames n ps) tail,
          )) in
      let (db', mp', run, rest) =
        loop_lem n ps tail db.size id g c to db mp1 two q t all refl r enough in
      (db', mp', dispatch_message_runs g c id mp bytes (map to ps) db' mp' run, rest)
