-- ===== src/Gate/Held.antt =====
-- The bytes that a connection holds, with headers of two or four bytes, and the packets in them.
use mathlib.Core.Path.{subst}
use game_server.Common.{
  append_assoc, ℕ, ◌+◌, ◌*◌, ◌/◌, ◌%◌, ◌^◌, ◌≤◌, ◌<◌, ◌≡◌, ◌⊎◌, inl, inr, refl, sym, ap, ◌∙◌, some,
  List, [], ◌∷◌, ◌++◌, length, take, drop, take_front, drop_front, All, ltb, ◌==◌, if◌then◌else◌,
  length-append, arith,
}
use game_server.DataBuffer.{DataBuffer, MessagePool, minus_one, big_endian, push}
use game_server.DataBuffer.Stream.{stream, IsValid, Accounts}
use game_server.DataBuffer.Push.{push_lem}
use game_server.DataBuffer.Packet.{Headed, readheader_lem, readheader_known}

-- A gate is started with headers of two or of four bytes.
abbrev pub IsHeaderSize : ℕ → Type 0
IsHeaderSize n = (n ≡ 2) ⊎ (n ≡ 4)

-- The header of a packet on the wire: its length, the highest byte first.
abbrev pub size_bytes : ℕ → ℕ → List ℕ
size_bytes n len =
    if n == 2
    then (len / 2 ^ 8) ∷ (len % 2 ^ 8) ∷ []
    else (len / 2 ^ 24) ∷ (len / 2 ^ 16 % 2 ^ 8) ∷ (len / 2 ^ 8 % 2 ^ 8) ∷ (len % 2 ^ 8) ∷ []

-- A length has to fit in the header, and a gate closes a connection at one of 2^24 and more.
abbrev pub size_limit : ℕ → ℕ
size_limit n = if n == 2 then 2 ^ 16 else 2 ^ 24

-- What a payload has to be in order to be handed on.
abbrev pub IsPayload : ℕ → List ℕ → Type 0
IsPayload n p = 0 < length p × length p < size_limit n

-- the bytes of packets
abbrev pub frames : ℕ → List (List ℕ) → List ℕ
frames n [] = []
frames n (p ∷ ps) = size_bytes n (length p) ++ (p ++ frames n ps)

-- The beginning of a packet: not even its header, or its header and not all of its payload.
pub data IsPart (n : ℕ) : List ℕ → Type 0 where
  short : (text : List ℕ) → length text < n → IsPart n text
  part :
      (len : ℕ) (bytes : List ℕ)
      → len < size_limit n
      → length bytes < len
      → IsPart n (size_bytes n len ++ bytes)

-- The header of a length is read as that length.
pub record Sized (n len : ℕ) : Type 0 where
  pub value : big_endian 0 (size_bytes n len) ≡ len
  pub count : length (size_bytes n len) ≡ n
  pub small : len < 2 ^ 24
  pub wide : 2 ≤ n

Sized-two : (n len : ℕ) → n ≡ 2 → len < size_limit n → Sized n len
unfolding big_endian
Sized-two n len e lt =
    subst (λ k. Sized k len) (sym e)
      (let lt' : len < 2 ^ 16 = subst (λ k. len < size_limit k) e lt in
        record { value = omega arith; count = refl; small = omega arith; wide = omega arith })

Sized-four : (n len : ℕ) → n ≡ 4 → len < size_limit n → Sized n len
unfolding big_endian
Sized-four n len e lt =
    subst (λ k. Sized k len) (sym e)
      (let lt' : len < 2 ^ 24 = subst (λ k. len < size_limit k) e lt in
        let one : len ≡ len / 2 ^ 8 * 2 ^ 8 + len % 2 ^ 8 = omega arith in
        let two : len / 2 ^ 8 ≡ len / 2 ^ 16 * 2 ^ 8 + len / 2 ^ 8 % 2 ^ 8 = omega arith in
        let three : len / 2 ^ 16 ≡ len / 2 ^ 24 * 2 ^ 8 + len / 2 ^ 16 % 2 ^ 8 = omega arith in
        record { value = omega arith; count = refl; small = lt'; wide = omega arith })

pub size_bytes-Sized : (n len : ℕ) → IsHeaderSize n → len < size_limit n → Sized n len
size_bytes-Sized n len (inl e) lt = Sized-two n len e lt
size_bytes-Sized n len (inr e) lt = Sized-four n len e lt

-- `text` has come and has not been handed on: its header may have been taken off the stream.
pub data Holds (others n : ℕ) (text : List ℕ) (db : DataBuffer) (mp : MessagePool) : Type 0 where
  at_header :
      IsValid db
      → Accounts mp (length db.messages + others)
      → db.header ≡ 0
      → stream db ≡ text
      → Holds others n text db mp
  at_payload :
      (len : ℕ) (rest : List ℕ)
      → IsValid db
      → Accounts mp (length db.messages + others)
      → Sized n len
      → db.header ≡ len
      → 0 < db.header
      → stream db ≡ rest
      → text ≡ size_bytes n len ++ rest
      → Holds others n text db mp

pub Holds-push :
    (others n : ℕ) (text bytes : List ℕ) (db : DataBuffer) (mp : MessagePool)
    → Holds others n text db mp
    → let (db', mp') = push db mp bytes in Holds others n (text ++ bytes) db' mp'
Holds-push others n text bytes db mp (at_header v acc e s) =
    let (s', v', acc', e') = push_lem others db mp bytes v acc in
    at_header v' acc' (e' ∙ e) (s' ∙ ap (λ x. x ++ bytes) s)
Holds-push others n text bytes db mp (at_payload len rest v acc z e pos s t) =
    let (s', v', acc', e') = push_lem others db mp bytes v acc in
    at_payload len (rest ++ bytes) v' acc' z (e' ∙ e) (rw e' pos) (s' ∙ ap (λ x. x ++ bytes) s)
      (ap (λ x. x ++ bytes) t ∙ append_assoc (size_bytes n len) rest bytes)

-- What `databuffer_readheader` does once the header is there.
pub record Ready (others n : ℕ) (db : DataBuffer) (mp : MessagePool) (len : ℕ) (rest : List ℕ)
    : Type 0 where
  pub db' : DataBuffer
  pub mp' : MessagePool
  pub headed : Headed others n db mp len rest db' mp'

-- The same header, and then the same rest.
same_size :
    {n len len' : ℕ} (rest rest' : List ℕ)
    → Sized n len
    → Sized n len'
    → size_bytes n len ++ rest ≡ size_bytes n len' ++ rest'
    → (len ≡ len') × (rest ≡ rest')
same_size {n} {len} {len'} rest rest' z z' e =
    let a : List ℕ = size_bytes n len in
    let b : List ℕ = size_bytes n len' in
    let same : length a ≡ length b = z.count ∙ sym z'.count in
    let front : a ≡ b =
      sym (take_front a rest)
      ∙ ap (take (length a)) e
      ∙ ap (λ k. take k (b ++ rest')) same
      ∙ take_front b rest' in
    (
      sym z.value ∙ ap (big_endian 0) front ∙ z'.value,
      sym (drop_front a rest)
          ∙ ap (drop (length a)) e
          ∙ ap (λ k. drop k (b ++ rest')) same
          ∙ drop_front b rest',
    )

pub Ready-Holds :
    (others n len : ℕ) (rest : List ℕ) (db : DataBuffer) (mp : MessagePool)
    → Holds others n (size_bytes n len ++ rest) db mp
    → Sized n len
    → Ready others n db mp len rest
Ready-Holds others n len rest db mp (at_header v acc e s) z =
    let (db', mp', t) =
      readheader_lem others db mp (size_bytes n len) rest v acc e (omega (arith, z.count, z.wide))
        (omega (arith, z.value, z.small)) s in
    record {
      db' = db';
      mp' = mp';
      headed =
          subst (λ k. Headed others k db mp len rest db' mp') z.count
            (subst (λ k. Headed others (length (size_bytes n len)) db mp k rest db' mp') z.value t);
    }
Ready-Holds others n len rest db mp (at_payload len' rest' v acc z' e pos s t) z =
    let (same_len, same_rest) = same_size rest rest' z z' t in
    let header : db.header ≡ len = e ∙ sym same_len in
    let whole : stream db ≡ rest = s ∙ sym same_rest in
    let known = readheader_known db mp n len header (omega arith) (omega (arith, z.small)) in
    record {
      db' = db;
      mp' = mp;
      headed = record {
        returns =
            known
            ∙ ap (λ k. some ((if ltb k len then minus_one else len), db, mp))
                (v.counted ∙ ap length whole);
        valid = v;
        cells = acc;
        left = whole;
        header = header;
      };
    }

pub Holds-length :
    (others n : ℕ) (text : List ℕ) (db : DataBuffer) (mp : MessagePool)
    → Holds others n text db mp
    → length text ≤ db.size + n
Holds-length others n text db mp (at_header v acc e s) = omega (arith, v.counted, ap length s)
Holds-length others n text db mp (at_payload len rest v acc z e pos s t) =
    omega
      (arith, v.counted, ap length s, ap length t, z.count, length-append (size_bytes n len) rest)

pub length-frames :
    (n : ℕ) (ps : List (List ℕ))
    → IsHeaderSize n
    → All (IsPayload n) ps
    → n * length ps + length ps ≤ length (frames n ps)
length-frames n [] h q = omega arith
length-frames n (p ∷ ps) h q =
    let z = size_bytes-Sized n (length p) h q.0.1 in
    let cut = length-append (size_bytes n (length p)) (p ++ frames n ps) in
    let cut' = length-append p (frames n ps) in
    let rest = length-frames n ps h q.1 in
    elim h [ inl e ↦ omega (arith, z.count, q.0.0) | inr e ↦ omega (arith, z.count, q.0.0) ]
