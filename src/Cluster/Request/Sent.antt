-- ===== src/Cluster/Request/Sent.antt =====
-- What `lpackrequest` writes is what `lunpackrequest` reads.
use game_server.Common.{
  ℕ, suc, ◌+◌, ◌%◌, ◌^◌, ◌<◌, ◌≡◌, refl, ap, ◌∙◌, Bool, true, false, List, [], ◌∷◌, ◌++◌, length,
  drop, ltb, ◌==◌, ◌⊎◌, inl, inr, drop-append_ge, arith, length-append, take_front,
}
use game_server.Cluster.{returned, Value, number, string, boolean, fill_uint32}
use game_server.Cluster.Packet.{unpack_uint32-fill_uint32}
use game_server.Cluster.Request.{
  Unpacked, byte_at, unpackreq_number, unpackmreq_number, unpackmreq_part, unpackreq_string,
  unpackmreq_string, lunpackrequest,
}

-- An address that can be sent: a 32-bit number, or a name of 1 to 255 bytes.
abbrev pub IsAddress : Value → Type 0
IsAddress (number id) = id < 2 ^ 32
IsAddress (string name) = (0 < length name) × (length name < 2 ^ 8)
IsAddress (boolean b) = ⊥

-- the values behind one packet
abbrev pub whole : Value → ℕ → List ℕ → Unpacked
whole addr session msg = record {
  addr = addr;
  session = session;
  msg = string msg;
  padding = false;
}

abbrev pub start : Value → ℕ → ℕ → Unpacked
start addr session size = record {
  addr = addr;
  session = session;
  msg = number size;
  padding = true;
}

abbrev pub part : ℕ → List ℕ → Bool → Unpacked
part session msg more = record {
  addr = boolean false;
  session = session;
  msg = string msg;
  padding = more;
}

abbrev pub number_body : ℕ → ℕ → ℕ → List ℕ → List ℕ
number_body kind id session rest = kind ∷ (fill_uint32 id ++ (fill_uint32 session ++ rest))

abbrev pub name_body : ℕ → List ℕ → ℕ → List ℕ → List ℕ
name_body kind name session rest =
    kind ∷ (length name % 2 ^ 8) ∷ (name ++ (fill_uint32 session ++ rest))

pub lunpackrequest-number :
    (id session : ℕ) (msg : List ℕ)
    → id < 2 ^ 32
    → session < 2 ^ 32
    → lunpackrequest (number_body 0 id session msg) ≡ returned (whole (number id) session msg)
unfolding lunpackrequest unpackreq_number fill_uint32
lunpackrequest-number id session msg a b =
    let few : ltb (length (number_body 0 id session msg)) 9 ≡ false = ground arith in
    let first = unpack_uint32-fill_uint32 id (fill_uint32 session ++ msg) a in
    let second = unpack_uint32-fill_uint32 session msg b in
    rw (lunpackrequest, unpackreq_number, few, first, second) refl

pub lunpackrequest-number_start :
    (id session size : ℕ)
    → id < 2 ^ 32
    → session < 2 ^ 32
    → size < 2 ^ 32
    → lunpackrequest (number_body 1 id session (fill_uint32 size))
      ≡ returned (start (number id) session size)
unfolding lunpackrequest unpackmreq_number fill_uint32
lunpackrequest-number_start id session size a b c =
    let first = unpack_uint32-fill_uint32 id (fill_uint32 session ++ fill_uint32 size) a in
    let second = unpack_uint32-fill_uint32 session (fill_uint32 size) b in
    let third = unpack_uint32-fill_uint32 size [] c in
    rw (lunpackrequest, unpackmreq_number, first, second, third) refl

-- What stands behind the name of a packet.
behind_name :
    (kind len k : ℕ) (name rest : List ℕ)
    → drop (length name + (2 + k)) (kind ∷ len ∷ (name ++ rest)) ≡ drop k rest
behind_name kind len k name rest =
    ap (λ n. drop n (kind ∷ len ∷ (name ++ rest)))
      (let e : length name + (2 + k) ≡ suc (suc (length name + k)) = omega arith in e)
    ∙ drop-append_ge (length name + k) name rest (omega arith)
    ∙ ap (λ n. drop n rest) (omega arith)

pub length-name_body :
    (kind session : ℕ) (name rest : List ℕ)
    → length (name_body kind name session rest) ≡ length name + length rest + 6
unfolding fill_uint32
length-name_body kind session name rest =
    omega (arith, length-append name (fill_uint32 session ++ rest))

pub lunpackrequest-name :
    (name : List ℕ) (session : ℕ) (msg : List ℕ)
    → length name < 2 ^ 8
    → session < 2 ^ 32
    → lunpackrequest (name_body 128 name session msg) ≡ returned (whole (string name) session msg)
unfolding lunpackrequest unpackreq_string byte_at fill_uint32
lunpackrequest-name name session msg a b =
    let len = length-name_body 128 session name msg in
    let size : length name % 2 ^ 8 ≡ length name = omega arith in
    let few : ltb (length (name_body 128 name session msg)) 2 ≡ false = ground arith in
    let fewer : ltb (length (name_body 128 name session msg)) (length name + 6) ≡ false =
      ground arith in
    let front = take_front name (fill_uint32 session ++ msg) in
    let at = behind_name 128 (length name) 0 name (fill_uint32 session ++ msg) in
    let rest = behind_name 128 (length name) 4 name (fill_uint32 session ++ msg) in
    let second = unpack_uint32-fill_uint32 session msg b in
    rw (lunpackrequest, unpackreq_string, byte_at, few, size, fewer, front, at, second, rest) refl

pub lunpackrequest-name_start :
    (name : List ℕ) (session size : ℕ)
    → length name < 2 ^ 8
    → session < 2 ^ 32
    → size < 2 ^ 32
    → lunpackrequest (name_body 129 name session (fill_uint32 size))
      ≡ returned (start (string name) session size)
unfolding lunpackrequest unpackmreq_string byte_at fill_uint32
lunpackrequest-name_start name session size a b c =
    let len = length-name_body 129 session name (fill_uint32 size) in
    let small : length name % 2 ^ 8 ≡ length name = omega arith in
    let few : ltb (length (name_body 129 name session (fill_uint32 size))) 2 ≡ false =
      ground arith in
    let fewer : ltb (length (name_body 129 name session (fill_uint32 size))) (length name + 10)
        ≡ false =
      ground arith in
    let front = take_front name (fill_uint32 session ++ fill_uint32 size) in
    let at = behind_name 129 (length name) 0 name (fill_uint32 session ++ fill_uint32 size) in
    let behind = behind_name 129 (length name) 4 name (fill_uint32 session ++ fill_uint32 size) in
    let second = unpack_uint32-fill_uint32 session (fill_uint32 size) b in
    let third = unpack_uint32-fill_uint32 size [] c in
    rw
      (
        lunpackrequest, unpackmreq_string, byte_at, few, small, fewer, front, at, second, behind,
        third,
      )
      refl

pub lunpackrequest-part :
    (kind session : ℕ) (msg : List ℕ)
    → (kind ≡ 2) ⊎ (kind ≡ 3)
    → session < 2 ^ 32
    → lunpackrequest (kind ∷ (fill_uint32 session ++ msg)) ≡ returned (part session msg (kind == 2))
unfolding lunpackrequest unpackmreq_part byte_at fill_uint32
lunpackrequest-part kind session msg k b =
    let few : ltb (length (kind ∷ (fill_uint32 session ++ msg))) 5 ≡ false = ground arith in
    let second = unpack_uint32-fill_uint32 session msg b in
    elim k [
      | inl e ↦ rw (e, lunpackrequest, unpackmreq_part, byte_at, few, second) refl
      | inr e ↦ rw (e, lunpackrequest, unpackmreq_part, byte_at, few, second) refl
    ]
