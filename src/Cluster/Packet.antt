-- ===== src/Cluster/Packet.antt =====
-- Numbers and packets are read as they were written.
use game_server.Common.{
  ℕ, ◌+◌, ◌*◌, ◌/◌, ◌%◌, ◌^◌, ◌<◌, ◌≤◌, ◌≡◌, refl, ap, ◌-◌, ltb, true, false, List, [], ◌∷◌, ◌++◌,
  length, arith,
}
use game_server.NetPack.{write_size}
use game_server.NetPack.Split.{frame}
use game_server.Cluster.{
  temp_length, returned, fill_uint32, fill_header, push_packet, unpack_uint32,
}

pub unpack_uint32-fill_uint32 :
    (n : ℕ) (rest : List ℕ) → n < 2 ^ 32 → unpack_uint32 (fill_uint32 n ++ rest) ≡ returned n
unfolding unpack_uint32 fill_uint32
unpack_uint32-fill_uint32 n rest lt =
    let one : n ≡ n / 2 ^ 8 * 2 ^ 8 + n % 2 ^ 8 = omega arith in
    let two : n / 2 ^ 8 ≡ n / 2 ^ 16 * 2 ^ 8 + n / 2 ^ 8 % 2 ^ 8 = omega arith in
    let three : n / 2 ^ 16 ≡ n / 2 ^ 24 * 2 ^ 8 + n / 2 ^ 16 % 2 ^ 8 = omega arith in
    let four : n / 2 ^ 24 % 2 ^ 8 ≡ n / 2 ^ 24 = omega arith in ap returned (omega arith)

pub length-fill_uint32 : (n : ℕ) → length (fill_uint32 n) ≡ 4
unfolding fill_uint32
length-fill_uint32 n = refl

-- Four bytes are a number.
pub unpack_uint32_total :
    (buf : List ℕ) → 4 ≤ length buf → (n : ℕ) × (unpack_uint32 buf ≡ returned n)
unfolding unpack_uint32
unpack_uint32_total [] h = absurd (omega arith)
unpack_uint32_total (a ∷ []) h = absurd (omega arith)
unpack_uint32_total (a ∷ b ∷ []) h = absurd (omega arith)
unpack_uint32_total (a ∷ b ∷ c ∷ []) h = absurd (omega arith)
unpack_uint32_total (a ∷ b ∷ c ∷ d ∷ rest) h = (a + b * 2 ^ 8 + c * 2 ^ 16 + d * 2 ^ 24, refl)

-- A packet that fits in the buffer, and whose header is right, is the framed body.
pub push_packet-frame :
    (sz : ℕ) (body : List ℕ)
    → length body ≡ sz
    → sz < temp_length - 1
    → push_packet sz body ≡ returned (frame body)
unfolding push_packet fill_header
push_packet-frame sz body e lt =
    let small : ltb sz (2 ^ 16) ≡ true = ground arith in
    let fits : ltb temp_length (2 + length body) ≡ false = ground arith in
    let named : frame body ≡ write_size sz ++ body = ap (λ k. write_size k ++ body) e in
    rw (push_packet, fill_header, small, fits, named) refl
