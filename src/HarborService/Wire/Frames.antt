-- ===== src/HarborService/Wire/Frames.antt =====
-- A header is read as it was written.
use game_server.Common.{
  ℕ, ◌+◌, ◌*◌, ◌/◌, ◌%◌, ◌^◌, ◌<◌, ◌≡◌, ◌≢◌, refl, ltb, ◌-◌, false, some, none, ◌==◌, ltb, ◌-◌, ap,
  List, [], ◌∷◌, ◌++◌, length, arith,
}
use game_server.HarborService.{
  RemoteHeader, HarborMsg, HarborMsgQueue, Slave, Action, socket_send, drain_queue,
}
use game_server.HarborService.Wire.{
  to_bigendian, header_to_message, from_bigendian, message_to_header, send_remote, send_all,
  dispatch_queue,
}

-- The fields of a header are 32-bit numbers.
pub record IsHeader (h : RemoteHeader) : Type 0 where
  pub source_in : h.source < 2 ^ 32
  pub destination_in : h.destination < 2 ^ 32
  pub session_in : h.session < 2 ^ 32

pub from_bigendian-to_bigendian :
    (n : ℕ) (rest : List ℕ) → n < 2 ^ 32 → from_bigendian (to_bigendian n ++ rest) ≡ n
unfolding from_bigendian to_bigendian
from_bigendian-to_bigendian n rest lt =
    let one : n ≡ n / 2 ^ 8 * 2 ^ 8 + n % 256 = omega arith in
    let two : n / 2 ^ 8 ≡ n / 2 ^ 16 * 2 ^ 8 + n / 2 ^ 8 % 256 = omega arith in
    let three : n / 2 ^ 16 ≡ n / 2 ^ 24 * 2 ^ 8 + n / 2 ^ 16 % 256 = omega arith in
    let four : n / 2 ^ 24 % 256 ≡ n / 2 ^ 24 = omega arith in omega arith

pub length-to_bigendian : (n : ℕ) → length (to_bigendian n) ≡ 4
unfolding to_bigendian
length-to_bigendian n = refl

-- A length below 2^24 has 0 as its first byte.
pub to_bigendian_short :
    (len : ℕ)
    → len < 2 ^ 24
    → (b c d : ℕ) × (to_bigendian len ≡ 0 ∷ b ∷ c ∷ d ∷ []) × (b * 2 ^ 16 + c * 2 ^ 8 + d ≡ len)
unfolding to_bigendian
to_bigendian_short len lt =
    let first : len / 2 ^ 24 % 256 ≡ 0 = omega arith in
    let one : len ≡ len / 2 ^ 8 * 2 ^ 8 + len % 256 = omega arith in
    let two : len / 2 ^ 8 ≡ len / 2 ^ 16 * 2 ^ 8 + len / 2 ^ 8 % 256 = omega arith in
    (
      len / 2 ^ 16 % 256,
      len / 2 ^ 8 % 256,
      len % 256,
      ap (λ a. a ∷ (len / 2 ^ 16 % 256) ∷ (len / 2 ^ 8 % 256) ∷ (len % 256) ∷ []) first,
      omega arith,
    )

pub length-header_to_message : (h : RemoteHeader) → length (header_to_message h) ≡ 12
unfolding header_to_message to_bigendian
length-header_to_message h = refl

-- `message_to_header` of the bytes that `header_to_message` writes is the header.
pub message_to_header-header_to_message :
    (h : RemoteHeader) → IsHeader h → message_to_header (header_to_message h) ≡ h
unfolding message_to_header header_to_message to_bigendian
message_to_header-header_to_message h v =
    let source =
      from_bigendian-to_bigendian h.source (to_bigendian h.destination ++ to_bigendian h.session)
        v.source_in in
    let destination =
      from_bigendian-to_bigendian h.destination (to_bigendian h.session) v.destination_in in
    let session = from_bigendian-to_bigendian h.session [] v.session_in in
    λ i. record { source = source i; destination = destination i; session = session i }

-- `dispatch_queue` of a slave with a queue whose messages are known.
pub dispatch_queue-some :
    (s : Slave) (q : HarborMsgQueue) {ms : List HarborMsg}
    → s.fd ≢ 0
    → s.queue ≡ some q
    → drain_queue q ≡ some ms
    → dispatch_queue s ≡ some (send_all s.fd ms, record s { queue = none })
unfolding dispatch_queue
dispatch_queue-some s q ne e run =
    let f : (s.fd == 0) ≡ false = ground (arith, ne) in rw (dispatch_queue, f, e, run) refl

pub dispatch_queue-fd :
    (s s' : Slave) (actions : List Action) → dispatch_queue s ≡ some (actions, s') → s'.fd ≡ s.fd
unfolding dispatch_queue
dispatch_queue-fd s s' actions e = ground arith

pub send_remote_short :
    (fd : ℕ) (buffer : List ℕ) (h : RemoteHeader)
    → length buffer + 12 < 2 ^ 32
    → send_remote fd buffer h
      ≡ socket_send fd (to_bigendian (length buffer + 12) ++ (buffer ++ header_to_message h)) ∷ []
unfolding send_remote
send_remote_short fd buffer h lt =
    let f : ltb (2 ^ 32 - 1) (length buffer + 12) ≡ false = ground arith in rw f refl
