-- ===== src/HarborService/Wire.antt =====
-- How a message goes over the wire: four bytes of length, the message, and its header behind it.
pub mod Frames
use game_server.Common.{
  ℕ, ◌+◌, ◌-◌, ◌*◌, ◌/◌, ◌%◌, ◌^◌, Option, none, some, List, [], ◌∷◌, ◌++◌, length, take, drop, ltb,
  ◌==◌, if◌then◌else◌,
}
use game_server.HarborService.{
  RemoteHeader, HarborMsg, HarborMsgQueue, Action, socket_send, complain, Slave, drain_queue,
}

abbrev pub header_cookie_length : ℕ
header_cookie_length = 12

-- `to_bigendian`
pub to_bigendian : ℕ → List ℕ
to_bigendian n = (n / 2 ^ 24 % 256) ∷ (n / 2 ^ 16 % 256) ∷ (n / 2 ^ 8 % 256) ∷ (n % 256) ∷ []

-- `header_to_message`
pub header_to_message : RemoteHeader → List ℕ
header_to_message h =
    to_bigendian h.source ++ (to_bigendian h.destination ++ to_bigendian h.session)

-- `from_bigendian` of the four bytes in front
pub from_bigendian : List ℕ → ℕ
from_bigendian (a ∷ b ∷ c ∷ d ∷ rest) = a * 2 ^ 24 + b * 2 ^ 16 + c * 2 ^ 8 + d
from_bigendian bytes = 0

-- `message_to_header`
pub message_to_header : List ℕ → RemoteHeader
message_to_header message = record {
  source = from_bigendian message;
  destination = from_bigendian (drop 4 message);
  session = from_bigendian (drop 8 message);
}

-- `send_remote`; the size is below 2^64.
pub send_remote : ℕ → List ℕ → RemoteHeader → List Action
send_remote fd buffer cookie =
    let sz_header = length buffer + 12 in
    if ltb (2 ^ 32 - 1) sz_header
    then complain ∷ []
    else socket_send fd (to_bigendian sz_header ++ (buffer ++ header_to_message cookie)) ∷ []

-- The loop of `dispatch_queue`.
pub send_all : ℕ → List HarborMsg → List Action
send_all fd [] = []
send_all fd (m ∷ ms) = send_remote fd m.buffer m.header ++ send_all fd ms

-- `dispatch_queue`; `none` is the failed assertion.
pub dispatch_queue : Slave → Option (List Action × Slave)
dispatch_queue s = if s.fd == 0 then none else elim s.queue [
  | none ↦ some ([], s)
  | some q ↦ elim (drain_queue q) [
    | none ↦ none
    | some ms ↦ some (send_all s.fd ms, record s { queue = none })
  ]
]
