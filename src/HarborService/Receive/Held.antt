-- ===== src/HarborService/Receive/Held.antt =====
-- The messages in the bytes from another node, and the bytes that wait for the rest of a message.
use game_server.Common.{
  ℕ, ◌+◌, ◌-◌, ◌^◌, ◌≤◌, ◌<◌, ◌≡◌, sym, ap, ◌∙◌, List, [], ◌∷◌, ◌++◌, length, take, drop,
  take-append_ge, drop-append_ge, take_front, drop_front, length-append,
}
use game_server.HarborService.{HarborMsg, Slave, header, content}
use game_server.HarborService.Wire.{to_bigendian, header_to_message, from_bigendian}
use game_server.HarborService.Wire.Frames.{
  IsHeader, from_bigendian-to_bigendian, length-header_to_message, length-to_bigendian,
}

-- A message that the other side can take: the first byte of its length is 0.
pub record IsMessage (m : HarborMsg) : Type 0 where
  pub header_in : IsHeader m.header
  pub short : length m.buffer + 12 < 2 ^ 24

abbrev pub payload : HarborMsg → List ℕ
payload m = m.buffer ++ header_to_message m.header

-- What `send_remote` puts on the wire for a message.
abbrev pub frame : HarborMsg → List ℕ
frame m = to_bigendian (length m.buffer + 12) ++ payload m

abbrev pub frames : List HarborMsg → List ℕ
frames [] = []
frames (m ∷ ms) = frame m ++ frames ms

pub length-payload : (m : HarborMsg) → length (payload m) ≡ length m.buffer + 12
length-payload m =
    length-append m.buffer (header_to_message m.header)
    ∙ ap (λ n. length m.buffer + n) (length-header_to_message m.header)

-- The beginning of a message.
pub data IsPart (text : List ℕ) : Type 0 where
  in_size : length text < 4 → IsPart text
  in_payload :
      (len : ℕ) (got : List ℕ)
      → len < 2 ^ 24
      → length got < len
      → text ≡ to_bigendian len ++ got
      → IsPart text

-- The slave has taken `text`, the beginning of a message.
pub data Holds (text : List ℕ) (s : Slave) : Type 0 where
  at_header : s.status ≡ header → s.received ≡ text → length text < 4 → Holds text s
  at_content :
      s.status ≡ content
      → s.length < 2 ^ 24
      → length s.received < s.length
      → text ≡ to_bigendian s.length ++ s.received
      → Holds text s

-- Two lists that make the same list as two others, cut where the third ends.
pub cut_at :
    (text bytes xs ys : List ℕ)
    → text ++ bytes ≡ xs ++ ys
    → length text ≤ length xs
    → (text ++ take (length xs - length text) bytes ≡ xs)
      × (drop (length xs - length text) bytes ≡ ys)
      × (length text + length bytes ≡ length xs + length ys)
cut_at text bytes xs ys e le = (
  sym (take-append_ge (length xs) text bytes le) ∙ ap (take (length xs)) e ∙ take_front xs ys,
  sym (drop-append_ge (length xs) text bytes le) ∙ ap (drop (length xs)) e ∙ drop_front xs ys,
  sym (length-append text bytes) ∙ ap length e ∙ length-append xs ys,
)

-- The size and the rest are read off the list.
pub to_bigendian_cancel :
    (a b : ℕ) (xs ys : List ℕ)
    → a < 2 ^ 32
    → b < 2 ^ 32
    → to_bigendian a ++ xs ≡ to_bigendian b ++ ys
    → (a ≡ b) × (xs ≡ ys)
to_bigendian_cancel a b xs ys ha hb e = (
  sym (from_bigendian-to_bigendian a xs ha)
      ∙ ap from_bigendian e
      ∙ from_bigendian-to_bigendian b ys hb,
  sym (drop_front (to_bigendian a) xs)
      ∙ ap (λ n. drop n (to_bigendian a ++ xs)) (length-to_bigendian a)
      ∙ ap (drop 4) e
      ∙ ap (λ n. drop n (to_bigendian b ++ ys)) (sym (length-to_bigendian b))
      ∙ drop_front (to_bigendian b) ys,
)
