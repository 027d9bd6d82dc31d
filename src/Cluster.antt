-- ===== src/Cluster.antt =====
-- skynet-dist/lualib-src/lua-cluster.c: the packets in which two nodes of a cluster send each other
-- requests and responses.
pub mod Packet
pub mod Joined
pub mod Request
pub mod Response
pub mod Large
use game_server.Common.{
  ℕ, zero, suc, ◌+◌, ◌-◌, ◌*◌, ◌/◌, ◌%◌, ◌^◌, Bool, true, false, Option, none, some, List, [], ◌∷◌,
  ◌++◌, length, take, drop, ltb, leb, ◌==◌, if◌then◌else◌,
}
use game_server.NetPack.{write_size}

abbrev pub temp_length : ℕ
temp_length = 33280

abbrev pub multi_part : ℕ
multi_part = 32768

-- A call from Lua returns or raises an error. `faulted` is a failed assertion, an access outside of
-- a buffer, or an allocation of a negative size.
pub data Result (A : Type 0) : Type 0 where
  returned : A → Result A
  raised : Result A
  faulted : Result A

abbrev pub bind : {A B : Type 0} → Result A → (A → Result B) → Result B
bind (returned a) f = f a
bind raised f = raised
bind faulted f = faulted

-- The Lua values that a packet carries or is built from; a string has its bytes.
pub data Value : Type 0 where
  number : ℕ → Value
  string : List ℕ → Value
  boolean : Bool → Value

-- `fill_uint32`
pub fill_uint32 : ℕ → List ℕ
fill_uint32 n = (n % 2 ^ 8) ∷ (n / 2 ^ 8 % 2 ^ 8) ∷ (n / 2 ^ 16 % 2 ^ 8) ∷ (n / 2 ^ 24 % 2 ^ 8) ∷ []

-- `fill_header`
pub fill_header : ℕ → Result (List ℕ)
fill_header sz = if ltb sz (2 ^ 16) then returned (write_size sz) else faulted

-- A packet is built in `uint8_t buf[TEMP_LENGTH]` and pushed from there: the size of the header, and
-- the bytes behind the header.
pub push_packet : ℕ → List ℕ → Result (List ℕ)
push_packet sz body = bind (fill_header sz) (λ header.
    if ltb temp_length (length header + length body) then faulted else returned (header ++ body))

-- `unpack_uint32` of the four bytes in front
pub unpack_uint32 : List ℕ → Result ℕ
unpack_uint32 (a ∷ b ∷ c ∷ d ∷ rest) = returned (a + b * 2 ^ 8 + c * 2 ^ 16 + d * 2 ^ 24)
unpack_uint32 buf = faulted

-- The number of parts of a large message, and the size of the next one.
abbrev pub part_count : ℕ → ℕ
part_count sz = (sz - 1) / multi_part + 1

abbrev pub part_size : ℕ → ℕ
part_size sz = if ltb multi_part sz then multi_part else sz

-- the `while` loop of `lconcat`: the size, what has been copied, and the strings that follow
pub concat_strings : ℕ → List ℕ → List Value → Option (List ℕ)
concat_strings sz buff [] = if length buff == sz then some buff else none
concat_strings sz buff (string str ∷ rest) =
    let copied = concat_strings sz (buff ++ str) rest in
    if ltb sz (length str + length buff) then none else copied
concat_strings sz buff (number n ∷ rest) = if length buff == sz then some buff else none
concat_strings sz buff (boolean b ∷ rest) = if length buff == sz then some buff else none

-- `lconcat` of a table that holds these values from index 1 on; `sz` is an `int`.
pub lconcat : List Value → Result (Option (List ℕ))
lconcat [] = returned none
lconcat (number n ∷ rest) =
    if leb (2 ^ 31) (n % 2 ^ 32) then faulted else returned (concat_strings (n % 2 ^ 32) [] rest)
lconcat (string str ∷ rest) = returned none
lconcat (boolean b ∷ rest) = returned none
