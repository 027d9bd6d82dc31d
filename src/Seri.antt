-- ===== src/Seri.antt =====
-- skynet-dist/lualib-src/lua-seri.c: Lua values as bytes, and back. A value is what the Lua interface
-- shows of it. Numbers and pointers are 64-bit patterns; a C `int` that can be negative is its 32-bit
-- pattern; the machine is little-endian, as the servers are.
pub mod Blocks
pub mod Pack
pub mod Unpack
pub mod Format
pub mod RoundTrip
pub use game_server.Common.{le_bytes, le_value}
use game_server.Common.{ℕ, zero, suc, ◌+◌, ◌*◌, ◌/◌, ◌%◌, Bool, List, [], ◌∷◌}

mutual
  -- `other` is a value that cannot be packed, such as a function. A table has the items `1` to
  -- `lua_rawlen`, and the pairs in the order of `lua_next`, which gives the items too; `paired` is a
  -- table with a `__pairs` metamethod, and the pairs that it gives.
  pub data Value : Type 0 where
    nil : Value
    boolean : Bool → Value
    integer : ℕ → Value
    real : ℕ → Value
    pointer : ℕ → Value
    string : List ℕ → Value
    table : Items → Pairs → Value
    paired : Pairs → Value
    other : Value

  pub data Items : Type 0 where
    no_items : Items
    item : Value → Items → Items

  pub data Pairs : Type 0 where
    no_pairs : Pairs
    pair : Value → Value → Pairs → Pairs

abbrev pub count : Items → ℕ
count no_items = 0
count (item v vs) = suc (count vs)

abbrev pub type_nil : ℕ
type_nil = 0

abbrev pub type_boolean : ℕ
type_boolean = 1

abbrev pub type_number : ℕ
type_number = 2

abbrev pub type_userdata : ℕ
type_userdata = 3

abbrev pub type_short_string : ℕ
type_short_string = 4

abbrev pub type_long_string : ℕ
type_long_string = 5

abbrev pub type_table : ℕ
type_table = 6

abbrev pub number_real : ℕ
number_real = 8

abbrev pub max_cookie : ℕ
max_cookie = 32

-- `COMBINE_TYPE`, for a type below 8
abbrev pub combine_type : ℕ → ℕ → ℕ
combine_type t v = t + v * 8
