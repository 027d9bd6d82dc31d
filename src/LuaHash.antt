-- ===== src/LuaHash.antt =====
-- lualib-src/lua-hash.c: the hash of a Lua table by its contents. Numbers are 64-bit patterns, the
-- hashes 32-bit patterns, and an error of `luaL_error` is `none`. The loop over a table is over the
-- list of its pairs, in the order in which `lua_next` or `__pairs` gives them.
pub mod Order
use Prim.Native.Nat.{bit_xor}
use game_server.Common.{
  ℕ, zero, suc, ◌+◌, ◌-◌, ◌*◌, ◌/◌, ◌%◌, ◌^◌, Bool, true, false, Option, none, some, List, [], ◌∷◌,
  ltb, ◌==◌, if◌then◌else◌,
}

-- A Lua value, as far as the hash looks at it; `other` is a value of any other type.
mutual
  pub data Value : Type 0 where
    integer : ℕ → Value
    float : ℕ → Value
    boolean : Bool → Value
    string : List ℕ → Value
    table : Pairs → Value
    other : Value

  pub data Pairs : Type 0 where
    done : Pairs
    pair : Value → Value → Pairs → Pairs

abbrev pub max_depth : ℕ
max_depth = 16

abbrev pub int32 : ℕ → ℕ
int32 n = n % 2 ^ 32

-- `(int)(value ^ (value >> 32))`
pub fold64 : ℕ → ℕ
fold64 value = int32 (bit_xor value (value / 2 ^ 32))

-- `v == (int32_t)v` on a 64-bit pattern.
pub fits_int32 : ℕ → Bool
fits_int32 v = if ltb v (2 ^ 31) then true else ltb (2 ^ 64 - 2 ^ 31 - 1) v

-- `_hash_number`: an integer, and the bits of a double.
pub hash_integer : ℕ → ℕ
hash_integer v = if fits_int32 v then int32 v else fold64 v

-- `_hash_boolean`
pub hash_boolean : Bool → ℕ
hash_boolean v = if v then 1231 else 1237

-- `_hash_string`; a `char` of 128 and more is negative.
pub hash_string : ℕ → List ℕ → ℕ
hash_string h [] = h
hash_string h (c ∷ cs) =
    hash_string (int32 (31 * h + (if ltb c 128 then c else 2 ^ 32 + c - 256))) cs

-- One more pair: `h += (kh ^ vh)`, if neither hash is an error and none was before.
pub add_pair : Option ℕ → Option ℕ → Option ℕ → Option ℕ
add_pair (some h) (some kh) (some vh) = some (int32 (h + bit_xor kh vh))
add_pair (some h) (some kh) none = none
add_pair (some h) none vh = none
add_pair none kh vh = none

-- `h * depth`, the end of `_hash_table`.
pub scale : ℕ → Option ℕ → Option ℕ
scale depth none = none
scale depth (some h) = some (int32 (h * depth))

-- `_hash_one` and the loop of `_hash_table`, which takes the hashes of a table's pairs at its depth
-- and adds them to `h`.
mutual
  pub hash_one : Value → ℕ → Option ℕ
  hash_one (integer v) depth = if ltb max_depth depth then none else some (hash_integer v)
  hash_one (float bits) depth = if ltb max_depth depth then none else some (fold64 bits)
  hash_one (boolean b) depth = if ltb max_depth depth then none else some (hash_boolean b)
  hash_one (string s) depth = if ltb max_depth depth then none else some (hash_string 0 s)
  hash_one (table ps) depth =
      if ltb max_depth depth then none else scale (depth + 1) (hash_pairs ps (depth + 1) (some 0))
  hash_one other depth = none

  pub hash_pairs : Pairs → ℕ → Option ℕ → Option ℕ
  hash_pairs done depth h = h
  hash_pairs (pair k v ps) depth h =
      hash_pairs ps depth (add_pair h (hash_one k depth) (hash_one v depth))

-- `lhash_table`
pub hashcode : Value → Option ℕ
hashcode (table ps) = scale 1 (hash_pairs ps 1 (some 0))
hashcode v = none
