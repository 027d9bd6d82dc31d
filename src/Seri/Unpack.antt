-- ===== src/Seri/Unpack.antt =====
-- The unpacker: `unpack_one` and the functions below it, and `luaseri_unpack`.
pub mod Scalars
pub mod Values
pub mod Tables
pub mod Whole
pub mod Total
use game_server.Common.{
  ℕ, zero, suc, ◌+◌, ◌-◌, ◌*◌, ◌/◌, ◌%◌, ◌^◌, Bool, true, false, Option, none, some, List, [], ◌∷◌,
  length, take, drop, ltb, leb, ◌==◌, if◌then◌else◌,
}
use game_server.Seri.{
  Value, nil, boolean, integer, real, pointer, string, table, Items, no_items, item, Pairs,
  no_pairs, pair, type_nil, type_boolean, type_number, type_userdata, type_short_string,
  type_long_string, type_table, number_real, max_cookie, le_value,
}

-- `invalid` is the error of `invalid_stream`, `too_big` that of Lua on a string whose length is a
-- negative `int`; `stuck` is a run that is not over.
pub data Result (A : Type 0) : Type 0 where
  ok : A → Result A
  invalid too_big stuck : Result A

-- A reader takes the bytes from `ptr` on, and leaves the rest.
abbrev pub Reader : Type 0 → Type 0
Reader A = List ℕ → Result (A × List ℕ)

module _ {A B : Type 0} where
  abbrev pub and_then : Result (A × List ℕ) → (A → Reader B) → Result (B × List ℕ)
  and_then (ok (a, bytes)) f = f a bytes
  and_then invalid f = invalid
  and_then too_big f = too_big
  and_then stuck f = stuck

-- `rb_read` of a size that is a positive `int`, and the error of its callers
pub rb_read : ℕ → Reader (List ℕ)
rb_read sz bytes = if ltb (length bytes) sz then invalid else ok (take sz bytes, drop sz bytes)

-- an `int32_t` as a 64-bit pattern
abbrev pub sign_extend : ℕ → ℕ
sign_extend n = if ltb n (2 ^ 31) then n else n + (2 ^ 64 - 2 ^ 32)

-- `get_integer`
pub get_integer : ℕ → Reader ℕ
get_integer cookie bytes =
    if cookie == 0
    then ok (0, bytes)
    else if cookie == 1
    then and_then (rb_read 1 bytes) (λ n r. ok (le_value n, r))
    else if cookie == 2
    then and_then (rb_read 2 bytes) (λ n r. ok (le_value n, r))
    else if cookie == 4
    then and_then (rb_read 4 bytes) (λ n r. ok (sign_extend (le_value n), r))
    else if cookie == 6
    then and_then (rb_read 8 bytes) (λ n r. ok (le_value n, r))
    else invalid

-- `get_buffer`: a length from 2^31 on is a negative `int`, for which `rb_read` finds enough bytes.
pub get_buffer : ℕ → Reader Value
get_buffer len bytes =
    if ltb len (2 ^ 31) then and_then (rb_read len bytes) (λ s r. ok (string s, r)) else too_big

-- the `TYPE_LONG_STRING` of `push_value`
pub get_long_string : ℕ → Reader Value
get_long_string cookie bytes =
    if cookie == 2
    then and_then (rb_read 2 bytes) (λ n r. get_buffer (le_value n) r)
    else if cookie == 4
    then and_then (rb_read 4 bytes) (λ n r. get_buffer (le_value n) r)
    else invalid

-- `push_value`; `tables` is `unpack_table`.
pub push_value : (ℕ → Reader Value) → ℕ → ℕ → Reader Value
push_value tables type cookie bytes =
    if type == type_nil
    then ok (nil, bytes)
    else if type == type_boolean
    then ok (boolean (if cookie == 0 then false else true), bytes)
    else if type == type_number
    then (if cookie == number_real
        then and_then (rb_read 8 bytes) (λ n r. ok (real (le_value n), r))
        else and_then (get_integer cookie bytes) (λ n r. ok (integer n, r)))
    else if type == type_userdata
    then and_then (rb_read 8 bytes) (λ n r. ok (pointer (le_value n), r))
    else if type == type_short_string
    then get_buffer cookie bytes
    else if type == type_long_string
    then get_long_string cookie bytes
    else if type == type_table
    then tables cookie bytes
    else invalid

-- The first loop of `unpack_table`; `one` is `unpack_one`.
pub unpack_items : Reader Value → ℕ → Reader Items
unpack_items one zero bytes = ok (no_items, bytes)
unpack_items one (suc n) bytes =
    and_then (one bytes) (λ v r. and_then (unpack_items one n r) (λ vs r'. ok (item v vs, r')))

abbrev pub is_nil : Value → Bool
is_nil nil = true
is_nil _ = false

-- Its second loop, on fuel: pairs up to a key `nil`, in the order in which they are set.
pub unpack_pairs : ℕ → Reader Value → Reader Pairs
unpack_pairs zero one bytes = stuck
unpack_pairs (suc fuel) one bytes = and_then (one bytes) (λ k r.
    let rest : Result (Pairs × List ℕ) =
      and_then (one r)
        (λ v r'. and_then (unpack_pairs fuel one r') (λ ps r''. ok (pair k v ps, r''))) in
    if is_nil k then ok (no_pairs, r) else rest)

-- The size of the array part: in the cookie, or a number behind it, kept as an `int`.
pub get_array_size : ℕ → Reader ℕ
get_array_size cookie bytes =
    if cookie == max_cookie - 1
    then and_then (rb_read 1 bytes) (λ t r.
      let type = le_value t % 8 in
      let width = le_value t / 8 in
      if type == type_number
      then (if width == number_real
          then invalid
          else and_then (get_integer width r) (λ n r'. ok (n % 2 ^ 32, r')))
      else invalid)
    else ok (cookie, bytes)

-- the rounds of `for (i=1;i<=array_size;i++)`
abbrev pub rounds : ℕ → ℕ
rounds array_size = if ltb array_size (2 ^ 31) then array_size else 0

-- `unpack_table`
pub unpack_table : Reader Value → ℕ → Reader Value
unpack_table one cookie bytes = and_then (get_array_size cookie bytes) (λ n r.
    and_then (unpack_items one (rounds n) r)
      (λ vs r'. and_then (unpack_pairs (suc (length r')) one r') (λ ps r''. ok (table vs ps, r''))))

-- `unpack_one`, with the depth of nesting for fuel
pub unpack_one : ℕ → Reader Value
unpack_one zero bytes = stuck
unpack_one (suc fuel) bytes =
    and_then (rb_read 1 bytes)
      (λ t r. push_value (unpack_table (unpack_one fuel)) (le_value t % 8) (le_value t / 8) r)

-- a value, and those that the loop gives for the rest of the buffer
abbrev pub also : Value → Result (List Value) → Result (List Value)
also v (ok vs) = ok (v ∷ vs)
also v invalid = invalid
also v too_big = too_big
also v stuck = stuck

abbrev pub collect : Result (Value × List ℕ) → (List ℕ → Result (List Value)) → Result (List Value)
collect (ok (v, r)) rest = also v (rest r)
collect invalid rest = invalid
collect too_big rest = too_big
collect stuck rest = stuck

-- The loop of `luaseri_unpack`, on fuel; it ends at the end of the buffer. A nest of tables is no
-- deeper than the bytes are many, nor than the 33 levels of what was packed.
pub unpack_all : ℕ → List ℕ → Result (List Value)
unpack_all zero bytes = stuck
unpack_all (suc fuel) [] = ok []
unpack_all (suc fuel) (b ∷ bytes) =
    let levels = length bytes + 33 in
    collect (push_value (unpack_table (unpack_one levels)) (b % 8) (b / 8) bytes) (unpack_all fuel)

-- `luaseri_unpack`
pub luaseri_unpack : List ℕ → Result (List Value)
luaseri_unpack bytes = unpack_all (suc (length bytes)) bytes
