-- ===== src/Seri/Pack.antt =====
-- The packer: `pack_one` and the functions `wb_…` below it, and `luaseri_pack`.
pub mod Written
pub mod Whole
pub mod Refuses
use game_server.Common.{
  ℕ, zero, suc, ◌+◌, ◌-◌, ◌*◌, ◌/◌, ◌%◌, ◌^◌, Bool, true, false, Option, none, some, List, [], ◌∷◌,
  ◌++◌, length, ltb, leb, ◌==◌, if◌then◌else◌,
}
use game_server.Seri.{
  Value, nil, boolean, integer, real, pointer, string, table, paired, other, Items, no_items, item,
  Pairs, no_pairs, pair, count, type_nil, type_boolean, type_number, type_userdata,
  type_short_string, type_long_string, type_table, number_real, max_cookie, combine_type, le_bytes,
}
use game_server.Seri.Blocks.{WriteBlock, wb_init, wb_push, seri}

abbrev pub max_depth : ℕ
max_depth = 32

-- `wb_nil`
pub wb_nil : WriteBlock → WriteBlock
wb_nil b = wb_push (type_nil ∷ []) b

-- `wb_boolean`
pub wb_boolean : Bool → WriteBlock → WriteBlock
wb_boolean v b = wb_push (combine_type type_boolean (if v then 1 else 0) ∷ []) b

-- `v != (int32_t)v` and `v < 0` on a 64-bit pattern
abbrev pub is_wide : ℕ → Bool
is_wide v = if leb (2 ^ 31) v then ltb v (2 ^ 64 - 2 ^ 31) else false

abbrev pub is_negative : ℕ → Bool
is_negative v = leb (2 ^ 63) v

-- `wb_integer`; the tag's high bits are the width.
pub wb_integer : ℕ → WriteBlock → WriteBlock
wb_integer v b =
    if v == 0
    then wb_push (combine_type type_number 0 ∷ []) b
    else if is_wide v
    then wb_push (le_bytes 8 v) (wb_push (combine_type type_number 6 ∷ []) b)
    else if is_negative v
    then wb_push (le_bytes 4 (v % 2 ^ 32)) (wb_push (combine_type type_number 4 ∷ []) b)
    else if ltb v 0x100
    then wb_push (le_bytes 1 v) (wb_push (combine_type type_number 1 ∷ []) b)
    else if ltb v 0x10000
    then wb_push (le_bytes 2 v) (wb_push (combine_type type_number 2 ∷ []) b)
    else wb_push (le_bytes 4 (v % 2 ^ 32)) (wb_push (combine_type type_number 4 ∷ []) b)

-- `wb_real`
pub wb_real : ℕ → WriteBlock → WriteBlock
wb_real v b = wb_push (le_bytes 8 v) (wb_push (combine_type type_number number_real ∷ []) b)

-- `wb_pointer`
pub wb_pointer : ℕ → WriteBlock → WriteBlock
wb_pointer v b = wb_push (le_bytes 8 v) (wb_push (type_userdata ∷ []) b)

-- `wb_string`, for a length that is a positive `int`
pub wb_string : List ℕ → WriteBlock → WriteBlock
wb_string str b =
    let len = length str in
    let tagged = wb_push (combine_type type_short_string len ∷ []) b in
    if ltb len max_cookie
    then (if ltb 0 len then wb_push str tagged else tagged)
    else if ltb len 0x10000
    then wb_push str (wb_push (le_bytes 2 len) (wb_push (combine_type type_long_string 2 ∷ []) b))
    else wb_push str (wb_push (le_bytes 4 len) (wb_push (combine_type type_long_string 4 ∷ []) b))

-- The head that `wb_table_array` writes.
pub wb_array_size : ℕ → WriteBlock → WriteBlock
wb_array_size array_size b =
    if leb (max_cookie - 1) array_size
    then wb_integer array_size (wb_push (combine_type type_table (max_cookie - 1) ∷ []) b)
    else wb_push (combine_type type_table array_size ∷ []) b

-- The pairs that `wb_table_hash` passes over: an integer key from 1 to `array_size`.
unfoldable pub is_item_key : ℕ → Value → Bool
is_item_key array_size (integer x) =
    if is_negative x then false else if ltb 0 x then leb x array_size else false
is_item_key array_size _ = false

-- the error at the start of `pack_one`
abbrev pub guarded : ℕ → Option WriteBlock → Option WriteBlock
guarded depth r = if ltb max_depth depth then none else r

mutual
  -- `pack_one` and `wb_table`; `none` is an error.
  pub pack_one : ℕ → Value → WriteBlock → Option WriteBlock
  pack_one depth nil b = guarded depth (some (wb_nil b))
  pack_one depth (boolean v) b = guarded depth (some (wb_boolean v b))
  pack_one depth (integer v) b = guarded depth (some (wb_integer v b))
  pack_one depth (real v) b = guarded depth (some (wb_real v b))
  pack_one depth (pointer v) b = guarded depth (some (wb_pointer v b))
  pack_one depth (string str) b = guarded depth (some (wb_string str b))
  pack_one depth (table vs ps) b =
      let array = pack_items (suc depth) vs (wb_array_size (count vs) b) in
      guarded depth (elim array [ none ↦ none | some b' ↦ pack_pairs (suc depth) (count vs) ps b' ])
  pack_one depth (paired ps) b =
      guarded depth (pack_pairs (suc depth) 0 ps (wb_push (combine_type type_table 0 ∷ []) b))
  pack_one depth other b = none

  -- the loop of `wb_table_array`
  pub pack_items : ℕ → Items → WriteBlock → Option WriteBlock
  pack_items depth no_items b = some b
  pack_items depth (item v vs) b = elim (pack_one depth v b) [
    | none ↦ none
    | some b' ↦ pack_items depth vs b'
  ]

  -- `wb_table_hash`, and with no items `wb_table_metapairs`
  pub pack_pairs : ℕ → ℕ → Pairs → WriteBlock → Option WriteBlock
  pack_pairs depth array_size no_pairs b = some (wb_nil b)
  pack_pairs depth array_size (pair k v ps) b =
      let skipped = pack_pairs depth array_size ps b in
      let packed : Option WriteBlock = elim (pack_one depth k b) [
        | none ↦ none
        | some b1 ↦ elim (pack_one depth v b1) [
          | none ↦ none
          | some b2 ↦ pack_pairs depth array_size ps b2
        ]
      ] in
      if is_item_key array_size k then skipped else packed

-- `pack_from`
pub pack_from : List Value → WriteBlock → Option WriteBlock
pack_from [] b = some b
pack_from (v ∷ vs) b = elim (pack_one 0 v b) [ none ↦ none | some b' ↦ pack_from vs b' ]

-- `luaseri_pack`: the bytes of all arguments.
pub luaseri_pack : List Value → Option (List ℕ)
luaseri_pack vs = elim (pack_from vs wb_init) [
  | none ↦ none
  | some b ↦ seri (b.blocks ++ (b.current ∷ [])) b.len
]
