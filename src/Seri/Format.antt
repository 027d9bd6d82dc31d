-- ===== src/Seri/Format.antt =====
-- The format of a packed value, and what the receiver has of it: `received`.
use game_server.Common.{
  ℕ, suc, ◌-◌, ◌%◌, ◌^◌, ◌≤◌, ◌<◌, List, [], ◌∷◌, ◌++◌, length, All, ltb, leb, ◌==◌, if◌then◌else◌,
}
use game_server.Seri.{
  Value, nil, boolean, integer, real, pointer, string, table, paired, other, Items, no_items, item,
  Pairs, no_pairs, pair, count, type_nil, type_boolean, type_number, type_userdata,
  type_short_string, type_long_string, type_table, number_real, max_cookie, combine_type, le_bytes,
}
use game_server.Seri.Pack.{is_wide, is_negative, is_item_key, max_depth}

unfoldable pub encode_integer : ℕ → List ℕ
encode_integer v =
    if v == 0
    then combine_type type_number 0 ∷ []
    else if is_wide v
    then combine_type type_number 6 ∷ le_bytes 8 v
    else if is_negative v
    then combine_type type_number 4 ∷ le_bytes 4 (v % 2 ^ 32)
    else if ltb v 0x100
    then combine_type type_number 1 ∷ le_bytes 1 v
    else if ltb v 0x10000
    then combine_type type_number 2 ∷ le_bytes 2 v
    else combine_type type_number 4 ∷ le_bytes 4 (v % 2 ^ 32)

unfoldable pub encode_string : List ℕ → List ℕ
encode_string str =
    let len = length str in
    if ltb len max_cookie
    then combine_type type_short_string len ∷ str
    else if ltb len 0x10000
    then combine_type type_long_string 2 ∷ (le_bytes 2 len ++ str)
    else combine_type type_long_string 4 ∷ (le_bytes 4 len ++ str)

unfoldable pub encode_size : ℕ → List ℕ
unfolding encode_integer
encode_size n =
    if leb (max_cookie - 1) n
    then combine_type type_table (max_cookie - 1) ∷ encode_integer n
    else combine_type type_table n ∷ []

unfoldable mutual
  unfolding encode_integer encode_string encode_size is_item_key

  pub encode : Value → List ℕ
  encode nil = type_nil ∷ []
  encode (boolean v) = combine_type type_boolean (if v then 1 else 0) ∷ []
  encode (integer v) = encode_integer v
  encode (real v) = combine_type type_number number_real ∷ le_bytes 8 v
  encode (pointer v) = type_userdata ∷ le_bytes 8 v
  encode (string str) = encode_string str
  encode (table vs ps) = encode_size (count vs) ++ (encode_items vs ++ encode_pairs (count vs) ps)
  encode (paired ps) = encode_size 0 ++ encode_pairs 0 ps
  encode other = []

  pub encode_items : Items → List ℕ
  encode_items no_items = []
  encode_items (item v vs) = encode v ++ encode_items vs

  pub encode_pairs : ℕ → Pairs → List ℕ
  encode_pairs n no_pairs = type_nil ∷ []
  encode_pairs n (pair k v ps) =
      let rest = encode_pairs n ps in
      if is_item_key n k then rest else encode k ++ (encode v ++ rest)

-- What a receiver builds: the items, and the pairs that are not items, in the order of the sets.
unfoldable mutual
  unfolding is_item_key

  pub received : Value → Value
  received nil = nil
  received (boolean v) = boolean v
  received (integer v) = integer v
  received (real v) = real v
  received (pointer v) = pointer v
  received (string str) = string str
  received (table vs ps) = table (received_items vs) (received_pairs (count vs) ps)
  received (paired ps) = table no_items (received_pairs 0 ps)
  received other = other

  pub received_items : Items → Items
  received_items no_items = no_items
  received_items (item v vs) = item (received v) (received_items vs)

  pub received_pairs : ℕ → Pairs → Pairs
  received_pairs n no_pairs = no_pairs
  received_pairs n (pair k v ps) =
      let rest = received_pairs n ps in
      if is_item_key n k then rest else pair (received k) (received v) rest

-- A key of a table is not `nil`.
abbrev pub IsKey : Value → Type 0
IsKey nil = ⊥
IsKey _ = Unit

-- The values that can be packed at a depth: no more than 32 tables around one, nothing of another
-- type, and the ranges of C: 64 bits, and lengths that are an `int`.
abbrev mutual
  pub Packable : ℕ → Value → Type 0
  Packable d nil = d ≤ max_depth
  Packable d (boolean v) = d ≤ max_depth
  Packable d (integer v) = d ≤ max_depth × v < 2 ^ 64
  Packable d (real v) = d ≤ max_depth × v < 2 ^ 64
  Packable d (pointer v) = d ≤ max_depth × v < 2 ^ 64
  Packable d (string str) = d ≤ max_depth × length str < 2 ^ 31
  Packable d (table vs ps) =
      d ≤ max_depth × count vs < 2 ^ 31 × PackableItems (suc d) vs × PackablePairs (suc d) ps
  Packable d (paired ps) = d ≤ max_depth × PackablePairs (suc d) ps
  Packable d other = ⊥

  pub PackableItems : ℕ → Items → Type 0
  PackableItems d no_items = Unit
  PackableItems d (item v vs) = Packable d v × PackableItems d vs

  pub PackablePairs : ℕ → Pairs → Type 0
  PackablePairs d no_pairs = Unit
  PackablePairs d (pair k v ps) = IsKey k × Packable d k × Packable d v × PackablePairs d ps

abbrev pub encode_all : List Value → List ℕ
encode_all [] = []
encode_all (v ∷ vs) = encode v ++ encode_all vs

abbrev pub AllPackable : List Value → Type 0
AllPackable = All (Packable 0)
