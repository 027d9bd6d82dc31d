-- ===== src/Tests/Values.antt =====
-- Packed values on small inputs.
use game_server.Common.{
  length, ◌<◌, ◌^◌, ℕ, ◌-◌, ◌^◌, ◌≡◌, ◌≢◌, refl, inl, inr, none, true, some, List, [], ◌∷◌, map,
  arith,
}
use game_server.Seri.{other, Value, boolean, integer, string, table, item, no_items, pair, no_pairs}
use game_server.Seri.Pack.{luaseri_pack}
use game_server.Seri.Pack.Refuses.{luaseri_pack-none}
use game_server.Seri.Unpack.{ok, stuck, luaseri_unpack}
use game_server.Seri.Unpack.Total.{luaseri_unpack_total}
use game_server.Seri.Format.{
  encode, encode_all, encode_items, encode_pairs, encode_integer, encode_string, encode_size,
  received, AllPackable,
}
use game_server.Seri.RoundTrip.{luaseri_unpack-luaseri_pack}

-- `{-5, "hi", [true] = {}}`, and a number; `lua_next` gives the two items again.
abbrev sample : List Value
sample =
    table (item (integer (2 ^ 64 - 5)) (item (string (104 ∷ 105 ∷ [])) no_items)) (
      pair (integer 1) (integer (2 ^ 64 - 5)) (
        pair (integer 2) (string (104 ∷ 105 ∷ []))
          (pair (boolean true) (table no_items no_pairs) no_pairs)))
    ∷ integer 70000
    ∷ []

sample-AllPackable : AllPackable sample
sample-AllPackable = omega arith

sample_short : length (encode_all sample) < 2 ^ 31
unfolding encode encode_items encode_pairs encode_integer encode_string encode_size
sample_short = omega arith

sample-received :
    map received sample
    ≡ table
        (item (integer (2 ^ 64 - 5)) (item (string (104 ∷ 105 ∷ [])) no_items))
        (pair (boolean true) (table no_items no_pairs) no_pairs)
      ∷ integer 70000
      ∷ []
unfolding received
sample-received = refl

luaseri_unpack-luaseri_pack_example :
    (bytes : List ℕ) × (luaseri_pack sample ≡ some bytes)
    × (luaseri_unpack bytes ≡ ok (map received sample))
luaseri_unpack-luaseri_pack_example =
    luaseri_unpack-luaseri_pack sample sample-AllPackable sample_short

-- a table of 31 and more items whose size is missing
luaseri_unpack_total_example : luaseri_unpack (254 ∷ 2 ∷ 14 ∷ []) ≢ stuck
luaseri_unpack_total_example = luaseri_unpack_total (254 ∷ 2 ∷ 14 ∷ [])

-- a function among the items of a table
luaseri_pack-none_example :
    luaseri_pack (integer 1 ∷ table (item other no_items) no_pairs ∷ []) ≡ none
luaseri_pack-none_example =
    luaseri_pack-none (integer 1 ∷ table (item other no_items) no_pairs ∷ [])
      (inr (inl (inr (inl (inl tt)))))
