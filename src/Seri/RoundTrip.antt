-- ===== src/Seri/RoundTrip.antt =====
-- What `luaseri_pack` packed, `luaseri_unpack` reads.
use game_server.Common.{◌≡◌, some, List, map, length, ℕ, ◌<◌, ◌^◌}
use game_server.Seri.{Value}
use game_server.Seri.Pack.{luaseri_pack}
use game_server.Seri.Pack.Whole.{luaseri_pack-encode}
use game_server.Seri.Unpack.{ok, luaseri_unpack}
use game_server.Seri.Unpack.Whole.{luaseri_unpack-encode}
use game_server.Seri.Format.{encode_all, received, AllPackable}

-- For values within the limits of the packer, whose format takes less than 2^31 bytes in all,
-- `luaseri_pack` succeeds, and `luaseri_unpack` of its bytes gives the same values in the same order: equal scalars and strings, and tables with the same
-- items and the same other pairs, in the order in which the packer met them.
pub luaseri_unpack-luaseri_pack :
    (vs : List Value)
    → AllPackable vs
    → length (encode_all vs) < 2 ^ 31
    → (bytes : List ℕ) × (luaseri_pack vs ≡ some bytes)
      × (luaseri_unpack bytes ≡ ok (map received vs))
luaseri_unpack-luaseri_pack vs h lt =
    (encode_all vs, luaseri_pack-encode vs h lt, luaseri_unpack-encode vs h)
