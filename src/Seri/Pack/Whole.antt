-- ===== src/Seri/Pack/Whole.antt =====
-- `luaseri_pack` as a whole: the arguments one behind another, copied out of the blocks.
use game_server.Common.{
  ◌<◌, ◌^◌, length, arith, ◌≡◌, refl, sym, ap, ◌∙◌, some, List, [], ◌∷◌, append-nil,
}
use game_server.Seri.{Value}
use game_server.Seri.Blocks.{WriteBlock, wb_init}
use game_server.Seri.Blocks.Chain.{IsChain, written, wb_init-IsChain, seri-written}
use game_server.Seri.Pack.{pack_from, luaseri_pack}
use game_server.Seri.Pack.Written.{Packed, Packed-Packed, pack_one-Packed}
use game_server.Seri.Format.{encode_all, AllPackable}

pack_from-Packed :
    (vs : List Value) (b : WriteBlock)
    → IsChain b
    → AllPackable vs
    → Packed (encode_all vs) b (pack_from vs b)
unfolding pack_from
pack_from-Packed [] b c h = record {
  after = b;
  returns = refl;
  pushed = record { chain = c; adds = sym (append-nil _) };
}
pack_from-Packed (v ∷ vs) b c h =
    Packed-Packed (pack_one-Packed 0 v b c h.0) (λ b' c'. pack_from-Packed vs b' c' h.1)

-- `luaseri_pack` of values that can be packed, in less than 2^31 bytes, succeeds, and its bytes are
-- their formats, one behind another, however many blocks they took.
pub luaseri_pack-encode :
    (vs : List Value)
    → AllPackable vs
    → length (encode_all vs) < 2 ^ 31
    → luaseri_pack vs ≡ some (encode_all vs)
unfolding luaseri_pack written wb_init
luaseri_pack-encode vs h lt =
    let p = pack_from-Packed vs wb_init wb_init-IsChain h in
    let short : length (written p.after) < 2 ^ 31 = omega (arith, ap length p.pushed.adds) in
    rw (luaseri_pack, p.returns) (seri-written p.after p.pushed.chain short ∙ ap some p.pushed.adds)
