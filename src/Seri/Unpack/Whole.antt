-- ===== src/Seri/Unpack/Whole.antt =====
-- `luaseri_unpack` on the formats of values.
use game_server.Common.{
  ℕ, zero, suc, ◌+◌, ◌-◌, ◌/◌, ◌%◌, ◌<◌, ◌≡◌, refl, sym, ap, ◌∙◌, List, [], ◌∷◌, ◌++◌, map, length,
  length-append, arith,
}
use game_server.Seri.{Value, combine_type}
use game_server.Seri.Format.{encode, encode_all, received, AllPackable}
use game_server.Seri.Unpack.{ok, push_value, unpack_all, luaseri_unpack}
use game_server.Seri.Unpack.Values.{tables, Tagged}
use game_server.Seri.Unpack.Tables.{Tagged-of}

unpack_all_step :
    (fuel kind cookie : ℕ) (bytes rest : List ℕ) (v : Value) (vs : List Value)
    → kind < 8
    → push_value (tables (length bytes + 33)) kind cookie bytes ≡ ok (v, rest)
    → unpack_all fuel rest ≡ ok vs
    → unpack_all (suc fuel) (combine_type kind cookie ∷ bytes) ≡ ok (v ∷ vs)
unfolding unpack_all
unpack_all_step fuel kind cookie bytes rest v vs h one all =
    let k : combine_type kind cookie % 8 ≡ kind = omega arith in
    let c : combine_type kind cookie / 8 ≡ cookie = omega arith in
    rw (unpack_all, k, c, one, all) refl

-- The first value is read, with as many levels as the bytes behind its tag allow.
unpack_all-Tagged :
    (fuel : ℕ) (v : Value) (vs : List Value) (levels : ℕ) (t : Tagged levels v)
    → levels ≡ length (t.bytes ++ encode_all vs) + 33
    → unpack_all fuel (encode_all vs) ≡ ok (map received vs)
    → unpack_all (suc fuel) (encode v ++ encode_all vs) ≡ ok (received v ∷ map received vs)
unpack_all-Tagged fuel v vs levels t e k =
    ap (λ l. unpack_all (suc fuel) (l ++ encode_all vs)) t.written
    ∙ unpack_all_step fuel t.kind t.cookie (t.bytes ++ encode_all vs) (encode_all vs) (received v)
        (map received vs) t.small
        (ap (λ n. push_value (tables n) t.kind t.cookie (t.bytes ++ encode_all vs)) (sym e)
          ∙ t.reads (encode_all vs))
        k

unpack_all-encode :
    (fuel : ℕ) (vs : List Value)
    → AllPackable vs
    → length (encode_all vs) < fuel
    → unpack_all fuel (encode_all vs) ≡ ok (map received vs)
unpack_all-encode zero vs h lt = absurd (omega arith)
unpack_all-encode (suc fuel) [] h lt = unfold unpack_all in refl
unpack_all-encode (suc fuel) (v ∷ vs) h lt =
    let n : ℕ = length (encode v ++ encode_all vs) in
    let t = Tagged-of (n - 1 + 33) 0 v h.0 (omega arith) in
    unpack_all-Tagged fuel v vs (n - 1 + 33) t
      (omega (
        arith,
        length-append (encode v) (encode_all vs),
        length-append t.bytes (encode_all vs),
        ap length t.written,
      ))
      (unpack_all-encode fuel vs h.1
        (omega (arith, length-append (encode v) (encode_all vs), ap length t.written)))

-- `luaseri_unpack` reads the values back from their formats, as a receiver has them.
pub luaseri_unpack-encode :
    (vs : List Value) → AllPackable vs → luaseri_unpack (encode_all vs) ≡ ok (map received vs)
unfolding luaseri_unpack
luaseri_unpack-encode vs h = unpack_all-encode (suc (length (encode_all vs))) vs h (omega arith)
