-- ===== src/Seri/Unpack/Tables.antt =====
-- Tables are read back from their format: the size, the items, and the pairs up to the `nil`.
use game_server.Common.{
  ℕ, zero, suc, ◌+◌, ◌-◌, ◌*◌, ◌/◌, ◌%◌, ◌^◌, ◌≤◌, ◌<◌, ◌≡◌, refl, ap, ◌∙◌, true, false, inl, inr,
  Bool-cases, List, [], ◌∷◌, ◌++◌, append_assoc, length, length-append, leb, ◌==◌, arith,
}
use game_server.Seri.{
  Value, nil, boolean, integer, real, pointer, string, table, paired, other, Items, no_items, item,
  Pairs, no_pairs, pair, count, type_number, type_table, number_real, max_cookie, combine_type,
}
use game_server.Seri.Pack.{is_item_key, max_depth}
use game_server.Seri.Format.{
  encode_size, encode, encode_items, encode_pairs, received, received_items, received_pairs, IsKey,
  Packable, PackableItems, PackablePairs,
}
use game_server.Seri.Unpack.{
  ok, push_value, unpack_items, is_nil, unpack_pairs, get_array_size, rounds, unpack_table,
  unpack_one,
}
use game_server.Seri.Unpack.Scalars.{Number, Number-of, rb_read_front}
use game_server.Seri.Unpack.Values.{
  Tagged, unpack_one-encode, Tagged-nil, Tagged-boolean, Tagged-integer, Tagged-real,
  Tagged-pointer, Tagged-string,
}

-- The size of an array part is in the cookie, or behind it.
record Sized (n : ℕ) : Type 0 where
  cookie : ℕ
  bytes : List ℕ
  written : encode_size n ≡ combine_type type_table cookie ∷ bytes
  reads : (rest : List ℕ) → get_array_size cookie (bytes ++ rest) ≡ ok (n, rest)

-- A size behind the cookie is read as the number that it is.
get_array_size_behind :
    (n : ℕ) (m : Number n) (rest : List ℕ)
    → n < 2 ^ 31
    → get_array_size 31 ((combine_type type_number m.tag ∷ m.bytes) ++ rest) ≡ ok (n, rest)
unfolding get_array_size
get_array_size_behind n m rest h =
    let t : ℕ = combine_type type_number m.tag in
    let k : (t + 0 * 256) % 8 ≡ type_number = omega (arith, m.small) in
    let c : (t + 0 * 256) / 8 ≡ m.tag = omega (arith, m.small) in
    let not_real : (m.tag == number_real) ≡ false = ground (arith, m.small) in
    let int : n % 2 ^ 32 ≡ n = omega arith in
    rw (rb_read_front 1 (t ∷ []) (m.bytes ++ rest) refl, k, c, not_real, m.reads rest, int) refl

get_array_size_cookie : (n : ℕ) (rest : List ℕ) → n < 31 → get_array_size n rest ≡ ok (n, rest)
unfolding get_array_size
get_array_size_cookie n rest h = ground arith

Sized-of : (n : ℕ) → n < 2 ^ 31 → Sized n
unfolding encode_size
Sized-of n h = elim (Bool-cases (leb (max_cookie - 1) n)) [
  | inl b ↦
      let m = Number-of n (omega arith) in
      record {
        cookie = 31;
        bytes = combine_type type_number m.tag ∷ m.bytes;
        written = rw (b, m.written) refl;
        reads = λ rest. get_array_size_behind n m rest h;
      }
  | inr s ↦ record {
    cookie = n;
    bytes = [];
    written = rw s refl;
    reads = λ rest. get_array_size_cookie n rest (ground arith);
  }
]

is_nil-received : (v : Value) → IsKey v → is_nil (received v) ≡ false
unfolding received
is_nil-received nil h = elim h [ ]
is_nil-received (table vs ps) h = refl
is_nil-received _ h = refl

abbrev ReadsItems : ℕ → Items → Type 0
ReadsItems f vs =
    (rest : List ℕ)
    → unpack_items (unpack_one f) (count vs) (encode_items vs ++ rest)
      ≡ ok (received_items vs, rest)

abbrev ReadsPairs : ℕ → ℕ → Pairs → Type 0
ReadsPairs f n ps =
    (fuel : ℕ) (rest : List ℕ)
    → length (encode_pairs n ps) ≤ fuel
    → unpack_pairs fuel (unpack_one f) (encode_pairs n ps ++ rest) ≡ ok (received_pairs n ps, rest)

ReadsItems-item :
    (f : ℕ) (v : Value) (vs : Items)
    → Tagged f v
    → ReadsItems (suc f) vs
    → ReadsItems (suc f) (item v vs)
unfolding unpack_items encode received
ReadsItems-item f v vs t k rest =
    rw (append_assoc, unpack_one-encode t (encode_items vs ++ rest), k rest) refl

ReadsPairs-end : (f n : ℕ) → ReadsPairs (suc f) n no_pairs
unfolding unpack_pairs encode received
ReadsPairs-end f n zero rest h = absurd (omega arith)
ReadsPairs-end f n (suc fuel) rest h = rw (unpack_one-encode (Tagged-nil f) rest) refl

length-Tagged : {f : ℕ} {v : Value} → Tagged f v → 0 < length (encode v)
length-Tagged t = omega (arith, ap length t.written)

length-encode_pairs :
    (n : ℕ) (k v : Value) (ps : Pairs)
    → is_item_key n k ≡ false
    → length (encode_pairs n (pair k v ps))
      ≡ length (encode k) + (length (encode v) + length (encode_pairs n ps))
unfolding encode
length-encode_pairs n k v ps key = rw key (
    length-append (encode k) (encode v ++ encode_pairs n ps)
    ∙ ap (λ m. length (encode k) + m) (length-append (encode v) (encode_pairs n ps)))

ReadsPairs-pair :
    (f n : ℕ) (k v : Value) (ps : Pairs)
    → is_item_key n k ≡ false
    → IsKey k
    → Tagged f k
    → Tagged f v
    → ReadsPairs (suc f) n ps
    → ReadsPairs (suc f) n (pair k v ps)
unfolding unpack_pairs encode received
ReadsPairs-pair f n k v ps key nn tk tv r zero rest h =
    absurd (omega (arith, length-encode_pairs n k v ps key, length-Tagged tk))
ReadsPairs-pair f n k v ps key nn tk tv r (suc fuel) rest h =
    let left : List ℕ = encode_pairs n ps in
    let bound : length left ≤ fuel =
      omega (arith, h, length-encode_pairs n k v ps key, length-Tagged tk) in
    rw
      (
        key,
        append_assoc (encode k) (encode v ++ left) rest,
        unpack_one-encode tk ((encode v ++ left) ++ rest),
        is_nil-received k nn,
        append_assoc (encode v) left rest,
        unpack_one-encode tv (left ++ rest),
        r fuel rest bound,
      )
      refl

ReadsPairs-skip :
    (f n : ℕ) (k v : Value) (ps : Pairs)
    → is_item_key n k ≡ true
    → ReadsPairs f n ps
    → ReadsPairs f n (pair k v ps)
unfolding encode received
ReadsPairs-skip f n k v ps key r fuel rest h =
    let bound : length (encode_pairs n ps) ≤ fuel = rw key at h in rw (key, r fuel rest bound) refl

-- `unpack_table` reads what stands behind the cookie of a table.
unpack_table-reads :
    (f n : ℕ) (cookie : ℕ) (bytes items pairs rest : List ℕ) (vs : Items) (ps : Pairs)
    → n < 2 ^ 31
    → ((r : List ℕ) → get_array_size cookie (bytes ++ r) ≡ ok (n, r))
    → unpack_items (unpack_one f) n (items ++ (pairs ++ rest)) ≡ ok (vs, pairs ++ rest)
    → unpack_pairs (suc (length (pairs ++ rest))) (unpack_one f) (pairs ++ rest) ≡ ok (ps, rest)
    → unpack_table (unpack_one f) cookie ((bytes ++ (items ++ pairs)) ++ rest)
      ≡ ok (table vs ps, rest)
unfolding unpack_table
unpack_table-reads f n cookie bytes items pairs rest vs ps h size reads_items reads_pairs =
    let int : rounds n ≡ n = ground arith in
    rw
      (
        append_assoc bytes (items ++ pairs) rest,
        append_assoc items pairs rest,
        size (items ++ (pairs ++ rest)),
        int,
        reads_items,
        reads_pairs,
      )
      refl

Tagged-table :
    (f : ℕ) (vs : Items) (ps : Pairs)
    → count vs < 2 ^ 31
    → ReadsItems f vs
    → ReadsPairs f (count vs) ps
    → Tagged f (table vs ps)
unfolding encode received push_value
Tagged-table f vs ps h items pairs =
    let s = Sized-of (count vs) h in
    let left : List ℕ = encode_pairs (count vs) ps in
    record {
      kind = type_table;
      cookie = s.cookie;
      bytes = s.bytes ++ (encode_items vs ++ left);
      written = ap (λ l. l ++ (encode_items vs ++ left)) s.written;
      small = omega arith;
      reads = λ rest.
          unpack_table-reads f (count vs) s.cookie s.bytes (encode_items vs) left rest
            (received_items vs) (received_pairs (count vs) ps) h s.reads (items (left ++ rest))
            (pairs (suc (length (left ++ rest))) rest (omega (arith, length-append left rest)));
    }

Tagged-paired : (f : ℕ) (ps : Pairs) → ReadsPairs f 0 ps → Tagged f (paired ps)
unfolding encode encode_size received push_value unpack_items
Tagged-paired f ps pairs =
    let left : List ℕ = encode_pairs 0 ps in
    record {
      kind = type_table;
      cookie = 0;
      bytes = left;
      written = refl;
      small = omega arith;
      reads = λ rest.
          unpack_table-reads f 0 0 [] [] left rest no_items (received_pairs 0 ps) (omega arith)
            (λ r. get_array_size_cookie 0 r (omega arith)) refl
            (pairs (suc (length (left ++ rest))) rest (omega (arith, length-append left rest)));
    }

mutual
  unfolding encode received unpack_items

  -- With enough levels for the depth at which it stands, a packed value is read back.
  pub Tagged-of : (f d : ℕ) (v : Value) → Packable d v → max_depth < f + d → Tagged f v
  Tagged-of f d nil h lt = Tagged-nil f
  Tagged-of f d (boolean v) h lt = Tagged-boolean f v
  Tagged-of f d (integer v) h lt = Tagged-integer f v h.1
  Tagged-of f d (real v) h lt = Tagged-real f v h.1
  Tagged-of f d (pointer v) h lt = Tagged-pointer f v h.1
  Tagged-of f d (string str) h lt = Tagged-string f str h.1
  Tagged-of zero d (table vs ps) h lt = absurd (omega arith)
  Tagged-of (suc f) d (table vs ps) (hd, n, hvs, hps) lt =
      Tagged-table (suc f) vs ps n (items-Reads f (suc d) vs hvs (omega arith))
        (pairs-Reads f (suc d) (count vs) ps hps (omega arith))
  Tagged-of zero d (paired ps) h lt = absurd (omega arith)
  Tagged-of (suc f) d (paired ps) (hd, hps) lt =
      Tagged-paired (suc f) ps (pairs-Reads f (suc d) 0 ps hps (omega arith))
  Tagged-of f d other h lt = elim h [ ]

  items-Reads :
      (f d : ℕ) (vs : Items) → PackableItems d vs → max_depth < f + d → ReadsItems (suc f) vs
  items-Reads f d no_items h lt = λ rest. refl
  items-Reads f d (item v vs) h lt =
      ReadsItems-item f v vs (Tagged-of f d v h.0 lt) (items-Reads f d vs h.1 lt)

  pairs-Reads :
      (f d n : ℕ) (ps : Pairs) → PackablePairs d ps → max_depth < f + d → ReadsPairs (suc f) n ps
  pairs-Reads f d n no_pairs h lt = ReadsPairs-end f n
  pairs-Reads f d n (pair k v ps) (key, hk, hv, hps) lt =
      let rest = pairs-Reads f d n ps hps lt in
      let tk = Tagged-of f d k hk lt in
      let tv = Tagged-of f d v hv lt in
      elim (Bool-cases (is_item_key n k)) [
        | inl t ↦ ReadsPairs-skip (suc f) n k v ps t rest
        | inr t ↦ ReadsPairs-pair f n k v ps t key tk tv rest
      ]
