-- ===== src/Seri/Unpack/Values.antt =====
-- Every value is read back from its format, as `received` says.
use game_server.Common.{
  ℕ, suc, ◌+◌, ◌*◌, ◌/◌, ◌%◌, ◌^◌, ◌<◌, ◌≡◌, refl, ap, ◌∙◌, Bool, true, false, inl, inr, Bool-cases,
  List, [], ◌∷◌, ◌++◌, length, ltb, ◌==◌, arith,
}
use game_server.Seri.{
  Value, nil, boolean, integer, real, pointer, string, type_nil, type_boolean, type_number,
  type_userdata, type_short_string, type_long_string, number_real, max_cookie, combine_type,
  le_bytes,
}
use game_server.Seri.Format.{encode_string, encode, received}
use game_server.Seri.Unpack.{ok, Reader, push_value, unpack_table, unpack_one}
use game_server.Seri.Unpack.Scalars.{
  Number-of, rb_read_front, rb_read-le_bytes, le_value-le_bytes, get_buffer_lem,
  get_long_string_word, get_long_string_dword,
}

abbrev pub tables : ℕ → ℕ → Reader Value
tables f = unpack_table (unpack_one f)

-- A packed value is a tag and the bytes from which `push_value` reads it, with `f` levels of tables.
pub record Tagged (f : ℕ) (v : Value) : Type 0 where
  pub kind : ℕ
  pub cookie : ℕ
  pub bytes : List ℕ
  pub written : encode v ≡ combine_type kind cookie ∷ bytes
  pub small : kind < 8
  pub reads :
      (rest : List ℕ) → push_value (tables f) kind cookie (bytes ++ rest) ≡ ok (received v, rest)

-- `unpack_one` takes the tag apart.
unpack_one_tag :
    (f kind cookie : ℕ) (bytes : List ℕ)
    → kind < 8
    → unpack_one (suc f) (combine_type kind cookie ∷ bytes)
      ≡ push_value (tables f) kind cookie bytes
unfolding unpack_one
unpack_one_tag f kind cookie bytes h =
    let t : ℕ = combine_type kind cookie in
    let k : (t + 0 * 256) % 8 ≡ kind = omega arith in
    let c : (t + 0 * 256) / 8 ≡ cookie = omega arith in
    rw (rb_read_front 1 (t ∷ []) bytes refl, k, c) refl

pub unpack_one-encode :
    {f : ℕ} {v : Value}
    → Tagged f v
    → (rest : List ℕ) → unpack_one (suc f) (encode v ++ rest) ≡ ok (received v, rest)
unpack_one-encode {f} t rest =
    ap (λ l. unpack_one (suc f) (l ++ rest)) t.written
    ∙ unpack_one_tag f t.kind t.cookie (t.bytes ++ rest) t.small
    ∙ t.reads rest

pub Tagged-integer : (f v : ℕ) → v < 2 ^ 64 → Tagged f (integer v)
unfolding encode received push_value
Tagged-integer f v h =
    let n = Number-of v h in
    let not_real : (n.tag == number_real) ≡ false = ground (arith, n.small) in
    record {
      kind = type_number;
      cookie = n.tag;
      bytes = n.bytes;
      written = n.written;
      small = omega arith;
      reads = λ rest. rw (not_real, n.reads rest) refl;
    }

pub Tagged-real : (f v : ℕ) → v < 2 ^ 64 → Tagged f (real v)
unfolding encode received push_value
Tagged-real f v h = record {
  kind = type_number;
  cookie = number_real;
  bytes = le_bytes 8 v;
  written = refl;
  small = omega arith;
  reads = λ rest. rw (rb_read-le_bytes 8 v rest, le_value-le_bytes 8 v h) refl;
}

pub Tagged-pointer : (f v : ℕ) → v < 2 ^ 64 → Tagged f (pointer v)
unfolding encode received push_value
Tagged-pointer f v h = record {
  kind = type_userdata;
  cookie = 0;
  bytes = le_bytes 8 v;
  written = refl;
  small = omega arith;
  reads = λ rest. rw (rb_read-le_bytes 8 v rest, le_value-le_bytes 8 v h) refl;
}

pub Tagged-string : (f : ℕ) (str : List ℕ) → length str < 2 ^ 31 → Tagged f (string str)
unfolding encode encode_string received push_value
Tagged-string f str h = elim (Bool-cases (ltb (length str) max_cookie)) [
  | inl s ↦ record {
    kind = type_short_string;
    cookie = length str;
    bytes = str;
    written = rw s refl;
    small = omega arith;
    reads = λ rest. get_buffer_lem str rest h;
  }
  | inr l ↦ elim (Bool-cases (ltb (length str) 0x10000)) [
    | inl w ↦ record {
      kind = type_long_string;
      cookie = 2;
      bytes = le_bytes 2 (length str) ++ str;
      written = rw (l, w) refl;
      small = omega arith;
      reads = λ rest. get_long_string_word str rest (ground arith);
    }
    | inr nw ↦ record {
      kind = type_long_string;
      cookie = 4;
      bytes = le_bytes 4 (length str) ++ str;
      written = rw (l, nw) refl;
      small = omega arith;
      reads = λ rest. get_long_string_dword str rest h;
    }
  ]
]

pub Tagged-boolean : (f : ℕ) (v : Bool) → Tagged f (boolean v)
unfolding encode received push_value
Tagged-boolean f true = record {
  kind = type_boolean;
  cookie = 1;
  bytes = [];
  written = refl;
  small = omega arith;
  reads = λ rest. refl;
}
Tagged-boolean f false = record {
  kind = type_boolean;
  cookie = 0;
  bytes = [];
  written = refl;
  small = omega arith;
  reads = λ rest. refl;
}

pub Tagged-nil : (f : ℕ) → Tagged f nil
unfolding encode received push_value
Tagged-nil f = record {
  kind = type_nil;
  cookie = 0;
  bytes = [];
  written = refl;
  small = omega arith;
  reads = λ rest. refl;
}
