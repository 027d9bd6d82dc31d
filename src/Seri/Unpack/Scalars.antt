-- ===== src/Seri/Unpack/Scalars.antt =====
-- Numbers and strings are read as they were written.
pub use game_server.Common.{le_limit, le_value-le_bytes, length-le_bytes}
use game_server.Common.{
  ℕ, ◌%◌, ◌^◌, ◌<◌, ◌≡◌, refl, sym, ap, ◌∙◌, true, false, inl, inr, Bool-cases, List, [], ◌∷◌, ◌++◌,
  append_assoc, length, take, drop, take_front, drop_front, length-append, ltb, ◌==◌, arith,
}
use game_server.Seri.{string, type_number, combine_type, le_bytes}
use game_server.Seri.Pack.{is_wide, is_negative}
use game_server.Seri.Format.{encode_integer}
use game_server.Seri.Unpack.{ok, rb_read, sign_extend, get_integer, get_buffer, get_long_string}

-- `rb_read` of the bytes in front.
pub rb_read_front :
    (n : ℕ) (xs rest : List ℕ) → length xs ≡ n → rb_read n (xs ++ rest) ≡ ok (xs, rest)
unfolding rb_read
rb_read_front n xs rest e =
    let enough : ltb (length (xs ++ rest)) n ≡ false = ground (arith, length-append xs rest) in
    let t : take n (xs ++ rest) ≡ xs = ap (λ k. take k (xs ++ rest)) (sym e) ∙ take_front xs rest in
    let d : drop n (xs ++ rest) ≡ rest =
      ap (λ k. drop k (xs ++ rest)) (sym e) ∙ drop_front xs rest in
    rw (enough, t, d) refl

-- A number of `n` bytes in front.
pub rb_read-le_bytes :
    (n v : ℕ) (rest : List ℕ) → rb_read n (le_bytes n v ++ rest) ≡ ok (le_bytes n v, rest)
rb_read-le_bytes n v rest = rb_read_front n (le_bytes n v) rest (length-le_bytes n v)

-- The tag of a packed integer, and that `get_integer` reads back the rest.
pub record Number (v : ℕ) : Type 0 where
  pub tag : ℕ
  pub bytes : List ℕ
  pub written : encode_integer v ≡ combine_type type_number tag ∷ bytes
  pub small : tag < 8
  pub reads : (rest : List ℕ) → get_integer tag (bytes ++ rest) ≡ ok (v, rest)

get_byte : (v : ℕ) (rest : List ℕ) → v < 0x100 → get_integer 1 (le_bytes 1 v ++ rest) ≡ ok (v, rest)
unfolding get_integer
get_byte v rest h = rw (rb_read-le_bytes 1 v rest, le_value-le_bytes 1 v h) refl

get_word :
    (v : ℕ) (rest : List ℕ) → v < 0x10000 → get_integer 2 (le_bytes 2 v ++ rest) ≡ ok (v, rest)
unfolding get_integer
get_word v rest h = rw (rb_read-le_bytes 2 v rest, le_value-le_bytes 2 v h) refl

get_dword :
    (v : ℕ) (rest : List ℕ)
    → v < 2 ^ 64
    → is_wide v ≡ false
    → get_integer 4 (le_bytes 4 (v % 2 ^ 32) ++ rest) ≡ ok (v, rest)
unfolding get_integer
get_dword v rest h w =
    let signed : sign_extend (v % 2 ^ 32) ≡ v = ground arith in
    rw
      (rb_read-le_bytes 4 (v % 2 ^ 32) rest, le_value-le_bytes 4 (v % 2 ^ 32) (omega arith), signed)
      refl

get_qword :
    (v : ℕ) (rest : List ℕ) → v < 2 ^ 64 → get_integer 6 (le_bytes 8 v ++ rest) ≡ ok (v, rest)
unfolding get_integer
get_qword v rest h = rw (rb_read-le_bytes 8 v rest, le_value-le_bytes 8 v h) refl

-- Every 64-bit integer is read back from what `wb_integer` writes.
pub Number-of : (v : ℕ) → v < 2 ^ 64 → Number v
unfolding encode_integer get_integer
Number-of v h = elim (Bool-cases (v == 0)) [
  | inl z ↦ record {
    tag = 0;
    bytes = [];
    written = rw z refl;
    small = omega arith;
    reads = λ rest. ground arith;
  }
  | inr nz ↦ elim (Bool-cases (is_wide v)) [
    | inl w ↦ record {
      tag = 6;
      bytes = le_bytes 8 v;
      written = rw (nz, w) refl;
      small = omega arith;
      reads = λ rest. get_qword v rest h;
    }
    | inr nw ↦ elim (Bool-cases (is_negative v)) [
      | inl n ↦ record {
        tag = 4;
        bytes = le_bytes 4 (v % 2 ^ 32);
        written = rw (nz, nw, n) refl;
        small = omega arith;
        reads = λ rest. get_dword v rest h nw;
      }
      | inr nn ↦ elim (Bool-cases (ltb v 0x100)) [
        | inl b ↦ record {
          tag = 1;
          bytes = le_bytes 1 v;
          written = rw (nz, nw, nn, b) refl;
          small = omega arith;
          reads = λ rest. get_byte v rest (ground arith);
        }
        | inr nb ↦ elim (Bool-cases (ltb v 0x10000)) [
          | inl s ↦ record {
            tag = 2;
            bytes = le_bytes 2 v;
            written = rw (nz, nw, nn, nb, s) refl;
            small = omega arith;
            reads = λ rest. get_word v rest (ground arith);
          }
          | inr ns ↦ record {
            tag = 4;
            bytes = le_bytes 4 (v % 2 ^ 32);
            written = rw (nz, nw, nn, nb, ns) refl;
            small = omega arith;
            reads = λ rest. get_dword v rest h nw;
          }
        ]
      ]
    ]
  ]
]

-- `get_buffer` of a string in front.
pub get_buffer_lem :
    (str rest : List ℕ)
    → length str < 2 ^ 31
    → get_buffer (length str) (str ++ rest) ≡ ok (string str, rest)
unfolding get_buffer
get_buffer_lem str rest h =
    let positive : ltb (length str) (2 ^ 31) ≡ true = ground arith in
    rw (positive, rb_read_front (length str) str rest refl) refl

pub get_long_string_word :
    (str rest : List ℕ)
    → length str < 0x10000
    → get_long_string 2 ((le_bytes 2 (length str) ++ str) ++ rest) ≡ ok (string str, rest)
unfolding get_long_string
get_long_string_word str rest h =
    let front =
      ap (rb_read 2) (append_assoc (le_bytes 2 (length str)) str rest)
      ∙ rb_read-le_bytes 2 (length str) (str ++ rest) in
    rw (front, le_value-le_bytes 2 (length str) h) (get_buffer_lem str rest (omega arith))

pub get_long_string_dword :
    (str rest : List ℕ)
    → length str < 2 ^ 31
    → get_long_string 4 ((le_bytes 4 (length str) ++ str) ++ rest) ≡ ok (string str, rest)
unfolding get_long_string
get_long_string_dword str rest h =
    let front =
      ap (rb_read 4) (append_assoc (le_bytes 4 (length str)) str rest)
      ∙ rb_read-le_bytes 4 (length str) (str ++ rest) in
    rw (front, le_value-le_bytes 4 (length str) (omega arith)) (get_buffer_lem str rest h)
