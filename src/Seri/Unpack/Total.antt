-- ===== src/Seri/Unpack/Total.antt =====
-- The unpacker ends on any bytes: nested tables, items and pairs each take a byte at least.
use game_server.Common.{
  ℕ, zero, suc, ◌+◌, ◌/◌, ◌%◌, ◌^◌, ◌≤◌, ◌<◌, ◌≢◌, refl, Bool, true, false, List, [], ◌∷◌, length,
  length-drop, ltb, ◌==◌, if◌then◌else◌, arith,
}
use game_server.Seri.{Value, string, real, pointer, le_value}
use game_server.Seri.Unpack.{
  Result, ok, invalid, too_big, stuck, Reader, and_then, rb_read, sign_extend, get_integer,
  get_buffer, get_long_string, push_value, unpack_items, is_nil, unpack_pairs, get_array_size,
  rounds, unpack_table, unpack_one, also, collect, unpack_all, luaseri_unpack,
}

-- A run that is over, and that left fewer than `n` bytes if it read something.
data Ends {A : Type 0} (n : ℕ) : Result (A × List ℕ) → Type 0 where
  leaves : {a : A} {bytes : List ℕ} → length bytes < n → Ends n (ok (a, bytes))
  is_invalid : Ends n invalid
  is_too_big : Ends n too_big

Ends-and_then :
    {A B : Type 0} {n m : ℕ} {r : Result (A × List ℕ)} {f : A → Reader B}
    → Ends n r
    → ((a : A) (bytes : List ℕ) → length bytes < n → Ends m (f a bytes))
    → Ends m (and_then r f)
Ends-and_then (leaves {a} {bytes} h) k = k a bytes h
Ends-and_then is_invalid k = is_invalid
Ends-and_then is_too_big k = is_too_big

Ends-le : {A : Type 0} {n m : ℕ} {r : Result (A × List ℕ)} → n ≤ m → Ends n r → Ends m r
Ends-le le (leaves h) = leaves (omega arith)
Ends-le le is_invalid = is_invalid
Ends-le le is_too_big = is_too_big

Ends-if :
    {A : Type 0} {n : ℕ} (t : Bool) {r s : Result (A × List ℕ)}
    → Ends n r
    → Ends n s
    → Ends n (if t then r else s)
Ends-if true p q = p
Ends-if false p q = q

rb_read-Ends : (n : ℕ) (bytes : List ℕ) → Ends (suc (length bytes)) (rb_read n bytes)
unfolding rb_read
rb_read-Ends n bytes =
    Ends-if (ltb (length bytes) n) is_invalid (leaves (omega (arith, length-drop n bytes)))

rb_read-byte : (bytes : List ℕ) → Ends (length bytes) (rb_read 1 bytes)
unfolding rb_read
rb_read-byte [] = is_invalid
rb_read-byte (b ∷ bytes) = Ends-if (ltb (suc (length bytes)) 1) is_invalid (leaves (omega arith))

-- a read of `n` bytes and a result that is computed from them
read_and :
    {A : Type 0} (n : ℕ) (bytes : List ℕ) (g : List ℕ → A)
    → Ends (suc (length bytes)) (and_then (rb_read n bytes) (λ s r. ok (g s, r)))
read_and n bytes g = Ends-and_then (rb_read-Ends n bytes) (λ s r lt. leaves lt)

get_integer-Ends : (c : ℕ) (bytes : List ℕ) → Ends (suc (length bytes)) (get_integer c bytes)
unfolding get_integer
get_integer-Ends c bytes = Ends-if (c == 0) (leaves (omega arith)) (
    Ends-if (c == 1) (read_and 1 bytes le_value) (
      Ends-if (c == 2) (read_and 2 bytes le_value) (
        Ends-if (c == 4) (read_and 4 bytes (λ n. sign_extend (le_value n)))
          (Ends-if (c == 6) (read_and 8 bytes le_value) is_invalid))))

get_buffer-Ends : (len : ℕ) (bytes : List ℕ) → Ends (suc (length bytes)) (get_buffer len bytes)
unfolding get_buffer
get_buffer-Ends len bytes = Ends-if (ltb len (2 ^ 31)) (read_and len bytes string) is_too_big

get_long_string-Ends :
    (c : ℕ) (bytes : List ℕ) → Ends (suc (length bytes)) (get_long_string c bytes)
unfolding get_long_string
get_long_string-Ends c bytes =
    Ends-if (c == 2)
      (Ends-and_then (rb_read-Ends 2 bytes)
        (λ n r lt. Ends-le (omega arith) (get_buffer-Ends (le_value n) r)))
      (Ends-if (c == 4)
        (Ends-and_then (rb_read-Ends 4 bytes)
          (λ n r lt. Ends-le (omega arith) (get_buffer-Ends (le_value n) r)))
        is_invalid)

-- `push_value` ends if the tables do.
push_value-Ends :
    (tables : ℕ → Reader Value) (type c : ℕ) (bytes : List ℕ)
    → Ends (suc (length bytes)) (tables c bytes)
    → Ends (suc (length bytes)) (push_value tables type c bytes)
unfolding push_value
push_value-Ends tables type c bytes t = Ends-if (type == 0) (leaves (omega arith)) (
    Ends-if (type == 1) (leaves (omega arith)) (
      Ends-if (type == 2)
        (Ends-if (c == 8) (read_and 8 bytes (λ n. real (le_value n)))
          (Ends-and_then (get_integer-Ends c bytes) (λ n r lt. leaves lt)))
        (Ends-if (type == 3) (read_and 8 bytes (λ n. pointer (le_value n))) (
          Ends-if (type == 4) (get_buffer-Ends c bytes) (
            Ends-if (type == 5) (get_long_string-Ends c bytes)
              (Ends-if (type == 6) t is_invalid))))))

-- A reader that ends on up to `limit` bytes, and takes one at least.
abbrev EndsUpTo : ℕ → Reader Value → Type 0
EndsUpTo limit one = (bytes : List ℕ) → length bytes < limit → Ends (length bytes) (one bytes)

unpack_items-Ends :
    (limit : ℕ) (one : Reader Value)
    → EndsUpTo limit one
    → (n : ℕ) (bytes : List ℕ) → length bytes < limit
    → Ends (suc (length bytes)) (unpack_items one n bytes)
unfolding unpack_items
unpack_items-Ends limit one h zero bytes lt = leaves (omega arith)
unpack_items-Ends limit one h (suc n) bytes lt = Ends-and_then (h bytes lt) (λ v r lt1.
    Ends-and_then (unpack_items-Ends limit one h n r (omega arith))
      (λ vs r' lt2. leaves (omega arith)))

unpack_pairs-Ends :
    (limit : ℕ) (one : Reader Value)
    → EndsUpTo limit one
    → (fuel : ℕ) (bytes : List ℕ) → length bytes < limit
    → length bytes < fuel
    → Ends (suc (length bytes)) (unpack_pairs fuel one bytes)
unfolding unpack_pairs
unpack_pairs-Ends limit one h zero bytes lt f = absurd (omega arith)
unpack_pairs-Ends limit one h (suc fuel) bytes lt f = Ends-and_then (h bytes lt) (λ k r lt1.
    Ends-if (is_nil k) (leaves (omega arith)) (
      Ends-and_then (h r (omega arith)) (λ v r' lt2.
        Ends-and_then (unpack_pairs-Ends limit one h fuel r' (omega arith) (omega arith))
          (λ ps r'' lt3. leaves (omega arith)))))

get_array_size-Ends : (c : ℕ) (bytes : List ℕ) → Ends (suc (length bytes)) (get_array_size c bytes)
unfolding get_array_size
get_array_size-Ends c bytes =
    Ends-if (c == 31)
      (Ends-and_then (rb_read-Ends 1 bytes) (λ t r lt.
        Ends-if (le_value t % 8 == 2)
          (Ends-if (le_value t / 8 == 8) is_invalid (
            Ends-and_then (get_integer-Ends (le_value t / 8) r) (λ n r' lt'. leaves (omega arith))))
          is_invalid))
      (leaves (omega arith))

unpack_table-Ends :
    (limit : ℕ) (one : Reader Value)
    → EndsUpTo limit one
    → (c : ℕ) (bytes : List ℕ) → length bytes < limit
    → Ends (suc (length bytes)) (unpack_table one c bytes)
unfolding unpack_table
unpack_table-Ends limit one h c bytes lt = Ends-and_then (get_array_size-Ends c bytes) (λ n r lt1.
    Ends-and_then (unpack_items-Ends limit one h (rounds n) r (omega arith)) (λ vs r' lt2.
      Ends-and_then (unpack_pairs-Ends limit one h (suc (length r')) r' (omega arith) (omega arith))
        (λ ps r'' lt3. leaves (omega arith))))

-- `unpack_one` ends on fewer bytes than it has levels.
unpack_one-Ends : (fuel : ℕ) → EndsUpTo fuel (unpack_one fuel)
unfolding unpack_one
unpack_one-Ends zero bytes lt = absurd (omega arith)
unpack_one-Ends (suc fuel) bytes lt = Ends-and_then (rb_read-byte bytes) (λ t r lt1.
    Ends-le (omega arith) (
      push_value-Ends (unpack_table (unpack_one fuel)) (le_value t % 8) (le_value t / 8) r (
        unpack_table-Ends fuel (unpack_one fuel) (unpack_one-Ends fuel) (le_value t / 8) r
          (omega arith))))

also-ne : (v : Value) (r : Result (List Value)) → r ≢ stuck → also v r ≢ stuck
also-ne v (ok vs) h = λ e. cc
also-ne v invalid h = λ e. cc
also-ne v too_big h = λ e. cc
also-ne v stuck h = λ e. h refl

collect-ne :
    {n : ℕ} {r : Result (Value × List ℕ)} {rest : List ℕ → Result (List Value)}
    → Ends n r
    → ((bytes : List ℕ) → length bytes < n → rest bytes ≢ stuck)
    → collect r rest ≢ stuck
collect-ne {n} {r} {rest} (leaves {a = v} {bytes} h) k = also-ne v (rest bytes) (k bytes h)
collect-ne is_invalid k = λ e. cc
collect-ne is_too_big k = λ e. cc

unpack_all-Ends : (fuel : ℕ) (bytes : List ℕ) → length bytes < fuel → unpack_all fuel bytes ≢ stuck
unfolding unpack_all
unpack_all-Ends zero bytes lt = absurd (omega arith)
unpack_all-Ends (suc fuel) [] lt = λ e. cc
unpack_all-Ends (suc fuel) (b ∷ bytes) lt =
    let levels : ℕ = length bytes + 33 in
    let first = push_value-Ends (unpack_table (unpack_one levels)) (b % 8) (b / 8) bytes (
      unpack_table-Ends levels (unpack_one levels) (unpack_one-Ends levels) (b / 8) bytes
        (omega arith)) in
    collect-ne first (λ r lt1. unpack_all-Ends fuel r (omega arith))

-- On any bytes `luaseri_unpack` ends: with values or with an error, and never for want of fuel.
pub luaseri_unpack_total : (bytes : List ℕ) → luaseri_unpack bytes ≢ stuck
unfolding luaseri_unpack
luaseri_unpack_total bytes = unpack_all-Ends (suc (length bytes)) bytes (omega arith)
