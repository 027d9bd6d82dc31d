-- ===== src/Crypt.antt =====
-- skynet-dist/lualib-src/lua-crypt.c: the Diffie-Hellman exchange. Numbers are `uint64_t`, a string
-- of bytes is a list of numbers below 256, and an error of `luaL_error` is `none`.
pub mod Power
pub mod Exponent
pub mod Exchange
pub mod Text
use game_server.Common.{
  ℕ, zero, suc, ◌+◌, ◌-◌, ◌*◌, ◌/◌, ◌%◌, ◌^◌, Bool, Option, none, some, List, length, le_bytes,
  le_value, leb, ltb, ◌==◌, if◌then◌else◌,
}

-- `P`
abbrev pub prime : ℕ
prime = 18446744073709551557

-- `m += a` modulo `P`, without overflow.
pub add_mod_p : ℕ → ℕ → ℕ
add_mod_p m a =
    let t = (2 ^ 64 + prime - a) % 2 ^ 64 in
    if leb t m then (2 ^ 64 + m - t) % 2 ^ 64 else (m + a) % 2 ^ 64

-- The new `a` of a round.
pub twice_mod_p : ℕ → ℕ
twice_mod_p a =
    if leb ((2 ^ 64 + prime - a) % 2 ^ 64) a
    then (a * 2 + 2 ^ 64 - prime) % 2 ^ 64
    else a * 2 % 2 ^ 64

-- The loop of `mul_mod_p` on fuel.
pub mul_loop : ℕ → ℕ → ℕ → ℕ → Option ℕ
mul_loop zero m a b = none
mul_loop (suc fuel) m a b =
    let rest = mul_loop fuel (if b % 2 == 1 then add_mod_p m a else m) (twice_mod_p a) (b / 2) in
    if b == 0 then some m else rest

-- `mul_mod_p`; a number of 64 bits takes at most 64 rounds.
pub mul_mod_p : ℕ → ℕ → Option ℕ
mul_mod_p a b = mul_loop 65 0 a b

-- A round of `pow_mod_p` on the recursive result `t`.
pub pow_round : ℕ → ℕ → ℕ → Option ℕ
pow_round a b t = elim (mul_mod_p t t) [
  | none ↦ none
  | some square ↦ if b % 2 == 1 then mul_mod_p square a else some square
]

-- `pow_mod_p` on fuel; on 0 the code does not end.
pub pow_mod_p : ℕ → ℕ → ℕ → Option ℕ
pow_mod_p zero a b = none
pow_mod_p (suc fuel) a b =
    let rest = pow_mod_p fuel a (b / 2) in
    if b == 1 then some a else elim rest [ none ↦ none | some t ↦ pow_round a b t ]

-- `powmodp`
pub powmodp : ℕ → ℕ → Option ℕ
powmodp a b = pow_mod_p 64 (if ltb prime a then a % prime else a) b

-- `G`
abbrev pub generator : ℕ
generator = 5

-- `push64`
pub push64 : Option ℕ → Option (List ℕ)
push64 none = none
push64 (some r) = some (le_bytes 8 r)

-- `read64`, one of its two arguments; `none` is the error on its size.
pub read64 : List ℕ → Option ℕ
read64 x = if length x == 8 then some (le_value x) else none

-- `ldhsecret` on the two numbers
pub secret : ℕ → ℕ → Option (List ℕ)
secret xx yy = if xx == 0 then none else (if yy == 0 then none else push64 (powmodp xx yy))

-- `ldhsecret`
pub dhsecret : List ℕ → List ℕ → Option (List ℕ)
dhsecret x y = elim (read64 x) [
  | none ↦ none
  | some xx ↦ elim (read64 y) [ none ↦ none | some yy ↦ secret xx yy ]
]

-- `ldhexchange`
pub dhexchange : List ℕ → Option (List ℕ)
dhexchange x = elim (read64 x) [
  | none ↦ none
  | some x64 ↦ if x64 == 0 then none else push64 (powmodp generator x64)
]
