-- ===== src/Crypt/Power.antt =====
-- Multiplication modulo `P` by doubling.
use native.Mathlib.Nat.{mod-eq_of_lt, add-mul-mod_self_left, pow-suc}
use native.Mathlib.Decide.{ℕ_discrete}
use game_server.Common.{
  ℕ, zero, suc, ◌+◌, ◌-◌, ◌*◌, ◌/◌, ◌%◌, ◌^◌, ◌<◌, ◌≡◌, refl, sym, ap, ◌∙◌, inl, inr, false, some,
  leb, ◌==◌, if◌then◌else◌, Bool-cases, arith,
}
use game_server.Crypt.{prime, add_mod_p, twice_mod_p, mul_loop, mul_mod_p}

add_mod_p_lem :
    (m a : ℕ)
    → m < prime
    → a < prime
    → (u : ℕ) × (add_mod_p m a + prime * u ≡ m + a) × (add_mod_p m a < prime)
unfolding add_mod_p
add_mod_p_lem m a hm ha = elim (Bool-cases (leb ((2 ^ 64 + prime - a) % 2 ^ 64) m)) [
  | inl t ↦ (1, ground arith, ground arith)
  | inr f ↦ (0, ground arith, ground arith)
]

twice_mod_p_lem :
    (a : ℕ) → a < prime → (w : ℕ) × (twice_mod_p a + prime * w ≡ a * 2) × (twice_mod_p a < prime)
unfolding twice_mod_p
twice_mod_p_lem a ha = elim (Bool-cases (leb ((2 ^ 64 + prime - a) % 2 ^ 64) a)) [
  | inl t ↦ (1, ground arith, ground arith)
  | inr f ↦ (0, ground arith, ground arith)
]

-- What a round adds to the product is a multiple of `P`.
round_sum :
    (p m a b q r m' a' u w : ℕ)
    → b ≡ q * 2 + r
    → m' + p * u ≡ m + r * a
    → a' + p * w ≡ a * 2
    → m' + a' * q + p * (u + w * q) ≡ m + a * b
round_sum p m a b q r m' a' u w eb em ea =
    let left : m' + a' * q + p * (u + w * q) ≡ (m' + p * u) + (a' + p * w) * q = grind arith in
    let right : (m + r * a) + a * 2 * q ≡ m + a * (q * 2 + r) = grind arith in
    left ∙ (rw (em, ea) right) ∙ ap (λ x. m + a * x) (sym eb)

abbrev add_if : ℕ → ℕ → ℕ → ℕ
add_if m a b = if b % 2 == 1 then add_mod_p m a else m

add_if_lem :
    (m a b : ℕ)
    → m < prime
    → a < prime
    → (u : ℕ) × (add_if m a b + prime * u ≡ m + b % 2 * a) × (add_if m a b < prime)
add_if_lem m a b hm ha = elim (Bool-cases (b % 2 == 1)) [
  | inl t ↦
      let (u, e, lt) = add_mod_p_lem m a hm ha in
      let one : b % 2 ≡ 1 = ground arith in (u, rw (t, one) (e ∙ omega arith), rw t lt)
  | inr f ↦
      let none_left : b % 2 ≡ 0 = ground arith in (0, rw (f, none_left) (omega arith), rw f hm)
]

mul_loop-zero : (fuel m a : ℕ) → mul_loop (suc fuel) m a 0 ≡ some m
unfolding mul_loop
mul_loop-zero fuel m a = refl

mul_loop-suc :
    (fuel m a b : ℕ)
    → 0 < b
    → mul_loop (suc fuel) m a b ≡ mul_loop fuel (add_if m a b) (twice_mod_p a) (b / 2)
unfolding mul_loop
mul_loop-suc fuel m a b pos = let f : (b == 0) ≡ false = ground arith in rw f refl

mul_loop_end :
    (fuel m a b : ℕ) → b ≡ 0 → m < prime → mul_loop (suc fuel) m a b ≡ some ((m + a * b) % prime)
mul_loop_end fuel m a b e hm =
    ap (mul_loop (suc fuel) m a) e
    ∙ mul_loop-zero fuel m a
    ∙ ap some (sym (mod-eq_of_lt hm) ∙ ap (λ x. x % prime) (grind (arith, e)))

mul_loop_lem :
    (fuel m a b : ℕ)
    → m < prime
    → a < prime
    → b < 2 ^ fuel
    → mul_loop (suc fuel) m a b ≡ some ((m + a * b) % prime)
mul_loop_lem zero m a b hm ha hb = mul_loop_end 0 m a b (omega arith) hm
mul_loop_lem (suc fuel) m a b hm ha hb = elim (ℕ_discrete b 0) [
  | yes e ↦ mul_loop_end (suc fuel) m a b e hm
  | no ne ↦
      let (u, em, lm) = add_if_lem m a b hm ha in
      let (w, ea, la) = twice_mod_p_lem a ha in
      let half : b / 2 < 2 ^ fuel =
        let h : b < 2 ^ fuel * 2 = rw (sym (pow-suc 2 fuel)) hb in omega arith in
      let whole =
        round_sum prime m a b (b / 2) (b % 2) (add_if m a b) (twice_mod_p a) u w (omega arith) em
          ea in
      mul_loop-suc (suc fuel) m a b (omega arith)
      ∙ mul_loop_lem fuel (add_if m a b) (twice_mod_p a) (b / 2) lm la half
      ∙ ap some (
          sym
            (add-mul-mod_self_left (add_if m a b + twice_mod_p a * (b / 2)) prime (u + w * (b / 2)))
          ∙ ap (λ x. x % prime) whole)
]

-- `mul_mod_p` of a number below `P` and a 64-bit number ends with their product modulo `P`.
pub mul_mod_p_lem : (a b : ℕ) → a < prime → b < 2 ^ 64 → mul_mod_p a b ≡ some (a * b % prime)
unfolding mul_mod_p
mul_mod_p_lem a b ha hb =
    mul_loop_lem 64 0 a b (omega arith) ha hb ∙ ap (λ x. some (x % prime)) (omega arith)
