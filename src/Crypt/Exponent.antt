-- ===== src/Crypt/Exponent.antt =====
-- Powers modulo `P` by squaring.
use native.Mathlib.Nat.{
  mod-eq_of_lt, mod-mod, mod-lt, add-mul-mod_self_left, pow-suc, pow-zero, mod-add-div,
}
use game_server.Common.{
  ℕ, zero, suc, ◌+◌, ◌*◌, ◌/◌, ◌%◌, ◌^◌, ◌<◌, ◌≡◌, ◌≢◌, refl, sym, ap, ◌∙◌, inl, inr, some, ltb,
  ◌==◌, Bool-cases, arith,
}
use game_server.Crypt.{prime, mul_mod_p, pow_round, pow_mod_p, powmodp}
use game_server.Crypt.Power.{mul_mod_p_lem}

-- The factors of a product may be reduced first.
product_sum :
    (p x' u y' w : ℕ) → (x' + p * u) * (y' + p * w) ≡ x' * y' + p * (u * y' + w * x' + p * u * w)
product_sum p x' u y' w = grind arith

pub mod-mul-mod : (p x y : ℕ) → (x % p) * (y % p) % p ≡ x * y % p
mod-mul-mod p x y =
    let e = product_sum p (x % p) (x / p) (y % p) (y / p) in
    sym (
      add-mul-mod_self_left ((x % p) * (y % p)) p
        (x / p * (y % p) + y / p * (x % p) + p * (x / p) * (y / p)))
    ∙ ap (λ z. z % p) (sym e)
    ∙ (rw (mod-add-div x p, mod-add-div y p) refl)

pub pow-add : (a n m : ℕ) → a ^ (n + m) ≡ a ^ n * a ^ m
pow-add a n zero = rw (pow-zero a) (let e : n + 0 ≡ n = omega arith in rw e (omega arith))
pow-add a n (suc m) =
    let e : n + suc m ≡ suc (n + m) = omega arith in
    rw (e, pow-suc a (n + m), pow-suc a m, pow-add a n m) (grind arith)

pub pow-mul : (a n m : ℕ) → a ^ (n * m) ≡ (a ^ n) ^ m
pow-mul a n zero = let e : n * 0 ≡ 0 = omega arith in rw (e, pow-zero a, pow-zero (a ^ n)) refl
pow-mul a n (suc m) =
    let e : n * suc m ≡ n * m + n = grind arith in
    rw (e, pow-add a (n * m) n, pow-mul a n m, pow-suc (a ^ n) m) refl

-- The base of a power may be reduced first.
pub mod-pow-mod : (p a n : ℕ) → (a % p) ^ n % p ≡ a ^ n % p
mod-pow-mod p a zero = rw (pow-zero (a % p), pow-zero a) refl
mod-pow-mod p a (suc n) =
    rw (pow-suc (a % p) n, pow-suc a n)
      (sym (mod-mul-mod p ((a % p) ^ n) (a % p))
        ∙ (rw (mod-pow-mod p a n, mod-mod a p) (mod-mul-mod p (a ^ n) a)))

pow_double : (a q : ℕ) → a ^ q * a ^ q ≡ a ^ (q * 2)
pow_double a q = let e : q * 2 ≡ q + q = omega arith in rw (e, pow-add a q q) refl

pow_round_lem : (a b : ℕ) → a < prime → pow_round a b (a ^ (b / 2) % prime) ≡ some (a ^ b % prime)
unfolding pow_round
pow_round_lem a b ha =
    let q : ℕ = b / 2 in
    let t : ℕ = a ^ q % prime in
    let lt : t < prime = mod-lt (a ^ q) (omega arith) in
    let square : mul_mod_p t t ≡ some (a ^ (q * 2) % prime) =
      mul_mod_p_lem t t lt (omega arith)
      ∙ ap some (mod-mul-mod prime (a ^ q) (a ^ q) ∙ ap (λ x. x % prime) (pow_double a q)) in
    elim (Bool-cases (b % 2 == 1)) [
      | inl o ↦
          let e : b ≡ suc (q * 2) = ground (arith, o) in
          let mul : mul_mod_p (a ^ (q * 2) % prime) a ≡ some (a ^ b % prime) =
            mul_mod_p_lem (a ^ (q * 2) % prime) a (mod-lt (a ^ (q * 2)) (omega arith)) (omega arith)
            ∙ ap (λ x. some (a ^ (q * 2) % prime * x % prime)) (sym (mod-eq_of_lt ha))
            ∙ ap some (mod-mul-mod prime (a ^ (q * 2)) a)
            ∙ ap (λ x. some (x % prime)) (sym (pow-suc a (q * 2)) ∙ ap (λ x. a ^ x) (sym e)) in
          rw (pow_round, square, o) mul
      | inr z ↦
          let e : b ≡ q * 2 = ground (arith, z) in
          rw (pow_round, square, z) (ap (λ x. some (a ^ x % prime)) (sym e))
    ]

pow_mod_p_lem :
    (fuel a b : ℕ) → a < prime → 0 < b → b < 2 ^ fuel → pow_mod_p fuel a b ≡ some (a ^ b % prime)
unfolding pow_mod_p
pow_mod_p_lem zero a b ha pos hb = absurd (omega arith)
pow_mod_p_lem (suc fuel) a b ha pos hb = elim (Bool-cases (b == 1)) [
  | inl t ↦
      let e : b ≡ 1 = ground (arith, t) in
      let one : a ^ 1 ≡ a = pow-suc a 0 ∙ (rw (pow-zero a) (omega arith)) in
      rw t (ap some (sym (mod-eq_of_lt ha) ∙ ap (λ x. x % prime) (sym (ap (λ x. a ^ x) e ∙ one))))
  | inr f ↦
      let more : 1 < b = ground (arith, f) in
      let half : b / 2 < 2 ^ fuel =
        let h : b < 2 ^ fuel * 2 = rw (sym (pow-suc 2 fuel)) hb in omega arith in
      rw (f, pow_mod_p_lem fuel a (b / 2) ha (omega arith) half) (pow_round_lem a b ha)
]

-- `powmodp` of 64-bit numbers ends with the power modulo `P`, if the exponent is not 0 and the base
-- is not `P` itself.
pub powmodp_lem : (a b : ℕ) → a ≢ prime → 0 < b → b < 2 ^ 64 → powmodp a b ≡ some (a ^ b % prime)
unfolding powmodp
powmodp_lem a b ne pos hb = elim (Bool-cases (ltb prime a)) [
  | inl t ↦ rw t (
      pow_mod_p_lem 64 (a % prime) b (mod-lt a (omega arith)) pos hb
      ∙ ap some (mod-pow-mod prime a b))
  | inr f ↦ rw f (pow_mod_p_lem 64 a b (ground (arith, f, ne)) pos hb)
]
