-- ===== src/Crypt/Exchange.antt =====
-- The exchange of keys: both sides come to the same secret.
use native.Mathlib.Nat.{mod-lt, add-mul-mod_self_left, pow-suc, mul_comm}
use game_server.Common.{
  ℕ, zero, suc, ◌+◌, ◌*◌, ◌%◌, ◌^◌, ◌<◌, ◌≡◌, ◌≢◌, refl, sym, ap, ◌∙◌, false, some, List, length,
  All, ◌==◌, le_bytes, le_value, le_value-le_bytes, le_value-le_limit, arith,
}
use game_server.Crypt.{prime, powmodp, generator, push64, read64, secret, dhsecret, dhexchange}
use game_server.Crypt.Exponent.{mod-mul-mod, pow-mul, mod-pow-mod, powmodp_lem}

-- 5 has an inverse modulo `P`.
abbrev inverse : ℕ
inverse = 7378697629483820623

undo : (a : ℕ) → (a * generator % prime) * inverse % prime ≡ a % prime
undo a =
    let whole : a * generator * inverse ≡ a + prime * (2 * a) = omega arith in
    let small : inverse % prime ≡ inverse = refl in
    (rw (sym small) (mod-mul-mod prime (a * generator) inverse))
    ∙ ap (λ x. x % prime) whole
    ∙ add-mul-mod_self_left a prime (2 * a)

-- A public key is never 0.
public_nonzero : (n : ℕ) → generator ^ n % prime ≢ 0
public_nonzero zero e = absurd (let h : 1 ≡ 0 = e in omega arith)
public_nonzero (suc n) e =
    let back : (generator ^ n * generator % prime) ≡ 0 = rw (sym (pow-suc generator n)) e in
    public_nonzero n (sym (undo (generator ^ n)) ∙ ap (λ x. x * inverse % prime) back)

-- What a side may choose: eight bytes that are not all 0.
pub record IsKey (x : List ℕ) : Type 0 where
  pub eight : length x ≡ 8
  pub bytes : All (λ b. b < 256) x
  pub nonzero : le_value x ≢ 0

read64_lem : (x : List ℕ) → length x ≡ 8 → read64 x ≡ some (le_value x)
unfolding read64
read64_lem x e = ground (arith, e)

key_bound : (x : List ℕ) → IsKey x → le_value x < 2 ^ 64
key_bound x k = rw k.eight at (le_value-le_limit x k.bytes)

abbrev public : List ℕ → List ℕ
public x = le_bytes 8 (generator ^ le_value x % prime)

dhexchange_lem : (x : List ℕ) → IsKey x → dhexchange x ≡ some (public x)
unfolding dhexchange push64
dhexchange_lem x k =
    let f : (le_value x == 0) ≡ false = ground (arith, k.nonzero) in
    rw
      (
        dhexchange,
        read64_lem x k.eight,
        f,
        powmodp_lem generator (le_value x) (λ e. absurd (omega arith)) (ground (arith, k.nonzero))
            (key_bound x k),
      )
      refl

dhsecret_read :
    (a y : List ℕ) (v w : ℕ)
    → read64 a ≡ some v
    → read64 y ≡ some w
    → v ≢ 0
    → w ≢ 0
    → dhsecret a y ≡ push64 (powmodp v w)
unfolding dhsecret secret
dhsecret_read a y v w ea ey hv hw =
    let f : (v == 0) ≡ false = ground arith in
    let g : (w == 0) ≡ false = ground arith in rw (dhsecret, ea, ey, f, g) refl

-- The public key is read as it was written.
read64-public : (n : ℕ) → read64 (le_bytes 8 (n % prime)) ≡ some (n % prime)
read64-public n =
    let small : n % prime < prime = mod-lt n (omega arith) in
    read64_lem (le_bytes 8 (n % prime)) refl
    ∙ ap some (le_value-le_bytes 8 (n % prime) (omega arith))

dhsecret_lem :
    (x y : List ℕ)
    → IsKey x
    → IsKey y
    → dhsecret (public x) y ≡ some (le_bytes 8 (generator ^ (le_value x * le_value y) % prime))
unfolding push64
dhsecret_lem x y k l =
    let n : ℕ = generator ^ le_value x in
    let small : n % prime < prime = mod-lt n (omega arith) in
    dhsecret_read (public x) y (n % prime) (le_value y) (read64-public n) (read64_lem y l.eight)
      (public_nonzero (le_value x)) l.nonzero
    ∙ ap push64 (
        powmodp_lem (n % prime) (le_value y) (λ e. absurd (omega arith)) (ground (arith, l.nonzero))
          (key_bound y l))
    ∙ ap (λ r. some (le_bytes 8 r))
        (mod-pow-mod prime n (le_value y)
          ∙ ap (λ r. r % prime) (sym (pow-mul generator (le_value x) (le_value y))))

-- The exchange of Diffie and Hellman: from any two keys of eight bytes that are not 0, `ldhexchange`
-- makes the public keys, and `ldhsecret` makes of each of them and the other side's key the same secret.
pub dhsecret-dhexchange :
    (x y : List ℕ)
    → IsKey x
    → IsKey y
    → (a : List ℕ) × (b : List ℕ) × (s : List ℕ) × (dhexchange x ≡ some a)
      × (dhexchange y ≡ some b)
      × (dhsecret a y ≡ some s)
      × (dhsecret b x ≡ some s)
dhsecret-dhexchange x y k l =
    let swap : generator ^ (le_value y * le_value x) ≡ generator ^ (le_value x * le_value y) =
      ap (λ n. generator ^ n) (mul_comm (le_value y) (le_value x)) in
    (
      public x,
      public y,
      le_bytes 8 (generator ^ (le_value x * le_value y) % prime),
      dhexchange_lem x k,
      dhexchange_lem y l,
      dhsecret_lem x y k l,
      dhsecret_lem y x l k ∙ ap (λ n. some (le_bytes 8 (n % prime))) swap,
    )
