-- ===== src/Common/Bytes.antt =====
-- Numbers as bytes, the low byte first.
use Prim.Native.Nat.{ℕ, zero, suc, ◌+◌, ◌*◌, ◌/◌, ◌%◌, ◌<◌}
use mathlib.Core.Path.{◌≡◌, refl, ap}
use mathlib.Core.List.{List, [], ◌∷◌}
use mathlib.Core.Bool.{Bool, true, false}
use native.Mathlib.Omega.{arith}
use game_server.Common.Tests.{if◌then◌else◌}
use game_server.Common.Lists.{length, All}

-- The first `n` bytes of a number in memory, and a number out of memory.
abbrev pub le_bytes : ℕ → ℕ → List ℕ
le_bytes zero v = []
le_bytes (suc n) v = (v % 256) ∷ le_bytes n (v / 256)

abbrev pub le_value : List ℕ → ℕ
le_value [] = 0
le_value (b ∷ bs) = b + le_value bs * 256

-- one more than the largest number of `n` bytes
abbrev pub le_limit : ℕ → ℕ
le_limit zero = 1
le_limit (suc n) = 256 * le_limit n

pub le_value-le_bytes : (n v : ℕ) → v < le_limit n → le_value (le_bytes n v) ≡ v
le_value-le_bytes zero v h = omega arith
le_value-le_bytes (suc n) v h =
    let rest : le_value (le_bytes n (v / 256)) ≡ v / 256 =
      le_value-le_bytes n (v / 256) (omega arith) in
    omega arith

pub length-le_bytes : (n v : ℕ) → length (le_bytes n v) ≡ n
length-le_bytes zero v = refl
length-le_bytes (suc n) v = ap suc (length-le_bytes n (v / 256))

-- A list of bytes is a number below the limit.
pub le_value-le_limit : (xs : List ℕ) → All (λ b. b < 256) xs → le_value xs < le_limit (length xs)
le_value-le_limit [] h = omega arith
le_value-le_limit (b ∷ bs) h = omega (arith, h.0, le_value-le_limit bs h.1)

-- Whether a test holds of all numbers below a bound.
unfoldable pub passes : (ℕ → Bool) → ℕ → Bool
passes test zero = true
passes test (suc bound) = if test bound then passes test bound else false

pub passes-below :
    (test : ℕ → Bool) (bound k : ℕ) → passes test bound ≡ true → k < bound → test k ≡ true
unfolding passes
passes-below test zero k e lt = absurd (omega arith)
passes-below test (suc bound) k e lt = ground (arith, passes-below test bound k)
