-- ===== src/Tests/Crypts.antt =====
-- Short texts, and an exchange of two small keys.
use game_server.Common.{ℕ, ◌%◌, ◌^◌, ◌≡◌, refl, some, List, [], ◌∷◌, arith}
use game_server.Crypt.{prime, powmodp, dhexchange, dhsecret}
use game_server.Crypt.Exponent.{powmodp_lem}
use game_server.Crypt.Exchange.{IsKey, dhsecret-dhexchange}
use game_server.Crypt.Text.{
  hex, tohex, hex_value, hex_byte, hex_pairs, fromhex, b64encode, b64digit, b64decode,
}
use game_server.Crypt.Text.Hex.{fromhex-tohex}
use game_server.Crypt.Text.Base64.{b64decode-b64encode}

abbrev mine : List ℕ
mine = 7 ∷ 1 ∷ 0 ∷ 0 ∷ 0 ∷ 0 ∷ 0 ∷ 9 ∷ []

abbrev yours : List ℕ
yours = 3 ∷ 0 ∷ 0 ∷ 255 ∷ 0 ∷ 0 ∷ 0 ∷ 0 ∷ []

mine-IsKey : IsKey mine
mine-IsKey = record {
  eight = refl;
  bytes = (
    omega arith,
    (
      omega arith,
      (omega arith, (omega arith, (omega arith, (omega arith, (omega arith, (omega arith, tt)))))),
    ),
  );
  nonzero = λ e. absurd (omega arith);
}

yours-IsKey : IsKey yours
yours-IsKey = record {
  eight = refl;
  bytes = (
    omega arith,
    (
      omega arith,
      (omega arith, (omega arith, (omega arith, (omega arith, (omega arith, (omega arith, tt)))))),
    ),
  );
  nonzero = λ e. absurd (omega arith);
}

dhsecret-dhexchange_example :
    (a : List ℕ) × (b : List ℕ) × (s : List ℕ) × (dhexchange mine ≡ some a)
    × (dhexchange yours ≡ some b)
    × (dhsecret a yours ≡ some s)
    × (dhsecret b mine ≡ some s)
dhsecret-dhexchange_example = dhsecret-dhexchange mine yours mine-IsKey yours-IsKey

powmodp_lem_example : powmodp 5 1234567 ≡ some (5 ^ 1234567 % prime)
powmodp_lem_example = powmodp_lem 5 1234567 (λ e. absurd (omega arith)) (omega arith) (omega arith)

tohex_run : tohex (0 ∷ 254 ∷ []) ≡ 48 ∷ 48 ∷ 102 ∷ 101 ∷ []
unfolding tohex hex
tohex_run = refl

-- `g` and `X` pass for digits.
fromhex_run : fromhex (103 ∷ 48 ∷ 48 ∷ 88 ∷ []) ≡ some (0 ∷ 1 ∷ [])
unfolding fromhex hex_pairs hex_value hex_byte
fromhex_run = refl

b64encode_run : b64encode (77 ∷ 97 ∷ []) ≡ 84 ∷ 87 ∷ 69 ∷ 61 ∷ []
unfolding b64encode b64digit
b64encode_run = refl

fromhex-tohex_example : fromhex (tohex (0 ∷ 254 ∷ [])) ≡ some (0 ∷ 254 ∷ [])
fromhex-tohex_example = fromhex-tohex (0 ∷ 254 ∷ []) (omega arith, (omega arith, tt))

b64decode-b64encode_example : b64decode (b64encode (77 ∷ 97 ∷ [])) ≡ some (77 ∷ 97 ∷ [])
b64decode-b64encode_example = b64decode-b64encode (77 ∷ 97 ∷ []) (omega arith, (omega arith, tt))
