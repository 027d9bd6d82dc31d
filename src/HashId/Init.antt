-- ===== src/HashId/Init.antt =====
-- `hashid_init`: an empty table, with a power of two as the number of its buckets.
use native.Mathlib.Nat.{pow-suc}
use game_server.Common.{
  ℕ, zero, suc, ◌+◌, ◌-◌, ◌*◌, ◌^◌, ◌≤◌, ◌<◌, ◌≡◌, refl, sym, ap, ◌∙◌, inl, inr, none, some, [],
  ltb, Bool-cases, arith,
}
use game_server.HashId.{HashId, find_slot, lookup, unchain, grow_cap, init}
use game_server.HashId.Chains.{used-none, IsTable}

-- Doubling reaches `max` before the fuel ends, and stays at a power of two.
grow_cap_lem :
    (n hashcap max p : ℕ)
    → hashcap ≡ 2 ^ p
    → 0 < hashcap
    → max ≤ hashcap + n
    → (r : ℕ) × (q : ℕ) × (grow_cap (suc n) hashcap max ≡ some r)
      × (r ≡ 2 ^ q)
      × (0 < r)
      × (max ≤ r)
unfolding grow_cap
grow_cap_lem zero hashcap max p e pos le = (hashcap, p, ground arith, e, pos, omega arith)
grow_cap_lem (suc n) hashcap max p e pos le = elim (Bool-cases (ltb hashcap max)) [
  | inl t ↦
      let twice : hashcap * 2 ≡ 2 ^ suc p = ap (λ x. x * 2) e ∙ sym (pow-suc 2 p) in
      let (r, q, run, power, above, enough) =
        grow_cap_lem n (hashcap * 2) max (suc p) twice (omega arith) (omega arith) in
      (r, q, rw t run, power, above, enough)
  | inr f ↦ (hashcap, p, rw f refl, e, pos, ground arith)
]

abbrev pub emptied : ℕ → ℕ → HashId
emptied hashcap max = record {
  hashmod = hashcap - 1;
  cap = max;
  count = 0;
  id = λ _. none;
  hash = λ _. [];
}

pub emptied-IsTable : (hashcap max : ℕ) → IsTable (emptied hashcap max)
unfolding find_slot unchain
emptied-IsTable hashcap max = record {
  found = λ c k e. absurd (cc);
  placed = λ b c i. elim i [ ];
  once = λ k. refl;
  inside = λ c k e. absurd (cc);
  counted = sym (used-none max);
}

-- `hashid_init` ends with a valid table of `max` slots in which no id is found; the number of buckets is
-- a power of two and at least `max`.
init_lem :
    (max : ℕ)
    → (hi : HashId) × (q : ℕ) × (init max ≡ some hi)
      × IsTable hi
      × (hi.cap ≡ max)
      × (hi.hashmod + 1 ≡ 2 ^ q)
      × (max ≤ hi.hashmod + 1)
      × ((k : ℕ) → lookup hi k ≡ none)
unfolding init lookup find_slot
init_lem max =
    let (r, q, run, power, pos, enough) =
      grow_cap_lem max 16 max 4 refl (omega arith) (omega arith) in
    let whole : r - 1 + 1 ≡ r = omega arith in
    (
      emptied r max,
      q,
      rw (init, run) refl,
      emptied-IsTable r max,
      refl,
      whole ∙ power,
      omega arith,
      λ k. refl,
    )
