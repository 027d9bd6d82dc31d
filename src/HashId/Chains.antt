-- ===== src/HashId/Chains.antt =====
-- The table as a finite map: an id is found exactly in the slot that holds it.
use native.Mathlib.Decide.{ℕ_discrete}
use game_server.Common.{
  ℕ, zero, suc, ◌+◌, ◌≤◌, ◌<◌, ◌≡◌, ◌≢◌, refl, sym, ap, ◌∙◌, inl, inr, true, false, Option, none,
  some, List, [], ◌∷◌, In, update, Bool-cases, Option-cases, arith,
}
use game_server.HashId.{HashId, bucket, holds, find_slot, lookup, unchain}

-- how many of the first `n` slots hold an id
abbrev pub occupied : Option ℕ → ℕ
occupied none = 0
occupied (some k) = 1

pub used : ℕ → (ℕ → Option ℕ) → ℕ
used zero id = 0
used (suc n) id = used n id + occupied (id n)

pub used-none : (n : ℕ) → used n (λ _. none) ≡ 0
unfolding used
used-none zero = refl
used-none (suc n) = omega (arith, used-none n)

pub record IsTable (hi : HashId) : Type 0 where
  pub found : (c k : ℕ) → hi.id c ≡ some k → lookup hi k ≡ some c
  pub placed : (b c : ℕ) → In c (hi.hash b) → (k : ℕ) × (hi.id c ≡ some k) × (bucket hi k ≡ b)
  pub once : (k : ℕ) → find_slot hi k (unchain hi k (hi.hash (bucket hi k))) ≡ none
  pub inside : (c k : ℕ) → hi.id c ≡ some k → c < hi.cap
  pub counted : hi.count ≡ used hi.cap hi.id

pub used-update_above :
    (n c : ℕ) (id : ℕ → Option ℕ) (v : Option ℕ) → n ≤ c → used n (update id c v) ≡ used n id
unfolding used
used-update_above zero c id v h = refl
used-update_above (suc n) c id v h = ground (arith, used-update_above n c id v)

-- One slot is written.
pub used-update :
    (n c : ℕ) (id : ℕ → Option ℕ) (v : Option ℕ)
    → c < n
    → used n (update id c v) + occupied (id c) ≡ used n id + occupied v
unfolding used
used-update zero c id v h = absurd (omega arith)
used-update (suc n) c id v h = elim (ℕ_discrete c n) [
  | yes e ↦
      let same : occupied (id c) ≡ occupied (id n) = ap (λ k. occupied (id k)) e in
      let here : occupied (update id c v n) ≡ occupied v = ground arith in
      omega (arith, used-update_above n c id v (omega arith))
  | no ne ↦
      let there : occupied (update id c v n) ≡ occupied (id n) = ground arith in
      omega (arith, used-update n c id v (omega arith))
]

-- A table that is not full has a free slot.
pub used-lt : (n : ℕ) (id : ℕ → Option ℕ) → used n id ≢ n → (j : ℕ) × (j < n) × (id j ≡ none)
unfolding used
used-lt zero id h = absurd (h refl)
used-lt (suc n) id h = elim (Option-cases (id n)) [
  | inl free ↦ (n, omega arith, free)
  | inr (k, e) ↦
      let one : occupied (id n) ≡ 1 = ap occupied e in
      let (j, lt, free) = used-lt n id (λ same. h (omega arith)) in (j, omega arith, free)
]

-- The walk depends only on what the slots of the chain hold.
pub find_slot_same :
    (hi hi' : HashId) (k : ℕ) (cs : List ℕ)
    → ((c : ℕ) → In c cs → holds hi' k c ≡ holds hi k c)
    → find_slot hi' k cs ≡ find_slot hi k cs
unfolding find_slot
find_slot_same hi hi' k [] h = refl
find_slot_same hi hi' k (c ∷ cs) h =
    rw (h c (inl refl), find_slot_same hi hi' k cs (λ d i. h d (inr i))) refl

pub unchain_same :
    (hi hi' : HashId) (k : ℕ) (cs : List ℕ)
    → ((c : ℕ) → In c cs → holds hi' k c ≡ holds hi k c)
    → unchain hi' k cs ≡ unchain hi k cs
unfolding unchain
unchain_same hi hi' k [] h = refl
unchain_same hi hi' k (c ∷ cs) h =
    rw (h c (inl refl), unchain_same hi hi' k cs (λ d i. h d (inr i))) refl

-- What is left of a chain was in it.
pub unchain-In : (hi : HashId) (k c : ℕ) (cs : List ℕ) → In c (unchain hi k cs) → In c cs
unfolding unchain
unchain-In hi k c [] i = i
unchain-In hi k c (d ∷ cs) i = elim (Bool-cases (holds hi k d)) [
  | inl t ↦ inr (rw t at i)
  | inr f ↦ elim (let j : In c (d ∷ unchain hi k cs) = rw f at i in j) [
    | inl e ↦ inl e
    | inr j ↦ inr (unchain-In hi k c cs j)
  ]
]

-- The walk ends at a slot of the chain that holds the id.
pub find_slot-holds :
    (hi : HashId) (k c : ℕ) (cs : List ℕ) → find_slot hi k cs ≡ some c → holds hi k c ≡ true
unfolding find_slot
find_slot-holds hi k c [] e = absurd (cc)
find_slot-holds hi k c (d ∷ cs) e = elim (Bool-cases (holds hi k d)) [
  | inl t ↦
      let same : d ≡ c = let e' : some d ≡ some c = rw t at e in ground arith in
      ap (holds hi k) (sym same) ∙ t
  | inr f ↦ find_slot-holds hi k c cs (rw f at e)
]

-- A slot that the walk passes over does not hold the id.
pub find_slot-none :
    (hi : HashId) (k c : ℕ) (cs : List ℕ)
    → find_slot hi k cs ≡ none
    → In c cs
    → holds hi k c ≡ false
unfolding find_slot
find_slot-none hi k c [] e i = elim i [ ]
find_slot-none hi k c (d ∷ cs) e i = elim (Bool-cases (holds hi k d)) [
  | inl t ↦ absurd (let e' : some d ≡ none = rw t at e in cc)
  | inr f ↦ elim i [
    | inl same ↦ ap (holds hi k) same ∙ f
    | inr j ↦ find_slot-none hi k c cs (rw f at e) j
  ]
]

pub holds-id : (hi : HashId) (k c : ℕ) → holds hi k c ≡ true → hi.id c ≡ some k
unfolding holds
holds-id hi k c e = elim (Option-cases (hi.id c)) [
  | inl z ↦ absurd (ground arith)
  | inr (j, s) ↦ let same : j ≡ k = ground arith in s ∙ ap some same
]

pub id-holds : (hi : HashId) (k c : ℕ) → hi.id c ≡ some k → holds hi k c ≡ true
unfolding holds
id-holds hi k c e = ground arith
