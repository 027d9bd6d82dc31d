-- ===== src/Timer/Slots.antt =====
-- Where a node stands, by arithmetic: the code's masks and loops, read as quotients.
use native.Mathlib.Decide.{ℕ_discrete}
use game_server.Common.{
  ℕ, ◌+◌, ◌-◌, ◌/◌, ◌%◌, ◌^◌, ◌<◌, ◌≡◌, ◌≢◌, ◌⊎◌, inl, inr, refl, sym, ap, ◌∙◌, none, some, arith,
}
use game_server.Timer.{close, far, slot, due_list, uint32}

-- Ticks from `t` to `e`, on the 32-bit clock.
abbrev pub distance : ℕ → ℕ → ℕ
distance e t = (e + 2 ^ 32 - t) % 2 ^ 32

-- The five cases of `add_node`.
pub slot_close : (e t : ℕ) → e / 2 ^ 8 ≡ t / 2 ^ 8 → slot e t ≡ close (e % 2 ^ 8)
unfolding slot
slot_close e t h = ground arith

pub slot_far0 :
    (e t : ℕ)
    → e / 2 ^ 8 ≢ t / 2 ^ 8
    → e / 2 ^ 14 ≡ t / 2 ^ 14
    → slot e t ≡ far 0 (e / 2 ^ 8 % 2 ^ 6)
unfolding slot
slot_far0 e t h0 h1 = ground arith

pub slot_far1 :
    (e t : ℕ)
    → e / 2 ^ 14 ≢ t / 2 ^ 14
    → e / 2 ^ 20 ≡ t / 2 ^ 20
    → slot e t ≡ far 1 (e / 2 ^ 14 % 2 ^ 6)
unfolding slot
slot_far1 e t h0 h1 = ground arith

pub slot_far2 :
    (e t : ℕ)
    → e / 2 ^ 20 ≢ t / 2 ^ 20
    → e / 2 ^ 26 ≡ t / 2 ^ 26
    → slot e t ≡ far 2 (e / 2 ^ 20 % 2 ^ 6)
unfolding slot
slot_far2 e t h0 h1 = ground arith

pub slot_far3 : (e t : ℕ) → e / 2 ^ 26 ≢ t / 2 ^ 26 → slot e t ≡ far 3 (e / 2 ^ 26 % 2 ^ 6)
unfolding slot
slot_far3 e t h0 = ground arith

-- The five outcomes of the loop of `timer_shift` at a new time other than 0.
pub due_list_0 : (ct : ℕ) → ct % 2 ^ 8 ≢ 0 → due_list ct ≡ some none
unfolding due_list
due_list_0 ct h = ground arith

pub due_list_1 :
    (ct : ℕ)
    → ct % 2 ^ 8 ≡ 0
    → ct / 2 ^ 8 % 2 ^ 6 ≢ 0
    → due_list ct ≡ some (some (0, ct / 2 ^ 8 % 2 ^ 6))
unfolding due_list
due_list_1 ct h k = ground arith

pub due_list_2 :
    (ct : ℕ)
    → ct % 2 ^ 14 ≡ 0
    → ct / 2 ^ 14 % 2 ^ 6 ≢ 0
    → due_list ct ≡ some (some (1, ct / 2 ^ 14 % 2 ^ 6))
unfolding due_list
due_list_2 ct h k = ground arith

pub due_list_3 :
    (ct : ℕ)
    → ct % 2 ^ 20 ≡ 0
    → ct / 2 ^ 20 % 2 ^ 6 ≢ 0
    → due_list ct ≡ some (some (2, ct / 2 ^ 20 % 2 ^ 6))
unfolding due_list
due_list_3 ct h k = ground arith

pub due_list_4 :
    (ct : ℕ)
    → ct % 2 ^ 26 ≡ 0
    → ct / 2 ^ 26 % 2 ^ 6 ≢ 0
    → due_list ct ≡ some (some (3, ct / 2 ^ 26 % 2 ^ 6))
unfolding due_list
due_list_4 ct h k = ground arith

-- `e` is in the block of `t` exactly when it is in that of `u`, for blocks of `p` ticks.
abbrev Together : ℕ → ℕ → ℕ → ℕ → Type 0
Together p e t u = ((e / p ≡ t / p) × (e / p ≡ u / p)) ⊎ ((e / p ≢ t / p) × (e / p ≢ u / p))

same_block : (p e t u : ℕ) → t / p ≡ u / p → Together p e t u
same_block p e t u h = elim (ℕ_discrete (e / p) (t / p)) [
  | yes q ↦ inl (q, q ∙ h)
  | no q ↦ inr (q, λ r. q (r ∙ sym h))
]

-- The slot depends on the time by the four tests only.
slot_congr :
    (e t u : ℕ)
    → Together (2 ^ 8) e t u
    → Together (2 ^ 14) e t u
    → Together (2 ^ 20) e t u
    → Together (2 ^ 26) e t u
    → slot e u ≡ slot e t
unfolding slot
slot_congr e t u a b c d = ground arith

-- A node that is ahead of the time.
abbrev pub Ahead : ℕ → ℕ → Type 0
Ahead e t = (e < 2 ^ 32) × (t < 2 ^ 32) × (0 < distance e t) × (distance e t < 2 ^ 31)

-- The lists that hold nodes which the step of time puts elsewhere are the list that it moves.
abbrev pub Settled : ℕ → ℕ → Type 0
Settled e t =
    let u = uint32 (t + 1) in
    (slot e u ≡ slot e t)
    ⊎ ((l : ℕ) × (i : ℕ) × (due_list u ≡ some (some (l, i))) × (slot e t ≡ far l i))

module _ (e t : ℕ) (a : Ahead e t) (c : ℕ) (next : c ≡ t + 1) where
  -- the higher blocks are those of the old time
  step_0 : c % 2 ^ 8 ≢ 0 → slot e c ≡ slot e t
  step_0 h =
      slot_congr e t c (same_block (2 ^ 8) e t c (omega arith))
        (same_block (2 ^ 14) e t c (omega arith)) (same_block (2 ^ 20) e t c (omega arith))
        (same_block (2 ^ 26) e t c (omega arith))

  Moves : Type 0
  Moves =
      (slot e c ≡ slot e t)
      ⊎ ((l : ℕ) × (i : ℕ) × (due_list c ≡ some (some (l, i))) × (slot e t ≡ far l i))

  step_1 : c % 2 ^ 8 ≡ 0 → c / 2 ^ 8 % 2 ^ 6 ≢ 0 → Moves
  unfolding Moves
  step_1 h k = elim (ℕ_discrete (e / 2 ^ 8) (c / 2 ^ 8)) [
    | yes q ↦ inr (
      0,
      c / 2 ^ 8 % 2 ^ 6,
      due_list_1 c h k,
      slot_far0 e t (omega arith) (omega arith) ∙ ap (λ n. far 0 (n % 2 ^ 6)) q,
    )
    | no q ↦ inl (
        slot_congr e t c (inr (omega arith, q)) (same_block (2 ^ 14) e t c (omega arith))
          (same_block (2 ^ 20) e t c (omega arith)) (same_block (2 ^ 26) e t c (omega arith)))
  ]

  step_2 : c % 2 ^ 14 ≡ 0 → c / 2 ^ 14 % 2 ^ 6 ≢ 0 → Moves
  unfolding Moves
  step_2 h k = elim (ℕ_discrete (e / 2 ^ 14) (c / 2 ^ 14)) [
    | yes q ↦ inr (
      1,
      c / 2 ^ 14 % 2 ^ 6,
      due_list_2 c h k,
      slot_far1 e t (omega arith) (omega arith) ∙ ap (λ n. far 1 (n % 2 ^ 6)) q,
    )
    | no q ↦ inl (
        slot_congr e t c (inr (omega arith, omega arith)) (inr (omega arith, q))
          (same_block (2 ^ 20) e t c (omega arith)) (same_block (2 ^ 26) e t c (omega arith)))
  ]

  step_3 : c % 2 ^ 20 ≡ 0 → c / 2 ^ 20 % 2 ^ 6 ≢ 0 → Moves
  unfolding Moves
  step_3 h k = elim (ℕ_discrete (e / 2 ^ 20) (c / 2 ^ 20)) [
    | yes q ↦ inr (
      2,
      c / 2 ^ 20 % 2 ^ 6,
      due_list_3 c h k,
      slot_far2 e t (omega arith) (omega arith) ∙ ap (λ n. far 2 (n % 2 ^ 6)) q,
    )
    | no q ↦ inl (
        slot_congr e t c (inr (omega arith, omega arith)) (inr (omega arith, omega arith))
          (inr (omega arith, q)) (same_block (2 ^ 26) e t c (omega arith)))
  ]

  step_4 : c % 2 ^ 26 ≡ 0 → c / 2 ^ 26 % 2 ^ 6 ≢ 0 → Moves
  unfolding Moves
  step_4 h k = elim (ℕ_discrete (e / 2 ^ 26) (c / 2 ^ 26)) [
    | yes q ↦ inr (
      3,
      c / 2 ^ 26 % 2 ^ 6,
      due_list_4 c h k,
      slot_far3 e t (omega arith) ∙ ap (λ n. far 3 (n % 2 ^ 6)) q,
    )
    | no q ↦ inl (
        slot_congr e t c (inr (omega arith, omega arith)) (inr (omega arith, omega arith))
          (inr (omega arith, omega arith)) (inr (omega arith, q)))
  ]

  step_up : c < 2 ^ 32 → Moves
  unfolding Moves
  step_up small = elim (ℕ_discrete (c % 2 ^ 8) 0) [
    | no k ↦ inl (step_0 k)
    | yes h ↦ elim (ℕ_discrete (c / 2 ^ 8 % 2 ^ 6) 0) [
      | no k ↦ step_1 h k
      | yes h2 ↦ elim (ℕ_discrete (c / 2 ^ 14 % 2 ^ 6) 0) [
        | no k ↦ step_2 (omega arith) k
        | yes h3 ↦ elim (ℕ_discrete (c / 2 ^ 20 % 2 ^ 6) 0) [
          | no k ↦ step_3 (omega arith) k
          | yes h4 ↦ step_4 (omega arith) (omega arith)
        ]
      ]
    ]
  ]

-- The clock goes round: everything ahead stands in row 3, and its first list is moved.
step_round : (e : ℕ) → Ahead e (2 ^ 32 - 1) → Settled e (2 ^ 32 - 1)
step_round e a = elim (ℕ_discrete (e / 2 ^ 26) 0) [
  | yes q ↦ inr (
    3,
    0,
    unfold due_list in refl,
    slot_far3 e (2 ^ 32 - 1) (omega arith) ∙ ap (λ n. far 3 (n % 2 ^ 6)) q,
  )
  | no q ↦ inl (slot_far3 e 0 (omega arith) ∙ sym (slot_far3 e (2 ^ 32 - 1) (omega arith)))
]

-- A node that is ahead is in its slot at the next tick, or in the list that the tick moves.
pub Ahead-Settled : (e t : ℕ) → Ahead e t → Settled e t
unfolding Moves
Ahead-Settled e t a = elim (ℕ_discrete t (2 ^ 32 - 1)) [
  | yes q ↦ rw q (step_round e (rw q at a))
  | no q ↦
      let c : uint32 (t + 1) ≡ t + 1 = omega arith in
      rw c (step_up e t a (t + 1) refl (omega arith))
]

-- The loop of `timer_shift` ends within its rounds, and what it moves is a list of the wheel.
pub due_list_total :
    (ct : ℕ)
    → ct < 2 ^ 32
    → (due_list ct ≡ some none)
      ⊎ ((l : ℕ) × (i : ℕ) × (due_list ct ≡ some (some (l, i))) × (l < 4) × (i < 2 ^ 6))
due_list_total ct h = elim (ℕ_discrete (ct % 2 ^ 8) 0) [
  | no k ↦ inl (due_list_0 ct k)
  | yes h1 ↦ elim (ℕ_discrete (ct / 2 ^ 8 % 2 ^ 6) 0) [
    | no k ↦ inr (0, _, due_list_1 ct h1 k, omega arith, omega arith)
    | yes h2 ↦ elim (ℕ_discrete (ct / 2 ^ 14 % 2 ^ 6) 0) [
      | no k ↦ inr (1, _, due_list_2 ct (omega arith) k, omega arith, omega arith)
      | yes h3 ↦ elim (ℕ_discrete (ct / 2 ^ 20 % 2 ^ 6) 0) [
        | no k ↦ inr (2, _, due_list_3 ct (omega arith) k, omega arith, omega arith)
        | yes h4 ↦ elim (ℕ_discrete ct 0) [
          | no k ↦ inr (3, _, due_list_4 ct (omega arith) (omega arith), omega arith, omega arith)
          | yes z ↦ inr (3, 0, rw z (unfold due_list in refl), omega arith, omega arith)
        ]
      ]
    ]
  ]
]
