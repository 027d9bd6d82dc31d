-- ===== src/Mq/Global/Moves.antt =====
-- Every operation of skynet_mq.c on the global queue succeeds where its caller may call it, and keeps
-- the invariant.
use mathlib.Core.Path.{subst}
use native.Mathlib.Decide.{ℕ_discrete}
use game_server.Common.{
  ℕ, ◌≡◌, ◌≢◌, sym, ap, ◌∙◌, ◌⊎◌, inl, inr, Bool, true, false, none, some, List, [], ◌∷◌, ◌++◌, In,
  In-append_left, In-append_right, update, Option-cases, arith,
}
use game_server.Mq.{MessageQueue}
use game_server.Mq.Global.{World, globalmq_push, globalmq_pop}
use game_server.Mq.Global.Links.{In-snoc}
use game_server.Mq.Global.Lists.{IsGlobal, push_lem, pop_lem, Links-In, next_of}
use game_server.Mq.Global.Sound.{Standing, busy, idle, IsSound, relink_IsSound}

abbrev pub hold : (ℕ → Bool) → ℕ → ℕ → Bool
hold held a = update held a true

abbrev pub let_go : (ℕ → Bool) → ℕ → ℕ → Bool
let_go held a = update held a false

pub absent :
    {held : ℕ → Bool} {w : World} {xs : List ℕ} (a : ℕ)
    → IsSound w xs held
    → held a ≡ true
    → ¬ In a xs
absent a s h i = let f = s.apart a i in absurd (ground arith)

other_than : (held : ℕ → Bool) (a b : ℕ) → held a ≡ true → held b ≡ false → b ≢ a
other_than held a b h k d = let f : held a ≡ false = ap held (sym d) ∙ k in absurd (ground arith)

enlisted :
    (a b : ℕ) {xs : List ℕ} {held : ℕ → Bool} {p : MessageQueue}
    → held a ≡ true
    → Standing xs held b p
    → Standing (xs ++ (a ∷ [])) (let_go held a) b p
enlisted a b {xs} h (busy (inl i) g) = busy (inl (In-append_left b xs (a ∷ []) i)) g
enlisted a b {xs} {held} h (busy (inr k) g) = elim (ℕ_discrete b a) [
  | yes d ↦ busy (inl (In-append_right b xs (a ∷ []) (inl d))) g
  | no d ↦ let still : let_go held a b ≡ true = ground arith in busy (inr still) g
]
enlisted a b {xs} {held} h (idle i k g r t) =
    let free : let_go held a b ≡ false = ground arith in
    idle (λ j. elim (In-snoc xs a b j) [ inl m ↦ i m | inr d ↦ other_than held a b h k d ]) free g r
      t

-- A held queue goes to the end of the list.
pub enlist :
    (a : ℕ) {w : World} {xs : List ℕ} {held : ℕ → Bool}
    → IsSound w xs held
    → held a ≡ true
    → (w' : World) × (globalmq_push a w ≡ some w') × IsSound w' (xs ++ (a ∷ [])) (let_go held a)
enlist a {w} {xs} {held} s h = elim (Option-cases (w.queues a)) [
  | inl z ↦ absurd (s.live a h z)
  | inr (q, e) ↦
      let (w', run, r) = push_lem a w xs q s.global e (absent a s h) in
      (
        w',
        run,
        relink_IsSound s r
            (λ b i. elim (In-snoc xs a b i) [
              | inl j ↦ let f = s.apart b j in ground arith
              | inr d ↦ ground arith
            ])
            (λ b k. s.live b (ground arith)) (λ b p st. enlisted a b h st),
      )
]

taken :
    (x b : ℕ) {xs : List ℕ} {held : ℕ → Bool} {p : MessageQueue}
    → Standing (x ∷ xs) held b p
    → Standing xs (hold held x) b p
taken x b {xs} {held} (busy (inl (inl d)) g) =
    let mine : hold held x b ≡ true = ground arith in busy (inr mine) g
taken x b (busy (inl (inr i)) g) = busy (inl i) g
taken x b {xs} {held} (busy (inr k) g) =
    let still : hold held x b ≡ true = ground arith in busy (inr still) g
taken x b {xs} {held} (idle i k g r t) =
    let ne : b ≢ x = λ d. i (inl d) in
    let free : hold held x b ≡ false = ground arith in idle (λ j. i (inr j)) free g r t

pub linked_live : (w : World) (xs : List ℕ) (a : ℕ) → IsGlobal w xs → In a xs → w.queues a ≢ none
linked_live w xs a g i e = let (n, f) = Links-In (next_of w) xs a g.links i in absurd (ground arith)

-- The first queue of the list is held by the thread that takes it.
pub take_first :
    (x : ℕ) {w : World} {xs : List ℕ} {held : ℕ → Bool}
    → IsSound w (x ∷ xs) held
    → (w' : World) × (globalmq_pop w ≡ some (some x, w')) × IsSound w' xs (hold held x)
take_first x {w} {xs} {held} s =
    let (w', run, r) = pop_lem w x xs s.global in
    (
      w',
      run,
      relink_IsSound s r
          (λ b i.
            let ne : b ≢ x = λ d. s.global.distinct.0 (subst (λ k. In k xs) d i) in
            let f = s.apart b (inr i) in ground arith)
          (λ b k. elim (ℕ_discrete b x) [
            | yes d ↦ linked_live w (x ∷ xs) b s.global (inl d)
            | no d ↦ s.live b (ground arith)
          ])
          (λ b p st. taken x b st),
    )

-- the marks of a queue that a thread holds
pub held_marks :
    (a : ℕ) {xs : List ℕ} {held : ℕ → Bool} {q : MessageQueue}
    → held a ≡ true
    → Standing xs held a q
    → (q.in_global ≡ 1) ⊎ (q.release ≡ 1)
held_marks a h (busy i g) = g
held_marks a h (idle i k g r t) = absurd (ground arith)
