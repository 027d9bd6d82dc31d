-- ===== src/Mq/Global/Sound.antt =====
-- The invariant of the worker protocol: where every queue stands.
use mathlib.Core.Path.{subst}
use native.Mathlib.Decide.{ℕ_discrete}
use game_server.Common.{
  ℕ, ◌≡◌, ◌≢◌, refl, sym, ap, ◌∙◌, ◌⊎◌, inl, inr, Bool, true, false, none, some, List, In,
  Option-cases, arith,
}
use game_server.Mq.{MessageQueue}
use game_server.Mq.Valid.{IsValid}
use game_server.Mq.Global.{World, put}
use game_server.Mq.Global.Links.{Links-same}
use game_server.Mq.Global.Lists.{next_of, core, IsGlobal, Relinked}

-- A queue is in the global list or held by a thread, and marked for it; or it is neither, and empty.
pub data Standing (xs : List ℕ) (held : ℕ → Bool) (a : ℕ) (q : MessageQueue) : Type 0 where
  busy : In a xs ⊎ (held a ≡ true) → (q.in_global ≡ 1) ⊎ (q.release ≡ 1) → Standing xs held a q
  idle :
      ¬ In a xs
      → held a ≡ false
      → q.in_global ≡ 0
      → q.release ≡ 0
      → q.head ≡ q.tail
      → Standing xs held a q

-- The global queue is the list `xs`, and `held` are the queues that a thread works on, none of which
-- is in the list.
pub record IsSound (w : World) (xs : List ℕ) (held : ℕ → Bool) : Type 0 where
  pub global : IsGlobal w xs
  pub apart : (a : ℕ) → In a xs → held a ≡ false
  pub live : (a : ℕ) → held a ≡ true → w.queues a ≢ none
  pub standing : (a : ℕ) (q : MessageQueue) → w.queues a ≡ some q → Standing xs held a q
  pub rings : (a : ℕ) (q : MessageQueue) → w.queues a ≡ some q → IsValid q

-- What stands is the same for a queue with the same fields but `next`.
abbrev unlinked : MessageQueue → MessageQueue
unlinked q = record q { next = none }

Standing-unlinked :
    {xs : List ℕ} {held : ℕ → Bool} {a : ℕ} {p q : MessageQueue}
    → unlinked p ≡ unlinked q
    → Standing xs held a q
    → Standing xs held a p
Standing-unlinked e (busy i (inl g)) = busy i (inl (ap (λ r. r.in_global) e ∙ g))
Standing-unlinked e (busy i (inr g)) = busy i (inr (ap (λ r. r.release) e ∙ g))
Standing-unlinked e (idle i h g r t) =
    idle i h (ap (λ r. r.in_global) e ∙ g) (ap (λ r. r.release) e ∙ r)
      (ap (λ r. r.head) e ∙ t ∙ sym (ap (λ r. r.tail) e))

IsValid-unlinked : {p q : MessageQueue} → unlinked p ≡ unlinked q → IsValid q → IsValid p
IsValid-unlinked e v =
    let cap = ap (λ r. r.cap) e in
    let head = ap (λ r. r.head) e in
    let tail = ap (λ r. r.tail) e in
    let threshold = ap (λ r. r.overload_threshold) e in
    record {
      head_in = omega (arith, v.head_in, cap, head);
      tail_in = omega (arith, v.tail_in, cap, tail);
      positive = omega (arith, v.positive, threshold);
    }

-- The queue that a relinked one was before.
Relinked-from :
    {w w' : World} {xs : List ℕ} (a : ℕ) (p : MessageQueue)
    → Relinked w w' xs
    → w'.queues a ≡ some p
    → (q : MessageQueue) × (w.queues a ≡ some q) × (unlinked p ≡ unlinked q)
Relinked-from {w} {w'} a p r e =
    let c : some (unlinked p) ≡ core (w.queues a) = sym (ap core e) ∙ r.same a in
    elim (Option-cases (w.queues a)) [
      | inl z ↦ absurd (ground arith)
      | inr (q, s) ↦
          let d : some (unlinked p) ≡ some (unlinked q) = c ∙ ap core s in (q, s, ground arith)
    ]

Relinked-live :
    {w w' : World} {xs : List ℕ} (a : ℕ) → Relinked w w' xs → w.queues a ≢ none → w'.queues a ≢ none
Relinked-live {w} {w'} a r h e =
    let c : none ≡ core (w.queues a) = sym (ap core e) ∙ r.same a in
    elim (Option-cases (w.queues a)) [
      | inl z ↦ h z
      | inr (q, s) ↦ absurd (let d : none ≡ some (unlinked q) = c ∙ ap core s in cc)
    ]

-- A push or a pop of the list, with what is held changed along.
pub relink_IsSound :
    {w w' : World} {xs xs' : List ℕ} {held held' : ℕ → Bool}
    → IsSound w xs held
    → Relinked w w' xs'
    → ((a : ℕ) → In a xs' → held' a ≡ false)
    → ((a : ℕ) → held' a ≡ true → w.queues a ≢ none)
    → ((a : ℕ) (q : MessageQueue) → Standing xs held a q → Standing xs' held' a q)
    → IsSound w' xs' held'
relink_IsSound s r apart live moves = record {
  global = r.global;
  apart = apart;
  live = λ a h. Relinked-live a r (live a h);
  standing = λ a p e.
      let (q, f, u) = Relinked-from a p r e in Standing-unlinked u (moves a q (s.standing a q f));
  rings = λ a p e. let (q, f, u) = Relinked-from a p r e in IsValid-unlinked u (s.rings a q f);
}

next_of-some :
    (w : World) (a : ℕ) (q : MessageQueue) → w.queues a ≡ some q → next_of w a ≡ some q.next
next_of-some w a q e = rw (next_of, e) refl

next_of-put :
    (a b : ℕ) (w : World) (q q' : MessageQueue)
    → w.queues a ≡ some q
    → q'.next ≡ q.next
    → next_of (put a q' w) b ≡ next_of w b
next_of-put a b w q q' e n = elim (ℕ_discrete a b) [
  | yes d ↦
      let there : next_of w b ≡ some q.next = ap (next_of w) (sym d) ∙ next_of-some w a q e in
      let here : next_of (put a q' w) b ≡ some q'.next = ground arith in
      here ∙ ap some n ∙ sym there
  | no d ↦ ground arith
]

put-IsGlobal :
    (a : ℕ) (w : World) (xs : List ℕ) (q q' : MessageQueue)
    → IsGlobal w xs
    → w.queues a ≡ some q
    → q'.next ≡ q.next
    → IsGlobal (put a q' w) xs
put-IsGlobal a w xs q q' g e n = record {
  head = g.head;
  tail = g.tail;
  links =
      Links-same (next_of w) (next_of (put a q' w)) xs (λ b i. next_of-put a b w q q' e n) g.links;
  distinct = g.distinct;
  apart = λ b p f i. elim (ℕ_discrete a b) [
    | yes d ↦ let mine : q.next ≡ none = g.apart b q (ap w.queues (sym d) ∙ e) i in ground arith
    | no d ↦ g.apart b p (ground arith) i
  ];
}

pub Standing-held :
    {xs : List ℕ} {held held' : ℕ → Bool} {a : ℕ} {q : MessageQueue}
    → held' a ≡ held a
    → Standing xs held a q
    → Standing xs held' a q
Standing-held e (busy (inl i) g) = busy (inl i) g
Standing-held e (busy (inr h) g) = busy (inr (e ∙ h)) g
Standing-held e (idle i h g r t) = idle i (e ∙ h) g r t

-- One queue is written, and may be taken or let go.
pub put_IsSound :
    (a : ℕ) {w : World} {xs : List ℕ} {held held' : ℕ → Bool} (q q' : MessageQueue)
    → IsSound w xs held
    → w.queues a ≡ some q
    → q'.next ≡ q.next
    → IsValid q'
    → ((b : ℕ) → b ≢ a → held' b ≡ held b)
    → (In a xs → held' a ≡ false)
    → Standing xs held' a q'
    → IsSound (put a q' w) xs held'
put_IsSound a {w} {xs} {held} {held'} q q' s e n v others mine st = record {
  global = put-IsGlobal a w xs q q' s.global e n;
  apart = λ b i. elim (ℕ_discrete b a) [
    | yes d ↦ ap held' d ∙ mine (subst (λ k. In k xs) d i)
    | no d ↦ others b d ∙ s.apart b i
  ];
  live = λ b h. elim (ℕ_discrete b a) [
    | yes d ↦ λ z. ground arith
    | no d ↦ λ z. s.live b (sym (others b d) ∙ h) (ground arith)
  ];
  standing = λ b p f. elim (ℕ_discrete b a) [
    | yes d ↦
        let same : q' ≡ p = ground arith in
        subst (λ k. Standing xs held' k p) (sym d) (subst (Standing xs held' a) same st)
    | no d ↦
        let f' : w.queues b ≡ some p = ground arith in
        Standing-held (others b d) (s.standing b p f')
  ];
  rings = λ b p f. elim (ℕ_discrete b a) [
    | yes d ↦ let same : q' ≡ p = ground arith in subst IsValid same v
    | no d ↦ let f' : w.queues b ≡ some p = ground arith in s.rings b p f'
  ];
}
