-- ===== src/Mq/Global/Lists.antt =====
-- `skynet_globalmq_push` and `skynet_globalmq_pop` keep a list: one appends, the other takes the first.
use mathlib.Core.Path.{subst}
use native.Mathlib.Decide.{ℕ_discrete}
use game_server.Common.{
  ℕ, ◌≡◌, ◌≢◌, refl, sym, ap, ◌∙◌, inl, inr, true, Option, none, some, List, [], ◌∷◌, ◌++◌, In,
  In-append_left, ◌==◌, update, Option-cases, arith,
}
use game_server.Mq.{MessageQueue}
use game_server.Mq.Global.{World, put, globalmq_push, globalmq_pop}
use game_server.Mq.Global.Links.{
  first, last, Nodup, Links, last-In, last-some, last_snoc, Nodup-snoc, Links-same, Links-snoc,
}

abbrev pub next_of : World → ℕ → Option (Option ℕ)
next_of w a = elim (w.queues a) [ none ↦ none | some q ↦ some q.next ]

-- What a queue is without its place in the list.
abbrev pub core : Option MessageQueue → Option MessageQueue
core none = none
core (some q) = some (record q { next = none })

-- The global queue is the list `xs`; a queue that is not in it has no `next`.
pub record IsGlobal (w : World) (xs : List ℕ) : Type 0 where
  pub head : w.head ≡ first xs
  pub tail : w.tail ≡ last xs
  pub links : Links (next_of w) xs
  pub distinct : Nodup xs
  pub apart : (a : ℕ) (q : MessageQueue) → w.queues a ≡ some q → ¬ In a xs → q.next ≡ none

-- The step to a world whose global queue is `xs`, with all queues otherwise as before.
pub record Relinked (w w' : World) (xs : List ℕ) : Type 0 where
  pub global : IsGlobal w' xs
  pub same : (b : ℕ) → core (w'.queues b) ≡ core (w.queues b)

core-put :
    (w : World) (t b : ℕ) (l : MessageQueue) (n : Option ℕ)
    → w.queues t ≡ some l
    → core (update w.queues t (some (record l { next = n })) b) ≡ core (w.queues b)
core-put w t b l n e = elim (ℕ_discrete t b) [ yes p ↦ ground (arith, e) | no p ↦ ground arith ]

push_empty :
    (a : ℕ) (w : World) (q : MessageQueue)
    → w.queues a ≡ some q
    → q.next ≡ none
    → w.tail ≡ none
    → globalmq_push a w ≡ some (record w { head = some a; tail = some a })
unfolding globalmq_push
push_empty a w q e n t = rw (globalmq_push, e, n, t) refl

push_behind :
    (a t : ℕ) (w : World) (q l : MessageQueue)
    → w.queues a ≡ some q
    → q.next ≡ none
    → w.tail ≡ some t
    → w.queues t ≡ some l
    → globalmq_push a w ≡ some (record (put t (record l { next = some a }) w) { tail = some a })
unfolding globalmq_push
push_behind a t w q l e n et el = rw (globalmq_push, e, n, et, el) refl

-- A queue that is linked is in memory.
pub linked_queue :
    (w : World) (t : ℕ) {n : Option ℕ}
    → next_of w t ≡ some n
    → (l : MessageQueue) × (w.queues t ≡ some l) × (l.next ≡ n)
linked_queue w t {n} e = elim (Option-cases (w.queues t)) [
  | inl z ↦ absurd (ground arith)
  | inr (l, s) ↦ (l, s, ground arith)
]

pub Links-In :
    (f : ℕ → Option (Option ℕ)) (xs : List ℕ) (a : ℕ)
    → Links f xs
    → In a xs
    → (n : Option ℕ) × (f a ≡ some n)
Links-In f [] a l i = elim i [ ]
Links-In f (x ∷ xs) a l (inl e) = (first xs, ap f e ∙ l.0)
Links-In f (x ∷ xs) a l (inr i) = Links-In f xs a l.1 i

-- The world after a push to a list that ends with `t`, and after a pop of `x`.
abbrev pushed : ℕ → ℕ → MessageQueue → World → World
pushed a t l w = record (put t (record l { next = some a }) w) { tail = some a }

next_of-pushed :
    (a t b : ℕ) (l : MessageQueue) (w : World) → b ≢ t → next_of (pushed a t l w) b ≡ next_of w b
next_of-pushed a t b l w ne = ground arith

pushed-IsGlobal :
    (a t : ℕ) (w : World) (x : ℕ) (xs : List ℕ) (q l : MessageQueue)
    → IsGlobal w (x ∷ xs)
    → w.queues a ≡ some q
    → ¬ In a (x ∷ xs)
    → last (x ∷ xs) ≡ some t
    → w.queues t ≡ some l
    → IsGlobal (pushed a t l w) (x ∷ (xs ++ (a ∷ [])))
pushed-IsGlobal a t w x xs q l g e n et el =
    let free : q.next ≡ none = g.apart a q e n in
    let here : next_of w a ≡ some none = ground arith in
    let there : next_of (pushed a t l w) t ≡ some (some a) = ground arith in
    record {
      head = g.head;
      tail = sym (last_snoc (x ∷ xs) a);
      links =
          Links-snoc (next_of w) (next_of (pushed a t l w)) (x ∷ xs) t a g.links g.distinct n et
            here there (λ b ne. next_of-pushed a t b l w ne);
      distinct = Nodup-snoc (x ∷ xs) a g.distinct n;
      apart = λ b q' e' n'.
          let i = In-append_left t (x ∷ xs) (a ∷ []) (last-In (x ∷ xs) t et) in
          let ne : b ≢ t = λ b_t. n' (subst (λ k. In k (x ∷ (xs ++ (a ∷ [])))) (sym b_t) i) in
          let e'' : w.queues b ≡ some q' = ground arith in
          g.apart b q' e'' (λ j. n' (In-append_left b (x ∷ xs) (a ∷ []) j));
    }

-- What `skynet_globalmq_push` does with a queue that is in memory and not in the list.
pub push_lem :
    (a : ℕ) (w : World) (xs : List ℕ) (q : MessageQueue)
    → IsGlobal w xs
    → w.queues a ≡ some q
    → ¬ In a xs
    → (w' : World) × (globalmq_push a w ≡ some w') × Relinked w w' (xs ++ (a ∷ []))
push_lem a w [] q g e n =
    let free : q.next ≡ none = g.apart a q e n in
    let here : next_of w a ≡ some none = ground arith in
    let w' = record w { head = some a; tail = some a } in
    (
      w',
      push_empty a w q e free g.tail,
      record {
        global = record {
          head = refl;
          tail = refl;
          links = (here, tt);
          distinct = ((λ h. h), tt);
          apart = λ b q' e' n'. g.apart b q' e' (λ h. h);
        };
        same = λ b. refl;
      },
    )
push_lem a w (x ∷ xs) q g e n =
    let (t, et) = last-some x xs in
    let (m, linked) = Links-In (next_of w) (x ∷ xs) t g.links (last-In (x ∷ xs) t et) in
    let (l, el, nl) = linked_queue w t linked in
    (
      pushed a t l w,
      push_behind a t w q l e (g.apart a q e n) (g.tail ∙ et) el,
      record {
        global = pushed-IsGlobal a t w x xs q l g e n et el;
        same = λ b. core-put w t b l (some a) el;
      },
    )

abbrev popped : ℕ → MessageQueue → Option ℕ → Option ℕ → World → World
popped x l head tail w = record (put x (record l { next = none }) w) { head = head; tail = tail }

next_of-popped :
    (x b : ℕ) (l : MessageQueue) (h t : Option ℕ) (w : World)
    → b ≢ x
    → next_of (popped x l h t w) b ≡ next_of w b
next_of-popped x b l h t w ne = ground arith

popped-IsGlobal :
    (w : World) (x : ℕ) (xs : List ℕ) (l : MessageQueue) (t : Option ℕ)
    → IsGlobal w (x ∷ xs)
    → w.queues x ≡ some l
    → t ≡ last xs
    → IsGlobal (popped x l (first xs) t w) xs
popped-IsGlobal w x xs l t g e et = record {
  head = refl;
  tail = et;
  links =
      Links-same (next_of w) (next_of (popped x l (first xs) t w)) xs
        (λ b i.
          next_of-popped x b l (first xs) t w (λ b_x. g.distinct.0 (subst (λ k. In k xs) b_x i)))
        g.links.1;
  distinct = g.distinct.1;
  apart = λ b q e' n. elim (ℕ_discrete b x) [
    | yes p ↦ ground arith
    | no p ↦
        let e'' : w.queues b ≡ some q = ground arith in
        g.apart b q e'' (λ i. elim i [ inl b_x ↦ p b_x | inr j ↦ n j ])
  ];
}

pop_last :
    (w : World) (x : ℕ) (l : MessageQueue)
    → w.head ≡ some x
    → w.tail ≡ some x
    → w.queues x ≡ some l
    → l.next ≡ none
    → globalmq_pop w ≡ some (some x, popped x l none none w)
unfolding globalmq_pop
pop_last w x l h t e n =
    let same : (x == x) ≡ true = ground arith in rw (globalmq_pop, h, e, n, t, same) refl

pop_inner :
    (w : World) (x y : ℕ) (l : MessageQueue)
    → w.head ≡ some x
    → w.queues x ≡ some l
    → l.next ≡ some y
    → globalmq_pop w ≡ some (some x, popped x l (some y) w.tail w)
unfolding globalmq_pop
pop_inner w x y l h e n = rw (globalmq_pop, h, e, n) refl

-- `skynet_globalmq_pop` takes the first queue of the list, and finds none only in an empty list.
pub pop_lem :
    (w : World) (x : ℕ) (xs : List ℕ)
    → IsGlobal w (x ∷ xs)
    → (w' : World) × (globalmq_pop w ≡ some (some x, w')) × Relinked w w' xs
pop_lem w x [] g =
    let (l, el, nl) = linked_queue w x g.links.0 in
    (
      popped x l none none w,
      pop_last w x l g.head g.tail el nl,
      record {
        global = popped-IsGlobal w x [] l none g el refl;
        same = λ b. core-put w x b l none el;
      },
    )
pop_lem w x (y ∷ xs) g =
    let (l, el, nl) = linked_queue w x g.links.0 in
    (
      popped x l (some y) w.tail w,
      pop_inner w x y l g.head el nl,
      record {
        global = popped-IsGlobal w x (y ∷ xs) l w.tail g el g.tail;
        same = λ b. core-put w x b l none el;
      },
    )

pub pop_none : (w : World) → IsGlobal w [] → globalmq_pop w ≡ some (none, w)
unfolding globalmq_pop
pop_none w g = ground (arith, g.head)
