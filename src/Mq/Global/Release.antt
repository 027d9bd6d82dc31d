-- ===== src/Mq/Global/Release.antt =====
-- `skynet_mq_release` and `skynet_mq_create`: a queue leaves the memory or comes into it.
use mathlib.Core.Path.{subst}
use native.Mathlib.Decide.{ℕ_discrete}
use game_server.Common.{
  ℕ, suc, ◌≡◌, ◌≢◌, refl, sym, ap, ◌∙◌, ◌⊎◌, inl, inr, Bool, true, false, Option, none, some, List,
  [], ◌∷◌, ◌++◌, In, ◌==◌, update, arith,
}
use game_server.Mq.{Message, MessageQueue, mq_length, create}
use game_server.Mq.Valid.{IsValid, create-IsValid}
use game_server.Mq.Drain.{drain, drain-next}
use game_server.Mq.Contents.{contents}
use game_server.Mq.Global.{World, globalmq_push, mq_release, mq_create}
use game_server.Mq.Global.Lists.{next_of}
use game_server.Mq.Global.Sound.{Standing-held, busy, IsSound}
use game_server.Mq.Global.Moves.{hold, let_go, enlist, absent, linked_live}
use game_server.Mq.Global.Links.{Links-same}

-- the world without a queue
abbrev freed : ℕ → World → World
freed a w = record w { queues = update w.queues a (let gone : Option MessageQueue = none in gone) }

release_alive :
    (a : ℕ) (w w' : World) (q : MessageQueue)
    → w.queues a ≡ some q
    → q.release ≡ 0
    → globalmq_push a w ≡ some w'
    → mq_release a w ≡ some (none, w')
unfolding mq_release
release_alive a w w' q e r run =
    let t : (q.release == 0) ≡ true = ground arith in rw (mq_release, e, t, run) refl

release_marked :
    (a : ℕ) (w : World) (q last : MessageQueue) (ms : List Message)
    → w.queues a ≡ some q
    → q.release ≢ 0
    → drain (suc (mq_length q)) q ≡ some (ms, last)
    → last.next ≡ none
    → mq_release a w ≡ some (some ms, freed a w)
unfolding mq_release
release_marked a w q last ms e r run free =
    let t : (q.release == 0) ≡ false = ground arith in rw (mq_release, e, t, run, free) refl

next_of-freed : (a b : ℕ) (w : World) → b ≢ a → next_of (freed a w) b ≡ next_of w b
next_of-freed a b w ne = ground arith

freed_queue :
    (a b : ℕ) (w : World) (q : MessageQueue)
    → (freed a w).queues b ≡ some q
    → (b ≢ a) × (w.queues b ≡ some q)
freed_queue a b w q e = elim (ℕ_discrete b a) [
  | yes d ↦ absurd (ground arith)
  | no d ↦ (d, ground arith)
]

-- A held queue is freed.
freed-IsSound :
    (a : ℕ) {w : World} {xs : List ℕ} {held : ℕ → Bool}
    → IsSound w xs held
    → held a ≡ true
    → IsSound (freed a w) xs (let_go held a)
freed-IsSound a {w} {xs} {held} s h =
    let out : ¬ In a xs = absent a s h in
    record {
      global = record {
        head = s.global.head;
        tail = s.global.tail;
        links =
            Links-same (next_of w) (next_of (freed a w)) xs
              (λ b i. next_of-freed a b w (λ d. out (subst (λ k. In k xs) d i))) s.global.links;
        distinct = s.global.distinct;
        apart = λ b q e i. s.global.apart b q (freed_queue a b w q e).1 i;
      };
      apart = λ b i. let f = s.apart b i in ground arith;
      live = λ b k. elim (ℕ_discrete b a) [
        | yes d ↦ absurd (ground arith)
        | no d ↦ λ z. s.live b (ground arith) (ground arith)
      ];
      standing = λ b q e.
          let (ne, f) = freed_queue a b w q e in
          let same : let_go held a b ≡ held b = ground arith in
          Standing-held same (s.standing b q f);
      rings = λ b q e. s.rings b q (freed_queue a b w q e).1;
    }

-- `skynet_mq_release` of a held queue: it goes back to the list, or it is freed, and the messages that
-- it had go to the drop function.
pub release_call :
    (a : ℕ) {w : World} {xs : List ℕ} {held : ℕ → Bool} (q : MessageQueue)
    → IsSound w xs held
    → held a ≡ true
    → w.queues a ≡ some q
    → (dropped : Option (List Message)) × (w' : World) × (xs' : List ℕ) × (mq_release a w
        ≡ some (dropped, w'))
      × IsSound w' xs' (let_go held a)
      × ((ms : List Message) → dropped ≡ some ms → ms ≡ contents q)
release_call a {w} {xs} {held} q s h e = elim (ℕ_discrete q.release 0) [
  | yes r ↦
      let (w', run, s') = enlist a s h in
      (none, w', xs ++ (a ∷ []), release_alive a w w' q e r run, s', λ ms z. absurd (cc))
  | no r ↦
      let (last, run, same) = drain-next (suc (mq_length q)) (s.rings a q e) (omega arith) in
      let free = same ∙ s.global.apart a q e (absent a s h) in
      (
        some (contents q),
        freed a w,
        xs,
        release_marked a w q last (contents q) e r run free,
        freed-IsSound a s h,
        λ ms z. ground arith,
      )
]

create-next : (handle : ℕ) (cells : ℕ → Message) → (create handle cells).next ≡ none
unfolding create
create-next handle cells = refl

create-in_global : (handle : ℕ) (cells : ℕ → Message) → (create handle cells).in_global ≡ 1
unfolding create
create-in_global handle cells = refl

next_of-create :
    (a b handle : ℕ) (cells : ℕ → Message) (w : World)
    → b ≢ a
    → next_of (mq_create a handle cells w) b ≡ next_of w b
next_of-create a b handle cells w ne = ground arith

create_queue :
    (a b handle : ℕ) (cells : ℕ → Message) (w : World) (q : MessageQueue)
    → (mq_create a handle cells w).queues b ≡ some q
    → ((b ≡ a) × (create handle cells ≡ q)) ⊎ ((b ≢ a) × (w.queues b ≡ some q))
create_queue a b handle cells w q e = elim (ℕ_discrete b a) [
  | yes d ↦ inl (d, ground arith)
  | no d ↦ inr (d, ground arith)
]

-- `skynet_mq_create` at a free address: the queue is held by the thread that makes the service.
pub create_call :
    (a handle : ℕ) (cells : ℕ → Message) {w : World} {xs : List ℕ} {held : ℕ → Bool}
    → IsSound w xs held
    → w.queues a ≡ none
    → IsSound (mq_create a handle cells w) xs (hold held a)
create_call a handle cells {w} {xs} {held} s e =
    let new = create handle cells in
    let out : ¬ In a xs = λ i. linked_live w xs a s.global i e in
    let mine : hold held a a ≡ true = ground arith in
    record {
      global = record {
        head = s.global.head;
        tail = s.global.tail;
        links =
            Links-same (next_of w) (next_of (mq_create a handle cells w)) xs
              (λ b i. next_of-create a b handle cells w (λ d. out (subst (λ k. In k xs) d i)))
              s.global.links;
        distinct = s.global.distinct;
        apart = λ b q f i. elim (create_queue a b handle cells w q f) [
          | inl (d, same) ↦ sym (ap (λ k. k.next) same) ∙ create-next handle cells
          | inr (ne, g) ↦ s.global.apart b q g i
        ];
      };
      apart = λ b i.
          let ne : b ≢ a = λ d. out (subst (λ k. In k xs) d i) in
          let f = s.apart b i in ground arith;
      live = λ b k. elim (ℕ_discrete b a) [
        | yes d ↦ λ z. ground arith
        | no d ↦ λ z. s.live b (ground arith) (ground arith)
      ];
      standing = λ b q f. elim (create_queue a b handle cells w q f) [
        | inl (d, same) ↦
            let here : hold held a b ≡ true = ground arith in
            busy (inr here) (inl (sym (ap (λ k. k.in_global) same) ∙ create-in_global handle cells))
        | inr (ne, g) ↦
            let keeps : hold held a b ≡ held b = ground arith in
            Standing-held keeps (s.standing b q g)
      ];
      rings = λ b q f. elim (create_queue a b handle cells w q f) [
        | inl (d, same) ↦ subst IsValid same (create-IsValid handle cells)
        | inr (ne, g) ↦ s.rings b q g
      ];
    }
