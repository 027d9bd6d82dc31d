-- ===== src/Mq/Global/Calls.antt =====
-- The calls on one queue: `skynet_mq_pop`, `skynet_mq_push`, `skynet_mq_mark_release`,
-- `skynet_mq_release` and `skynet_mq_create`, and what each makes of the invariant.
use mathlib.Core.Path.{subst, fun_ext}
use native.Mathlib.Decide.{ℕ_discrete}
use game_server.Common.{
  ℕ, ◌≡◌, refl, ap, ◌∙◌, ◌⊎◌, inl, inr, Bool, true, false, Option, none, some, List, [], ◌∷◌, ◌++◌,
  In, ◌==◌, arith,
}
use game_server.Mq.{Message, MessageQueue, mq_in_global, mq_overload, pop, enqueue, expand_queue}
use game_server.Mq.Valid.{IsValid, enqueue-IsValid, pop-IsValid, pop_empty, pop-Popped}
use game_server.Mq.Global.{World, put, globalmq_push, mq_push, mq_pop, mq_mark_release}
use game_server.Mq.Global.Sound.{Standing, busy, idle, IsSound, put_IsSound}
use game_server.Mq.Global.Moves.{hold, let_go, enlist, absent, held_marks}

-- what a thread holds after `skynet_mq_pop`: a queue that was empty is let go
abbrev pub after_pop : (ℕ → Bool) → ℕ → Option Message → ℕ → Bool
after_pop held a none = let_go held a
after_pop held a (some m) = held

mq_pop_runs :
    (a : ℕ) (w : World) (q q' : MessageQueue) (m : Option Message)
    → w.queues a ≡ some q
    → pop q ≡ (m, q')
    → mq_pop a w ≡ some (m, put a q' w)
unfolding mq_pop
mq_pop_runs a w q q' m e r = rw (mq_pop, e, r) refl

-- `skynet_mq_pop` of a held queue whose service is alive.
pub pop_call :
    (a : ℕ) {w : World} {xs : List ℕ} {held : ℕ → Bool} (q : MessageQueue)
    → IsSound w xs held
    → held a ≡ true
    → w.queues a ≡ some q
    → q.release ≡ 0
    → (m : Option Message) × (w' : World) × (mq_pop a w ≡ some (m, w'))
      × IsSound w' xs (after_pop held a m)
pop_call a {w} {xs} {held} q s h e r = elim (ℕ_discrete q.head q.tail) [
  | yes d ↦
      let q' = record q { overload_threshold = mq_overload; in_global = 0 } in
      let v = s.rings a q e in
      let v' : IsValid q' = ground arith in
      let free : let_go held a a ≡ false = ground arith in
      (
        none,
        put a q' w,
        mq_pop_runs a w q q' none e (pop_empty q d),
        put_IsSound a q q' s e refl v' (λ b ne. ground arith) (λ i. free)
            (idle (absent a s h) free refl r d),
      )
  | no ne ↦
      let (o, t, p) = pop-Popped (s.rings a q e) ne in
      let v' = subst IsValid (ap (λ k. k.1) p.returns) (pop-IsValid (s.rings a q e)) in
      (
        some (q.queue q.head),
        put a _ w,
        mq_pop_runs a w q _ _ e p.returns,
        put_IsSound a q _ s e refl v' (λ b n. refl) (s.apart a)
            (busy (inr h) (held_marks a h (s.standing a q e))),
      )
]

enqueue-next : (q : MessageQueue) (m : Message) → (enqueue q m).next ≡ q.next
unfolding enqueue expand_queue
enqueue-next q m = ground arith

enqueue-in_global : (q : MessageQueue) (m : Message) → (enqueue q m).in_global ≡ q.in_global
unfolding enqueue expand_queue
enqueue-in_global q m = ground arith

enqueue-release : (q : MessageQueue) (m : Message) → (enqueue q m).release ≡ q.release
unfolding enqueue expand_queue
enqueue-release q m = ground arith

mq_push_busy :
    (a : ℕ) (m : Message) (w : World) (q : MessageQueue)
    → w.queues a ≡ some q
    → q.in_global ≡ 1
    → mq_push a m w ≡ some (put a (enqueue q m) w)
unfolding mq_push
mq_push_busy a m w q e g =
    let f : ((enqueue q m).in_global == 0) ≡ false = ground (arith, enqueue-in_global q m) in
    rw (mq_push, e, f) refl

mq_push_idle :
    (a : ℕ) (m : Message) (w : World) (q : MessageQueue)
    → w.queues a ≡ some q
    → q.in_global ≡ 0
    → mq_push a m w ≡ globalmq_push a (put a (record (enqueue q m) { in_global = mq_in_global }) w)
unfolding mq_push
mq_push_idle a m w q e g =
    let t : ((enqueue q m).in_global == 0) ≡ true = ground (arith, enqueue-in_global q m) in
    rw (mq_push, e, t) refl

-- A queue that no thread holds, taken and let go.
let_go-hold : (held : ℕ → Bool) (a : ℕ) → held a ≡ false → let_go (hold held a) a ≡ held
let_go-hold held a h = fun_ext λ b. elim (ℕ_discrete b a) [
  | yes d ↦ let f : held b ≡ false = ap held d ∙ h in ground arith
  | no d ↦ ground arith
]

-- An idle queue is written with a mark, and goes to the end of the list.
wake :
    (a : ℕ) {w : World} {xs : List ℕ} {held : ℕ → Bool} (q q' : MessageQueue)
    → IsSound w xs held
    → w.queues a ≡ some q
    → q'.next ≡ q.next
    → IsValid q'
    → ¬ In a xs
    → held a ≡ false
    → (q'.in_global ≡ 1) ⊎ (q'.release ≡ 1)
    → (w' : World) × (globalmq_push a (put a q' w) ≡ some w') × IsSound w' (xs ++ (a ∷ [])) held
wake a {w} {xs} {held} q q' s e n v i h g =
    let mine : hold held a a ≡ true = ground arith in
    let s' =
      put_IsSound a {held' = hold held a} q q' s e n v (λ b ne. ground arith) (λ j. absurd (i j))
        (busy (inr mine) g) in
    let (w', run, s'') = enlist a s' mine in
    (w', run, subst (IsSound w' (xs ++ (a ∷ []))) (let_go-hold held a h) s'')

-- `skynet_mq_push` to a queue whose service is alive.
pub push_call :
    (a : ℕ) (m : Message) {w : World} {xs : List ℕ} {held : ℕ → Bool} (q : MessageQueue)
    → IsSound w xs held
    → w.queues a ≡ some q
    → q.release ≡ 0
    → (w' : World) × (xs' : List ℕ) × (mq_push a m w ≡ some w') × IsSound w' xs' held
push_call a m {w} {xs} {held} q s e r = elim (s.standing a q e) [
  | busy i (inl g) ↦
      let st : Standing xs held a (enqueue q m) = busy i (inl (enqueue-in_global q m ∙ g)) in
      (
        put a (enqueue q m) w,
        xs,
        mq_push_busy a m w q e g,
        put_IsSound a q (enqueue q m) s e (enqueue-next q m) (enqueue-IsValid m (s.rings a q e))
            (λ b ne. refl) (s.apart a) st,
      )
  | busy i (inr g) ↦ absurd (omega arith)
  | idle i h g r' t ↦
      let q' = record (enqueue q m) { in_global = mq_in_global } in
      let v = enqueue-IsValid m (s.rings a q e) in
      let v' : IsValid q' = record {
        head_in = v.head_in;
        tail_in = v.tail_in;
        positive = v.positive;
      } in
      let (w', run, s') = wake a q q' s e (enqueue-next q m) v' i h (inl refl) in
      (w', xs ++ (a ∷ []), mq_push_idle a m w q e g ∙ run, s')
]

mark_busy :
    (a : ℕ) (w : World) (q : MessageQueue)
    → w.queues a ≡ some q
    → q.release ≡ 0
    → q.in_global ≡ 1
    → mq_mark_release a w ≡ some (put a (record q { release = 1 }) w)
unfolding mq_mark_release
mark_busy a w q e r g =
    let t : (q.release == 0) ≡ true = ground arith in
    let u : (q.in_global == mq_in_global) ≡ true = ground arith in
    rw (mq_mark_release, e, t, u) refl

mark_idle :
    (a : ℕ) (w : World) (q : MessageQueue)
    → w.queues a ≡ some q
    → q.release ≡ 0
    → q.in_global ≡ 0
    → mq_mark_release a w ≡ globalmq_push a (put a (record q { release = 1 }) w)
unfolding mq_mark_release
mark_idle a w q e r g =
    let t : (q.release == 0) ≡ true = ground arith in
    let u : (q.in_global == mq_in_global) ≡ false = ground arith in
    rw (mq_mark_release, e, t, u) refl

-- `skynet_mq_mark_release`, which is called once for a queue.
pub mark_call :
    (a : ℕ) {w : World} {xs : List ℕ} {held : ℕ → Bool} (q : MessageQueue)
    → IsSound w xs held
    → w.queues a ≡ some q
    → q.release ≡ 0
    → (w' : World) × (xs' : List ℕ) × (mq_mark_release a w ≡ some w') × IsSound w' xs' held
mark_call a {w} {xs} {held} q s e r =
    let v = s.rings a q e in
    let q' = record q { release = 1 } in
    let v' : IsValid q' = record {
      head_in = v.head_in;
      tail_in = v.tail_in;
      positive = v.positive;
    } in
    elim (s.standing a q e) [
      | busy i (inl g) ↦ (
        put a q' w,
        xs,
        mark_busy a w q e r g,
        put_IsSound a q q' s e refl v' (λ b ne. refl) (s.apart a) (busy i (inr refl)),
      )
      | busy i (inr g) ↦ absurd (omega arith)
      | idle i h g r' t ↦
          let (w', run, s') = wake a q q' s e refl v' i h (inr refl) in
          (w', xs ++ (a ∷ []), mark_idle a w q e r g ∙ run, s')
    ]
