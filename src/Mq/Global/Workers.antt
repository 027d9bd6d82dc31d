-- ===== src/Mq/Global/Workers.antt =====
-- The threads at work on the queues: workers (skynet_context_message_dispatch of skynet_server.c),
-- senders (skynet_context_push), and the making and the end of a service (skynet_context_new,
-- delete_context). Each call of skynet_mq.c is under the lock of the queue or of the list, so it is one
-- step, and threads interleave in any order. That a service is alive while a thread sends to it or
-- works for it is what its reference count provides: its queue is then not marked for release.
use mathlib.Core.Path.{subst}
use game_server.Common.{
  ℕ, ◌≡◌, ◌≢◌, refl, sym, ap, ◌∙◌, ◌⊎◌, Bool, true, false, Option, none, some, List, [], ◌∷◌, ◌++◌,
  In, arith,
}
use game_server.Common.Ring.{window}
use game_server.Mq.{Message, MessageQueue, mq_length}
use game_server.Mq.Contents.{contents}
use game_server.Mq.Global.{
  World, mq_init, globalmq_push, globalmq_pop, mq_push, mq_pop, mq_mark_release, mq_release,
  mq_create,
}
use game_server.Mq.Global.Lists.{IsGlobal, pop_none}
use game_server.Mq.Global.Sound.{busy, idle, IsSound}
use game_server.Mq.Global.Moves.{hold, let_go, enlist, take_first}
use game_server.Mq.Global.Calls.{after_pop, pop_call, push_call, mark_call}
use game_server.Mq.Global.Release.{release_call, create_call}

contents_empty : (q : MessageQueue) → q.head ≡ q.tail → contents q ≡ []
unfolding contents mq_length
contents_empty q e = ap (window q.queue q.cap q.head) (let n : mq_length q ≡ 0 = ground arith in n)

-- The memory, and the queues that some thread holds.
pub record System : Type 0 where
  pub world : World
  pub held : ℕ → Bool

-- A thread takes a queue off the list, if there is one; a worker puts its queue back, or a thread that
-- has made a service enlists it; a worker takes a message, and lets go of an empty queue; a message is
-- sent; a service ends; a worker that finds no service releases the queue; a service is made.
pub data Step (s : System) : System → Type 0 where
  take :
      (a : ℕ) (w : World)
      → globalmq_pop s.world ≡ some (some a, w)
      → Step s (record { world = w; held = hold s.held a })
  put_back :
      (a : ℕ) (w : World)
      → s.held a ≡ true
      → globalmq_push a s.world ≡ some w
      → Step s (record { world = w; held = let_go s.held a })
  receive :
      (a : ℕ) (q : MessageQueue) (m : Option Message) (w : World)
      → s.held a ≡ true
      → s.world.queues a ≡ some q
      → q.release ≡ 0
      → mq_pop a s.world ≡ some (m, w)
      → Step s (record { world = w; held = after_pop s.held a m })
  send :
      (a : ℕ) (m : Message) (q : MessageQueue) (w : World)
      → s.world.queues a ≡ some q
      → q.release ≡ 0
      → mq_push a m s.world ≡ some w
      → Step s (record { world = w; held = s.held })
  mark :
      (a : ℕ) (q : MessageQueue) (w : World)
      → s.world.queues a ≡ some q
      → q.release ≡ 0
      → mq_mark_release a s.world ≡ some w
      → Step s (record { world = w; held = s.held })
  drop :
      (a : ℕ) (q : MessageQueue) (ms : Option (List Message)) (w : World)
      → s.held a ≡ true
      → s.world.queues a ≡ some q
      → mq_release a s.world ≡ some (ms, w)
      → Step s (record { world = w; held = let_go s.held a })
  make :
      (a handle : ℕ) (cells : ℕ → Message)
      → s.world.queues a ≡ none
      → Step s (record { world = mq_create a handle cells s.world; held = hold s.held a })

unfoldable pub start : System
start = record { world = mq_init; held = λ _. false }

pub data Reach : System → Type 0 where
  init : Reach start
  next : {s t : System} → Reach s → Step s t → Reach t

abbrev pub Sound : System → Type 0
Sound s = (xs : List ℕ) × IsSound s.world xs s.held

start-Sound : Sound start
unfolding start mq_init
start-Sound = (
  [],
  record {
    global = record {
      head = refl;
      tail = refl;
      links = tt;
      distinct = tt;
      apart = λ a q e. absurd (cc);
    };
    apart = λ a i. absurd i;
    live = λ a h. absurd (cc);
    standing = λ a q e. absurd (cc);
    rings = λ a q e. absurd (cc);
  },
)

-- The same call has one outcome.
some_same : {A : Type 0} {r : Option A} {a b : A} → r ≡ some a → r ≡ some b → a ≡ b
some_same {A} {r} {a} {b} e f = ap (λ o. elim o [ none ↦ a | some x ↦ x ]) (sym e ∙ f)

-- The invariant after a call whose outcome the code has, too.
outcome :
    {v w : World} {xs : List ℕ} {held : ℕ → Bool} {r : Option World}
    → r ≡ some v
    → r ≡ some w
    → IsSound v xs held
    → IsSound w xs held
outcome {v} {w} {xs} {held} e f s = subst (λ k. IsSound k xs held) (some_same e f) s

take-Sound :
    {s : System} (a : ℕ) (w : World)
    → Sound s
    → globalmq_pop s.world ≡ some (some a, w)
    → Sound (record { world = w; held = hold s.held a })
take-Sound {s} a w ([], i) e =
    let p = some_same (pop_none s.world i.global) e in absurd (let q = ap (λ k. k.0) p in cc)
take-Sound {s} a w (x ∷ xs, i) e =
    let (v, run, i') = take_first x i in
    let p = some_same run e in
    let x_a : x ≡ a = let q = ap (λ k. k.0) p in ground arith in
    (
      xs,
      subst (λ k. IsSound w xs (hold s.held k)) x_a
          (subst (λ k. IsSound k xs (hold s.held x)) (ap (λ k. k.1) p) i'),
    )

-- Every step keeps the invariant.
pub Step-Sound : {s t : System} → Sound s → Step s t → Sound t
Step-Sound s (take a w e) = take-Sound a w s e
Step-Sound (xs, i) (put_back a w h e) =
    let (v, run, i') = enlist a i h in (xs ++ (a ∷ []), outcome run e i')
Step-Sound {s} (xs, i) (receive a q m w h f r e) =
    let (m', v, run, i') = pop_call a q i h f r in
    let p = some_same run e in
    (
      xs,
      subst (λ k. IsSound w xs (after_pop s.held a k)) (ap (λ k. k.0) p)
          (subst (λ k. IsSound k xs (after_pop s.held a m')) (ap (λ k. k.1) p) i'),
    )
Step-Sound (xs, i) (send a m q w f r e) =
    let (v, xs', run, i') = push_call a m q i f r in (xs', outcome run e i')
Step-Sound (xs, i) (mark a q w f r e) =
    let (v, xs', run, i') = mark_call a q i f r in (xs', outcome run e i')
Step-Sound {s} (xs, i) (drop a q ms w h f e) =
    let (ms', v, xs', run, i', all) = release_call a q i h f in
    (xs', subst (λ k. IsSound k xs' (let_go s.held a)) (ap (λ k. k.1) (some_same run e)) i')
Step-Sound (xs, i) (make a handle cells e) = (xs, create_call a handle cells i e)

pub Reach-Sound : {s : System} → Reach s → Sound s
Reach-Sound init = start-Sound
Reach-Sound (next r st) = Step-Sound (Reach-Sound r) st

-- In every reachable state the global queue is a list of distinct queues, linked from its head to its
-- tail, and a queue that holds a message is in it or held by a thread: no message is left behind.
pub Reach-served :
    {s : System} (a : ℕ) (q : MessageQueue)
    → Reach s
    → s.world.queues a ≡ some q
    → contents q ≢ []
    → (xs : List ℕ) × IsGlobal s.world xs × (In a xs ⊎ (s.held a ≡ true))
Reach-served a q r e ne =
    let (xs, i) = Reach-Sound r in
    elim (i.standing a q e) [
      | busy where_ marks ↦ (xs, i.global, where_)
      | idle out free g r' t ↦ absurd (ne (contents_empty q t))
    ]
