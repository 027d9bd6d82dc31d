-- ===== src/Mq/Global/Safety.antt =====
-- No assertion of skynet_mq.c fails: every call that a thread may make returns.
use game_server.Common.{ℕ, ◌≡◌, ◌≢◌, Bool, true, Option, none, some, List, [], ◌∷◌}
use game_server.Mq.{Message, MessageQueue}
use game_server.Mq.Global.{
  World, globalmq_push, globalmq_pop, mq_push, mq_pop, mq_mark_release, mq_release,
}
use game_server.Mq.Global.Lists.{pop_none}
use game_server.Mq.Global.Sound.{IsSound}
use game_server.Mq.Global.Moves.{enlist, take_first}
use game_server.Mq.Global.Calls.{pop_call, push_call, mark_call}
use game_server.Mq.Global.Release.{release_call}
use game_server.Mq.Global.Workers.{System, Reach, Reach-Sound}

-- The calls that threads may make in a state: on a queue that they hold, or of a service alive.
pub record Succeeds (s : System) : Type 0 where
  pub takes : globalmq_pop s.world ≢ none
  pub puts_back : (a : ℕ) → s.held a ≡ true → globalmq_push a s.world ≢ none
  pub receives :
      (a : ℕ) (q : MessageQueue)
      → s.held a ≡ true
      → s.world.queues a ≡ some q
      → q.release ≡ 0
      → mq_pop a s.world ≢ none
  pub sends :
      (a : ℕ) (m : Message) (q : MessageQueue)
      → s.world.queues a ≡ some q
      → q.release ≡ 0
      → mq_push a m s.world ≢ none
  pub marks :
      (a : ℕ) (q : MessageQueue)
      → s.world.queues a ≡ some q
      → q.release ≡ 0
      → mq_mark_release a s.world ≢ none
  pub drops :
      (a : ℕ) (q : MessageQueue)
      → s.held a ≡ true
      → s.world.queues a ≡ some q
      → mq_release a s.world ≢ none

some_ne_none : {A : Type 0} {r : Option A} {x : A} → r ≡ some x → r ≢ none
some_ne_none e f = cc

takes_lem : (w : World) (xs : List ℕ) (held : ℕ → Bool) → IsSound w xs held → globalmq_pop w ≢ none
takes_lem w [] held i = some_ne_none (pop_none w i.global)
takes_lem w (x ∷ xs) held i = some_ne_none (take_first x i).1

-- In every reachable state each call of a thread that may make it returns: the list has no broken link,
-- no queue is put in it twice, and none is used after it was freed.
pub Reach-Succeeds : {s : System} → Reach s → Succeeds s
Reach-Succeeds {s} r =
    let (xs, i) = Reach-Sound r in
    record {
      takes = takes_lem s.world xs s.held i;
      puts_back = λ a h. let (w, run, i') = enlist a i h in some_ne_none run;
      receives = λ a q h f z. let (m, w, run, i') = pop_call a q i h f z in some_ne_none run;
      sends = λ a m q f z. let (w, xs', run, i') = push_call a m q i f z in some_ne_none run;
      marks = λ a q f z. let (w, xs', run, i') = mark_call a q i f z in some_ne_none run;
      drops =
          λ a q h f. let (ms, w, xs', run, i', all) = release_call a q i h f in some_ne_none run;
    }
