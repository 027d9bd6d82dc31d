-- ===== src/Timer/Execute.antt =====
-- `timer_execute` and `timer_update` on the multiset of pending nodes.
use mathlib.Core.Path.{fun_ext}
use game_server.Common.{
  ℕ, suc, ◌%◌, ◌^◌, ◌≡◌, refl, sym, some, List, [], ◌∷◌, append-nil, ◌==◌, if◌then◌else◌, update,
  arith,
}
use game_server.Timer.{Node, Timer, Slot, close, far, slot, timer_execute}
use game_server.Timer.Pending.{slot_eq, slot_eq_iff, count, bucket, Models}

-- the pending nodes that are due at `t`, and the others
abbrev pub due : (Node → ℕ) → ℕ → Node → ℕ
due m t x = if x.expire == t then m x else 0

abbrev pub later : (Node → ℕ) → ℕ → Node → ℕ
later m t x = if x.expire == t then 0 else m x

-- The list that `timer_execute` looks at holds the nodes of this very tick.
slot_now :
    (e t : ℕ) → (slot e t ≡ close (t % 2 ^ 8) → e ≡ t) × (e ≡ t → slot e t ≡ close (t % 2 ^ 8))
unfolding slot
slot_now e t = (λ h. ground arith, λ h. ground arith)

abbrev emptied : Timer → Timer
emptied T = record T { near = update T.near (T.time % 2 ^ 8) [] }

count-emptied :
    (T : Timer) (x : Node) (s : Slot)
    → count x (bucket (emptied T) s)
      ≡ (if slot_eq (close (T.time % 2 ^ 8)) s then 0 else count x (bucket T s))
unfolding count
count-emptied T x (close j) = ground arith
count-emptied T x (far l j) = refl

module _ (m : Node → ℕ) (T : Timer) (v : Models m T) where
  count-due : (x : Node) → count x (T.near (T.time % 2 ^ 8)) ≡ due m T.time x
  count-due x =
      let now = close (T.time % 2 ^ 8) in
      ground
        (arith, v.placed x now, slot_now x.expire T.time, slot_eq_iff (slot x.expire T.time) now)

  emptied-Models : Models (later m T.time) (emptied T)
  emptied-Models = record {
    clock = v.clock;
    placed = λ x s.
        let now = close (T.time % 2 ^ 8) in
        ground (
          arith,
          count-emptied T x s,
          v.placed x s,
          slot_now x.expire T.time,
          slot_eq_iff (slot x.expire T.time) s,
          slot_eq_iff now s,
        );
    in_time = λ x pos. ground (arith, v.in_time x);
  }

execute_idle :
    (fuel : ℕ) (T : Timer)
    → T.near (T.time % 2 ^ 8) ≡ []
    → timer_execute (suc fuel) T ≡ some ([], T)
unfolding timer_execute
execute_idle fuel T e = rw (e, timer_execute)

execute_busy :
    (fuel : ℕ) (T : Timer) (n : Node) (ns : List Node)
    → T.near (T.time % 2 ^ 8) ≡ n ∷ ns
    → timer_execute (suc (suc fuel)) T ≡ some (n ∷ ns, emptied T)
unfolding timer_execute
execute_busy fuel T n ns e =
    rw (e, timer_execute) (rw (execute_idle fuel (emptied T) (ground arith)) (rw append-nil))

-- One call of `timer_execute`: two rounds of its loop are enough, it sends the nodes that are due at
-- the time, each as often as it is pending, and leaves the others pending.
pub record Executed (m : Node → ℕ) (T : Timer) (sent : List Node) (T' : Timer) : Type 0 where
  pub returns : timer_execute 2 T ≡ some (sent, T')
  pub sends : (x : Node) → count x sent ≡ due m T.time x
  pub leaves : Models (later m T.time) T'
  pub time : T'.time ≡ T.time

module _ (m : Node → ℕ) (T : Timer) (v : Models m T) where
  execute_of :
      (batch : List Node)
      → T.near (T.time % 2 ^ 8) ≡ batch
      → (sent : List Node) × (T' : Timer) × Executed m T sent T'
  unfolding count
  execute_of [] e =
      let nothing : (x : Node) → due m T.time x ≡ 0 = λ x. sym (rw e at (count-due m T v x)) in
      let same : later m T.time ≡ m = fun_ext (λ x. ground (arith, nothing x)) in
      (
        [],
        T,
        record {
          returns = execute_idle 1 T e;
          sends = λ x. sym (nothing x);
          leaves = rw same v;
          time = refl;
        },
      )
  execute_of (n ∷ ns) e = (
    n ∷ ns,
    emptied T,
    record {
      returns = execute_busy 0 T n ns e;
      sends = λ x. rw e at (count-due m T v x);
      leaves = emptied-Models m T v;
      time = refl;
    },
  )

  pub execute_lem : (sent : List Node) × (T' : Timer) × Executed m T sent T'
  execute_lem = execute_of (T.near (T.time % 2 ^ 8)) refl
