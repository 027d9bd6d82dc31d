-- ===== src/Timer/Exact.antt =====
-- Every timer fires once, at its tick: `timer_update`, and the loop over the ticks.
use mathlib.Core.Path.{fun_ext}
use game_server.Common.{
  ℕ, zero, suc, ◌+◌, ◌^◌, ◌<◌, ◌≡◌, ◌≢◌, refl, ap, ◌∙◌, some, List, [], ◌++◌, leb, if◌then◌else◌,
  arith,
}
use game_server.Timer.{
  Node, Timer, Slot, close, far, slot, timer_add, timer_shift, timer_execute, timer_update,
  run_ticks, timer_init, uint32,
}
use game_server.Timer.Slots.{distance}
use game_server.Timer.Pending.{node_eq_iff, count, count-append, bucket, only_at, Models}
use game_server.Timer.Shift.{
  timer_shift-Models, time-timer_shift, plus, new_node, timer_add-Models, time-timer_add,
}
use game_server.Timer.Execute.{due, later, Executed, execute_lem}

-- The pending nodes, none of which is due at the present time: the state between two calls.
pub record Waiting (m : Node → ℕ) (T : Timer) : Type 0 where
  pub models : Models m T
  pub ahead : (x : Node) → 0 < m x → x.expire ≢ T.time

-- What `n` ticks send, and what they leave.
abbrev pub within : (Node → ℕ) → ℕ → ℕ → Node → ℕ
within m t n x = if leb (distance x.expire t) n then m x else 0

abbrev pub beyond : (Node → ℕ) → ℕ → ℕ → Node → ℕ
beyond m t n x = if leb (distance x.expire t) n then 0 else m x

pub record Ran (m : Node → ℕ) (T : Timer) (n : ℕ) (sent : List Node) (T' : Timer) : Type 0 where
  pub returns : run_ticks n T ≡ some (sent, T')
  pub sends : (x : Node) → count x sent ≡ within m T.time n x
  pub leaves : Waiting (beyond m T.time n) T'
  pub time : T'.time ≡ uint32 (T.time + n)

update_returns :
    (T T1 T2 : Timer) (s1 s2 : List Node)
    → timer_execute 2 T ≡ some (s1, T1)
    → timer_execute 2 (timer_shift T1) ≡ some (s2, T2)
    → timer_update T ≡ some (s1 ++ s2, T2)
unfolding timer_update
update_returns T T1 T2 s1 s2 e f = rw (e, timer_update, f)

-- One tick: `timer_update`.
pub record Updated (m : Node → ℕ) (T : Timer) (sent : List Node) (T' : Timer) : Type 0 where
  pub returns : timer_update T ≡ some (sent, T')
  pub sends : (x : Node) → count x sent ≡ within m T.time 1 x
  pub leaves : Waiting (beyond m T.time 1) T'
  pub time : T'.time ≡ uint32 (T.time + 1)

-- `skynet` time moves by one modulo `2 ^ 32`; nodes behind it are those that the tick leaves.
module _ (m : Node → ℕ) (T : Timer) (w : Waiting m T) where
  later-beyond : later (later m T.time) (uint32 (T.time + 1)) ≡ beyond m T.time 1
  later-beyond = fun_ext (λ x. ground (arith, w.models.clock, w.ahead x, w.models.in_time x))

  due-within :
      (x : Node)
      → due m T.time x + due (later m T.time) (uint32 (T.time + 1)) x ≡ within m T.time 1 x
  due-within x = ground (arith, w.models.clock, w.ahead x, w.models.in_time x)

  module _ {s1 : List Node} {T1 : Timer} (a : Executed m T s1 T1) where
    shifted : (timer_shift T1).time ≡ uint32 (T.time + 1)
    shifted = time-timer_shift T1 (a.leaves.clock) ∙ ap (λ t. uint32 (t + 1)) a.time

    shifted-Models : Models (later m T.time) (timer_shift T1)
    shifted-Models =
        timer_shift-Models (later m T.time) T1 a.leaves (λ x pos. rw a.time (ground arith))

    updated :
        {s2 : List Node} {T2 : Timer}
        → Executed (later m T.time) (timer_shift T1) s2 T2
        → Updated m T (s1 ++ s2) T2
    updated {s2} {T2} b = record {
      returns = update_returns T T1 T2 s1 s2 a.returns b.returns;
      sends =
          λ x. ground (arith, count-append x s1 s2, a.sends x, b.sends x, shifted, due-within x);
      leaves = record {
        models = rw (shifted, later-beyond) at b.leaves;
        ahead = λ x pos. rw (b.time ∙ shifted) (ground (arith, w.models.clock));
      };
      time = b.time ∙ shifted;
    }

pub update_lem :
    (m : Node → ℕ) (T : Timer)
    → Waiting m T
    → (sent : List Node) × (T' : Timer) × Updated m T sent T'
update_lem m T w =
    let (s1, T1, a) = execute_lem m T w.models in
    let (s2, T2, b) = execute_lem (later m T.time) (timer_shift T1) (shifted-Models m T w a) in
    (s1 ++ s2, T2, updated m T w a b)

run_ticks_step :
    (n : ℕ) (T T1 T2 : Timer) (s1 s2 : List Node)
    → timer_update T ≡ some (s1, T1)
    → run_ticks n T1 ≡ some (s2, T2)
    → run_ticks (suc n) T ≡ some (s1 ++ s2, T2)
unfolding run_ticks
run_ticks_step n T T1 T2 s1 s2 e f = rw (e, run_ticks, f)

module _ (m : Node → ℕ) (T : Timer) (w : Waiting m T) (n : ℕ) where
  within-suc :
      (x : Node)
      → within m T.time 1 x + within (beyond m T.time 1) (uint32 (T.time + 1)) n x
        ≡ within m T.time (suc n) x
  within-suc x = ground (arith, w.models.clock, w.ahead x, w.models.in_time x)

  beyond-suc : beyond (beyond m T.time 1) (uint32 (T.time + 1)) n ≡ beyond m T.time (suc n)
  beyond-suc = fun_ext (λ x. ground (arith, w.models.clock, w.ahead x, w.models.in_time x))

  ran :
      {s1 s2 : List Node} {T1 T2 : Timer}
      → Updated m T s1 T1
      → Ran (beyond m T.time 1) T1 n s2 T2
      → Ran m T (suc n) (s1 ++ s2) T2
  ran {s1} {s2} {T1} {T2} a b = record {
    returns = run_ticks_step n T T1 T2 s1 s2 a.returns b.returns;
    sends = λ x. ground (arith, count-append x s1 s2, a.sends x, b.sends x, a.time, within-suc x);
    leaves = rw (a.time, beyond-suc) at b.leaves;
    time = b.time ∙ omega (arith, a.time, w.models.clock);
  }

-- The loop of `skynet_updatetime` over `n` ticks ends, sends each pending node whose tick has come
-- by then as often as it was pending and no other, and leaves exactly the others pending.
pub run_ticks_lem :
    (n : ℕ) (m : Node → ℕ) (T : Timer)
    → Waiting m T
    → (sent : List Node) × (T' : Timer) × Ran m T n sent T'
unfolding run_ticks count
run_ticks_lem zero m T w =
    let none_within : beyond m T.time 0 ≡ m =
      fun_ext (λ x. ground (arith, w.models.clock, w.ahead x, w.models.in_time x)) in
    (
      [],
      T,
      record {
        returns = refl;
        sends = λ x. ground (arith, w.models.clock, w.ahead x, w.models.in_time x);
        leaves = rw none_within w;
        time = omega (arith, w.models.clock);
      },
    )
run_ticks_lem (suc n) m T w =
    let (s1, T1, a) = update_lem m T w in
    let (s2, T2, b) = run_ticks_lem n (beyond m T.time 1) T1 a.leaves in
    (s1 ++ s2, T2, ran m T w n a b)

empty_count :
    (starttime current point : ℕ) (x : Node) (s : Slot)
    → count x (bucket (timer_init starttime current point) s) ≡ only_at (slot x.expire 0) s 0
unfolding timer_init count
empty_count starttime current point x (close i) = ground arith
empty_count starttime current point x (far l i) = ground arith

-- A fresh wheel waits for nothing.
pub timer_init-Waiting :
    (starttime current point : ℕ) → Waiting (λ _. 0) (timer_init starttime current point)
unfolding timer_init
timer_init-Waiting starttime current point = record {
  models = record {
    clock = omega arith;
    placed = λ x s. empty_count starttime current point x s;
    in_time = λ x pos. absurd (omega arith);
  };
  ahead = λ x pos. absurd (omega arith);
}

-- A timer of at least one tick does not disturb the wait.
pub timer_add-Waiting :
    (m : Node → ℕ) (T : Timer) (handle session time : ℕ)
    → 0 < time
    → time < 2 ^ 31
    → Waiting m T
    → Waiting (plus m (new_node T handle session time)) (timer_add T handle session time)
unfolding count
timer_add-Waiting m T handle session time pos h w = record {
  models = timer_add-Models m T handle session time h w.models;
  ahead = λ x p.
      rw (time-timer_add T handle session time)
        (ground (arith, w.models.clock, w.ahead x, node_eq_iff x (new_node T handle session time)));
}

-- The event of a timer of `time` ticks on a wheel where no equal node is pending.
pub timer_fires_once :
    (n : ℕ) (m : Node → ℕ) (T : Timer) (handle session time : ℕ)
    → Waiting m T
    → 0 < time
    → time < 2 ^ 31
    → m (new_node T handle session time) ≡ 0
    → (sent : List Node) × (T' : Timer) × (run_ticks n (timer_add T handle session time)
        ≡ some (sent, T'))
      × (count (new_node T handle session time) sent ≡ (if leb time n then 1 else 0))
unfolding count
timer_fires_once n m T handle session time w pos h fresh =
    let x = new_node T handle session time in
    let (sent, T', r) =
      run_ticks_lem n (plus m x) (timer_add T handle session time)
        (timer_add-Waiting m T handle session time pos h w) in
    (sent, T', r.returns, fired sent r.sends)
  where
    fired :
        (sent : List Node)
        → ((y : Node)
            → count y sent
              ≡ within
                  (plus m (new_node T handle session time))
                  (timer_add T handle session time).time
                  n
                  y)
        → count (new_node T handle session time) sent ≡ (if leb time n then 1 else 0)
    fired sent sends =
        let x = new_node T handle session time in
        ground
          (arith, w.models.clock, sends x, time-timer_add T handle session time, node_eq_iff x x)
