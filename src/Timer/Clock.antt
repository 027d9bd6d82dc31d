-- ===== src/Timer/Clock.antt =====
-- `skynet_updatetime`: a reading of the clock runs the ticks since the last one.
use game_server.Common.{ℕ, ◌+◌, ◌-◌, ◌%◌, ◌^◌, ◌≤◌, ◌<◌, ◌≡◌, refl, ◌∙◌, some, List, [], arith}
use game_server.Timer.{Node, Timer, Slot, close, far, run_ticks, updatetime, uint32}
use game_server.Timer.Pending.{count, bucket}
use game_server.Timer.Exact.{Waiting, within, beyond, run_ticks_lem}

-- `skynet_updatetime` at a clock reading that has not moved or has gone back sends nothing and keeps
-- what is pending.
pub updatetime_still :
    (cp : ℕ) (T : Timer)
    → cp ≤ T.current_point
    → updatetime cp T ≡ some ([], record T { current_point = cp })
unfolding updatetime
updatetime_still cp T h = ground arith

abbrev moved_clock : ℕ → Timer → Timer
moved_clock cp T = record T {
  current_point = cp;
  current = (T.current + (cp - T.current_point)) % 2 ^ 64;
}

bucket-moved_clock : (cp : ℕ) (T : Timer) (s : Slot) → bucket (moved_clock cp T) s ≡ bucket T s
bucket-moved_clock cp T (close i) = refl
bucket-moved_clock cp T (far l i) = refl

moved_clock-Waiting :
    (cp : ℕ) (m : Node → ℕ) (T : Timer) → Waiting m T → Waiting m (moved_clock cp T)
moved_clock-Waiting cp m T w = record {
  models = record {
    clock = w.models.clock;
    placed = λ x s. rw (bucket-moved_clock cp T s) (w.models.placed x s);
    in_time = w.models.in_time;
  };
  ahead = w.ahead;
}

updatetime_runs :
    (cp : ℕ) (T : Timer)
    → T.current_point < cp
    → cp < T.current_point + 2 ^ 32
    → updatetime cp T ≡ run_ticks (cp - T.current_point) (moved_clock cp T)
unfolding updatetime
updatetime_runs cp T lo hi =
    let d : uint32 (cp - T.current_point) ≡ cp - T.current_point = omega arith in ground arith

-- At a later reading, less than `2 ^ 32` centiseconds on, it sends what comes due in between.
pub updatetime_later :
    (cp : ℕ) (m : Node → ℕ) (T : Timer)
    → Waiting m T
    → T.current_point < cp
    → cp < T.current_point + 2 ^ 32
    → (sent : List Node) × (T' : Timer) × (updatetime cp T ≡ some (sent, T'))
      × ((x : Node) → count x sent ≡ within m T.time (cp - T.current_point) x)
      × Waiting (beyond m T.time (cp - T.current_point)) T'
updatetime_later cp m T w lo hi =
    let moved = moved_clock cp T in
    let (sent, T', r) =
      run_ticks_lem (cp - T.current_point) m moved (moved_clock-Waiting cp m T w) in
    (sent, T', updatetime_runs cp T lo hi ∙ r.returns, r.sends, r.leaves)
