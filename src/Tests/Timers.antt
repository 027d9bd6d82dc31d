-- ===== src/Tests/Timers.antt =====
-- The timing wheel on small inputs.
use game_server.Common.{ℕ, ◌-◌, ◌^◌, ◌≡◌, refl, some, List, leb, if◌then◌else◌, arith}
use game_server.Timer.{Node, Timer, timer_add, run_ticks, updatetime, timer_init, slot, close, far}
use game_server.Timer.Pending.{count}
use game_server.Timer.Shift.{plus, new_node}
use game_server.Timer.Exact.{
  Waiting, Ran, within, beyond, run_ticks_lem, timer_init-Waiting, timer_add-Waiting,
  timer_fires_once,
}
use game_server.Timer.Clock.{updatetime_later}

abbrev no_nodes : Node → ℕ
no_nodes x = 0

abbrev fresh : Timer
fresh = timer_init 1000 50 200

abbrev armed : Timer
armed = timer_add fresh 7 1 300

slots_of_distances :
    (slot 5 3 ≡ close 5)
    × (slot 300 3 ≡ far 0 1)
    × (slot (2 ^ 14) 3 ≡ far 1 1)
    × (slot 2 (2 ^ 32 - 1) ≡ far 3 0)
unfolding slot
slots_of_distances = (refl, refl, refl, refl)

fresh-Waiting : Waiting no_nodes fresh
fresh-Waiting = timer_init-Waiting 1000 50 200

armed-Waiting : Waiting (plus no_nodes (new_node fresh 7 1 300)) armed
armed-Waiting = timer_add-Waiting no_nodes fresh 7 1 300 (omega arith) (omega arith) fresh-Waiting

timer_init-Waiting_example : Waiting (λ _. 0) (timer_init 1000 50 200)
timer_init-Waiting_example = timer_init-Waiting 1000 50 200

timer_fires_once_example :
    (sent : List Node) × (T' : Timer) × (run_ticks 300 armed ≡ some (sent, T'))
    × (count (new_node fresh 7 1 300) sent ≡ (if leb 300 300 then 1 else 0))
timer_fires_once_example =
    timer_fires_once 300 no_nodes fresh 7 1 300 fresh-Waiting (omega arith) (omega arith) refl

run_ticks_lem_example :
    (sent : List Node) × (T' : Timer) × Ran
      (plus no_nodes (new_node fresh 7 1 300))
      armed
      400
      sent
      T'
run_ticks_lem_example =
    run_ticks_lem 400 (plus no_nodes (new_node fresh 7 1 300)) armed armed-Waiting

updatetime_later_example :
    (sent : List Node) × (T' : Timer) × (updatetime 600 fresh ≡ some (sent, T'))
    × ((x : Node) → count x sent ≡ within no_nodes fresh.time (600 - fresh.current_point) x)
    × Waiting (beyond no_nodes fresh.time (600 - fresh.current_point)) T'
unfolding timer_init
updatetime_later_example =
    updatetime_later 600 no_nodes fresh fresh-Waiting (omega arith) (omega arith)
