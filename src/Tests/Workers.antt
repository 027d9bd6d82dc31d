-- ===== src/Tests/Workers.antt =====
-- A short run of the worker protocol.
use game_server.Common.{ℕ, ◌≡◌, ◌≢◌, refl, ◌⊎◌, true, false, List, [], In}
use game_server.Mq.{Message, MessageQueue, create, enqueue, mq_length}
use game_server.Mq.Contents.{contents}
use game_server.Mq.Global.{World, mq_init, put, mq_push, mq_create}
use game_server.Mq.Global.Lists.{IsGlobal}
use game_server.Mq.Global.Moves.{hold}
use game_server.Mq.Global.Workers.{System, make, send, start, Reach, init, next, Reach-served}
use game_server.Mq.Global.Safety.{Succeeds, Reach-Succeeds}

abbrev hello : Message
hello = record { source = 1; session = 2; body = 3; sz = 4 }

abbrev blank : ℕ → Message
blank i = record { source = 0; session = 0; body = 0; sz = 0 }

-- the queue at address 5, made and sent a message
abbrev sent : MessageQueue
sent = enqueue (create 9 blank) hello

abbrev made_world : World
made_world = mq_create 5 9 blank mq_init

abbrev running : System
running = record { world = put 5 sent made_world; held = hold (λ _. false) 5 }

running-Reach : Reach running
unfolding start mq_init mq_push create enqueue
running-Reach =
    next (next init (make 5 9 blank refl))
      (send 5 hello (create 9 blank) (put 5 sent made_world) refl refl refl)

sent-contents : contents sent ≢ []
unfolding contents mq_length create enqueue
sent-contents e = cc

Reach-served_example :
    (xs : List ℕ) × IsGlobal running.world xs × (In 5 xs ⊎ (running.held 5 ≡ true))
Reach-served_example = Reach-served 5 sent running-Reach refl sent-contents

Reach-Succeeds_example : Succeeds running
Reach-Succeeds_example = Reach-Succeeds running-Reach
