-- ===== src/Tests/Queues.antt =====
-- The message queue on small inputs.
use game_server.Common.{ℕ, ◌≡◌, refl, none, some, [], ◌∷◌, ◌++◌, arith}
use game_server.Mq
use game_server.Mq.{Message, MessageQueue, create, pop, enqueue, raise_threshold}
use game_server.Mq.Contents.{contents}
use game_server.Mq.Valid.{IsValid}
use game_server.Mq.Refine.{take_first, contents-enqueue, contents-pop}
use game_server.Mq.Drain.{drain, drain_lem}

abbrev msg : ℕ → Message
msg n = record { source = n; session = n; body = 0; sz = 0 }

-- three cells, two messages, round the end
abbrev turned : MessageQueue
turned = record {
  handle = 9;
  cap = 3;
  head = 2;
  tail = 1;
  release = 0;
  in_global = 1;
  overload = 0;
  overload_threshold = 1024;
  queue = msg;
  next = none;
}

turned-IsValid : IsValid turned
turned-IsValid = omega arith

contents-turned : contents turned ≡ msg 2 ∷ msg 0 ∷ []
unfolding contents
contents-turned = refl

contents-enqueue_example : contents (enqueue turned (msg 5)) ≡ contents turned ++ (msg 5 ∷ [])
contents-enqueue_example = contents-enqueue (msg 5) turned-IsValid

contents-pop_example : let (m, q') = pop turned in (m, contents q') ≡ take_first (contents turned)
contents-pop_example = contents-pop turned-IsValid

drain_lem_example :
    (last : MessageQueue) × (drain 5 turned ≡ some (contents turned, last)) × (contents last ≡ [])
unfolding Mq.mq_length
drain_lem_example = drain_lem 5 turned-IsValid (omega arith)
