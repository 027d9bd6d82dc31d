-- ===== src/Tests/Harbors.antt =====
-- Two nodes with a connection between them, and a node that has just started.
use game_server.Common.{
  ℕ, ◌≡◌, ◌≢◌, refl, Bool, true, false, none, some, List, [], ◌∷◌, ◌++◌, update, arith,
}
use game_server.HarborService.{
  HarborMsg, new_queue, push_queue_msg, handshake, header, down, Slave, Harbor, socket_send,
  socket_start, socket_close, complain, close_harbor,
}
use game_server.HarborService.Queue.{IsRing, contents, new_queue-IsRing, push_queue_msg_lem}
use game_server.HarborService.Wire.{send_remote, send_all}
use game_server.HarborService.Receive.{
  harbor_id, harbor_id_from, push_socket_data, receive, on_status, on_handshake,
}
use game_server.HarborService.Receive.Held.{IsMessage, frames, in_size, Holds, at_header}
use game_server.HarborService.Receive.Stream.{deliveries, push_socket_data_lem}
use game_server.HarborService.Send.{addressed, is_handshake, remote_send_handle}
use game_server.HarborService.Names.{hash_search, find_node, update_name}
use game_server.HarborService.Names.Waiting.{Request, messages_to, send_names}
use game_server.HarborService.Names.Delivered.{Known, update_name-send_names}
use game_server.HarborService.Service.{
  harbor_init, no_slave, connect, harbor_command, socket_data, command, mainloop,
}
use game_server.HarborService.Service.Lost.{connect-update_name}
use game_server.HarborService.Service.Linked.{Reach, start, step, Reach_down}
use game_server.HarborService.Service.EndToEnd.{handed_on, push_socket_data-remote_send_handle}

-- a slave with a connection, between two messages
abbrev linked : ℕ → Slave
linked fd = record { fd = fd; queue = none; status = header; length = 0; received = [] }

abbrev first : Harbor
first = record { id = 1; slave = 0; map = λ _. []; s = update (λ _. no_slave) 2 (linked 9) }

abbrev second : Harbor
second = record { id = 2; slave = 0; map = λ _. []; s = update (λ _. no_slave) 1 (linked 7) }

abbrev blank : ℕ → HarborMsg
blank i = record { header = record { source = 0; destination = 0; session = 0 }; buffer = [] }

abbrev none_refused : ℕ → Bool
none_refused handle = false

second_id : harbor_id second 7 ≡ 1
unfolding harbor_id harbor_id_from
second_id = refl

second_known : harbor_id second 7 ≢ 0
second_known e = absurd (omega (arith, second_id))

second-Holds : Holds [] (second.s (harbor_id second 7))
second-Holds = rw second_id (at_header refl refl (omega arith))

abbrev hello : HarborMsg
hello = record {
  header = record { source = 0x1000005; destination = 0xa000003; session = 4 };
  buffer = 104 ∷ 105 ∷ [];
}

hello-IsMessage : IsMessage hello
hello-IsMessage = record {
  header_in = record {
    source_in = omega arith;
    destination_in = omega arith;
    session_in = omega arith;
  };
  short = omega arith;
}

push_queue_msg_lem_example :
    IsRing (push_queue_msg (new_queue blank) hello)
    × (contents (push_queue_msg (new_queue blank) hello)
        ≡ contents (new_queue blank) ++ (hello ∷ []))
push_queue_msg_lem_example = push_queue_msg_lem (new_queue blank) hello (new_queue-IsRing blank)

push_socket_data_lem_example :
    (s' : Slave) × (push_socket_data none_refused second 7 (frames (hello ∷ []) ++ (0 ∷ []))
      ≡ some (
        deliveries none_refused 2 (hello ∷ []),
        record second { s = update second.s (harbor_id second 7) s' },
      ))
    × Holds (0 ∷ []) s'
    × (s'.fd ≡ (second.s (harbor_id second 7)).fd)
    × (s'.queue ≡ (second.s (harbor_id second 7)).queue)
push_socket_data_lem_example =
    push_socket_data_lem none_refused second 7 [] (frames (hello ∷ []) ++ (0 ∷ [])) (0 ∷ [])
      (hello ∷ []) second_known second-Holds refl (hello-IsMessage, tt) (in_size (omega arith))

push_socket_data-remote_send_handle_example :
    (bytes : List ℕ) × (s' : Slave) × (remote_send_handle blank first 0x1000005 0x2000003 10 4
        (104 ∷ 105 ∷ [])
      ≡ (socket_send 9 bytes ∷ [], first, false))
    × (push_socket_data none_refused second 7 bytes
        ≡ some (
          handed_on none_refused 0x1000005 0x2000003 10 4 (104 ∷ 105 ∷ []),
          record second { s = update second.s (harbor_id second 7) s' },
        ))
    × Holds [] s'
unfolding is_handshake
push_socket_data-remote_send_handle_example =
    push_socket_data-remote_send_handle none_refused blank first second 7 0x1000005 0x2000003 10 4
      (104 ∷ 105 ∷ []) refl (λ e. absurd (omega arith)) (λ e. absurd (omega arith)) refl
      second_known second-Holds (omega arith) (omega arith) (omega arith) (omega arith)
      (omega arith)

abbrev name : List ℕ
name = 97 ∷ 0 ∷ 0 ∷ 0 ∷ 0 ∷ 0 ∷ 0 ∷ 0 ∷ 0 ∷ 0 ∷ 0 ∷ 0 ∷ 0 ∷ 0 ∷ 0 ∷ 0 ∷ []

abbrev asked : ℕ → Request
asked session = record { source = 0x1000005; type = 10; session = session; msg = 104 ∷ [] }

first_unknown : hash_search first.map name ≡ none
unfolding hash_search find_node
first_unknown = refl

update_name-send_names_example :
    (h' : Harbor) × (update_name
        (send_names blank first name (asked 1 ∷ asked 2 ∷ []))
        name
        0x2000003
      ≡ some (send_all 9 (messages_to 0x2000003 (asked 1 ∷ asked 2 ∷ [])), h'))
    × Known name 0x2000003 h'
    × (h'.s ≡ first.s)
update_name-send_names_example =
    update_name-send_names blank first name 0x2000003 (asked 1) (asked 2 ∷ []) first_unknown
      (λ e. absurd (omega arith))

connect-update_name_example :
    (h1 : Harbor) × (h2 : Harbor) × (update_name
        (send_names blank first name (asked 1 ∷ []))
        name
        0x3000004
      ≡ some ([], h1))
    × Known name 0x3000004 h1
    × (connect h1 false 11 3
        ≡ some (
          socket_start 11 ∷ socket_send 11 (1 ∷ []) ∷ send_all 11 (messages_to 0 (asked 1 ∷ [])),
          h2,
        ))
connect-update_name_example =
    connect-update_name blank first name 0x3000004 11 (asked 1) [] first_unknown refl
      (λ e. absurd (omega arith)) (λ e. absurd (omega arith)) (omega arith)
      (λ e. absurd (omega arith))

abbrev no_text : ℕ → List ℕ
no_text id = []

-- every text has the numbers 9 and 2
abbrev nine_two : List ℕ → ℕ × ℕ
nine_two text = (9, 2)

abbrev shaking : Harbor
shaking = record {
  id = 1;
  slave = 0;
  map = λ _. [];
  s =
      update (λ _. no_slave) 2
        (record { fd = 9; queue = none; status = handshake; length = 0; received = [] });
}

-- The other node has said that it is node 5.
abbrev closed : Harbor
closed = record shaking {
  s =
      update shaking.s 2
        (record { fd = 9; queue = none; status = down; length = 0; received = [] });
}

shaking_run :
    mainloop none_refused blank nine_two no_text (harbor_init 1 0) (command 6 (83 ∷ 32 ∷ []))
    ≡ some (socket_start 9 ∷ socket_send 9 (1 ∷ []) ∷ [], shaking)
unfolding mainloop harbor_command connect harbor_init
shaking_run = refl

closed_run :
    mainloop none_refused blank nine_two no_text shaking (socket_data 9 (5 ∷ []))
    ≡ some (complain ∷ socket_close 9 ∷ [], closed)
unfolding mainloop push_socket_data harbor_id harbor_id_from receive on_status on_handshake
    close_harbor
closed_run = refl

closed-Reach : Reach none_refused blank nine_two no_text closed
closed-Reach =
    step (socket_data 9 (5 ∷ [])) (complain ∷ socket_close 9 ∷ [])
      (step (command 6 (83 ∷ 32 ∷ [])) (socket_start 9 ∷ socket_send 9 (1 ∷ []) ∷ []) (start 1 0)
        shaking_run)
      closed_run

Reach_down_example :
    (remote_send_handle blank closed 0x1000005 0x2000003 10 4 (104 ∷ []) ≡ (
      send_remote 9
          (104 ∷ [])
          (record { source = 0x1000005; destination = addressed 10 0x2000003; session = 4 }),
      closed,
      false,
    ))
    × (connect closed true 12 2 ≡ some (complain ∷ [], closed))
Reach_down_example =
    Reach_down none_refused blank nine_two no_text closed 0x1000005 0x2000003 10 4 (104 ∷ []) true
      12 closed-Reach (λ e. absurd (omega arith)) refl
