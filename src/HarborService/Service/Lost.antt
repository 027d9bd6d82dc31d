-- ===== src/HarborService/Service/Lost.antt =====
-- Messages to a name of a node that is not connected yet lose the handle.
use game_server.Common.{
  ℕ, ◌/◌, ◌%◌, ◌^◌, ◌<◌, ◌≡◌, ◌≢◌, refl, ap, ◌∙◌, true, false, ◌||◌, Option, none, some, List, [],
  ◌∷◌, ◌==◌, leb, update, update_self, arith,
}
use game_server.HarborService.{
  HarborMsg, HarborMsgQueue, header, Slave, Harbor, socket_send, socket_start,
}
use game_server.HarborService.Queue.{IsRing, contents, drain_queue_lem}
use game_server.HarborService.Wire.{send_all}
use game_server.HarborService.Wire.Frames.{dispatch_queue-some}
use game_server.HarborService.Names.{hash_search, update_name}
use game_server.HarborService.Names.Waiting.{Request, messages_to, send_names, all_sent}
use game_server.HarborService.Names.Delivered.{Known, update_runs, dispatch_unconnected}
use game_server.HarborService.Service.{no_slave, connect}

-- A connection to a node whose messages wait.
connect_waiting :
    (h : Harbor) (fd id : ℕ) (ring : HarborMsgQueue)
    → IsRing ring
    → (h.s id).queue ≡ some ring
    → (h.s id).fd ≡ 0
    → fd ≢ 0
    → id ≢ 0
    → id < 256
    → (h' : Harbor) × (connect h false fd id
        ≡ some (
          socket_start fd ∷ socket_send fd ((h.id % 256) ∷ []) ∷ send_all fd (contents ring),
          h',
        ))
unfolding connect
connect_waiting h fd id ring v queue free some_fd some_id small =
    let f : (fd == 0 || (id == 0 || leb 256 id)) ≡ false = ground arith in
    let g : ((h.s id).fd == 0) ≡ true = ground (arith, free) in
    let s : Slave = record (h.s id) { fd = fd; status = header } in
    let sent = dispatch_queue-some s ring some_fd queue (drain_queue_lem ring v) in
    (
      record h {
        s = update h.s id (record s { queue = let gone : Option HarborMsgQueue = none in gone });
      },
      rw (connect, f, g, sent) refl,
    )

-- The same messages, when `update_name` learns a handle in a node that is not connected yet and that
-- node is connected afterwards: they go out, in order, but with 0 in place of the low 24 bits of the
-- handle, so that none of them can reach the service that has the name.
pub connect-update_name :
    (fresh : ℕ → HarborMsg) (h : Harbor) (name : List ℕ) (handle fd : ℕ) (r : Request)
    (rs : List Request)
    → hash_search h.map name ≡ none
    → h.s (handle / 2 ^ 24) ≡ no_slave
    → handle / 2 ^ 24 ≢ h.slave / 2 ^ 24
    → handle / 2 ^ 24 ≢ 0
    → handle < 2 ^ 32
    → fd ≢ 0
    → (h1 : Harbor) × (h2 : Harbor) × (update_name (send_names fresh h name (r ∷ rs)) name handle
        ≡ some ([], h1))
      × Known name handle h1
      × (connect h1 false fd (handle / 2 ^ 24)
          ≡ some (
            socket_start fd
                ∷ socket_send fd ((h.id % 256) ∷ [])
                ∷ send_all fd (messages_to 0 (r ∷ rs)),
            h2,
          ))
connect-update_name fresh h name handle fd r rs z slave remote some_id small some_fd =
    let id : ℕ = handle / 2 ^ 24 in
    let h0 : Harbor = send_names fresh h name (r ∷ rs) in
    let (w, slaves, same_id, same_slave) = all_sent fresh h name r rs z in
    let there : h0.s id ≡ no_slave = ap (λ s. s id) slaves ∙ slave in
    let joins =
      dispatch_unconnected h0 handle w.ring (ap (λ s. s.fd) there) (ap (λ s. s.status) there)
        (ap (λ s. s.queue) there) (λ e. remote (e ∙ ap (λ (k : ℕ). k / 2 ^ 24) same_slave)) in
    let (h1, run, known, s1, i1) = update_runs h0 _ name handle (r ∷ rs) [] w joins in
    let here : h1.s id ≡ record (h0.s id) { queue = some w.ring } =
      ap (λ s. s id) s1 ∙ update_self h0.s id _ in
    let (h2, sent) =
      connect_waiting h1 fd id w.ring w.valid (ap (λ s. s.queue) here)
        (ap (λ s. s.fd) here ∙ ap (λ s. s.fd) there) some_fd some_id (omega arith) in
    (
      h1,
      h2,
      run,
      known,
      sent
          ∙ ap
              (λ (k : ℕ). some (
                socket_start fd ∷ socket_send fd ((k % 256) ∷ []) ∷ send_all fd (contents w.ring),
                h2,
              ))
              (i1 ∙ same_id)
          ∙ ap
              (λ ms.
                some (socket_start fd ∷ socket_send fd ((h.id % 256) ∷ []) ∷ send_all fd ms, h2))
              w.holds,
    )
