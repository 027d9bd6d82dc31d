-- ===== src/HarborService/Receive/Stream.antt =====
-- The messages that come over a connection, however its bytes are split.
use game_server.Common.{
  ℕ, zero, suc, ◌+◌, ◌*◌, ◌≤◌, ◌<◌, ◌≡◌, ◌≢◌, refl, sym, ap, ◌∙◌, Bool, false, some, List, [], ◌∷◌,
  ◌++◌, append-nil, append_assoc, length, All, length-append, ◌==◌, update, arith,
}
use game_server.HarborService.{HarborMsg, Slave, Harbor, Action}
use game_server.HarborService.Wire.{to_bigendian}
use game_server.HarborService.Wire.Frames.{length-to_bigendian}
use game_server.HarborService.Receive.{
  returns, goes_on, on_status, receive, harbor_id, push_socket_data,
}
use game_server.HarborService.Receive.Held.{
  IsMessage, payload, frame, frames, length-payload, IsPart, Holds, at_header, at_content,
}
use game_server.HarborService.Receive.Steps.{idle, next_of, delivery, round_whole, round_part}

module _ (refuses : ℕ → Bool) where
  unfoldable pub deliveries : ℕ → List HarborMsg → List Action
  deliveries self [] = []
  deliveries self (m ∷ ms) = delivery refuses self m ++ deliveries self ms

  receive_returns :
      (fuel self id : ℕ) (s s' : Slave) (bytes : List ℕ) (actions : List Action)
      → on_status refuses self id s s.status bytes ≡ some (actions, s', returns)
      → receive refuses (suc fuel) self id s bytes ≡ some (actions, s')
  unfolding receive
  receive_returns fuel self id s s' bytes actions e = rw (receive, e) refl

  receive_goes_on :
      (fuel self id : ℕ) (s s' s'' : Slave) (bytes rest : List ℕ) (actions more : List Action)
      → on_status refuses self id s s.status bytes ≡ some (actions, s', goes_on rest)
      → receive refuses fuel self id s' rest ≡ some (more, s'')
      → receive refuses (suc fuel) self id s bytes ≡ some (actions ++ more, s'')
  unfolding receive
  receive_goes_on fuel self id s s' s'' bytes rest actions more e f = rw (receive, e, f) refl

  -- What the loop does to a slave.
  record Received (fuel self id : ℕ) (s : Slave) (bytes tail : List ℕ) (ms : List HarborMsg)
      : Type 0 where
    s' : Slave
    run : receive refuses fuel self id s bytes ≡ some (deliveries self ms, s')
    holds : Holds tail s'
    same_fd : s'.fd ≡ s.fd
    same_queue : s'.queue ≡ s.queue

  receive_part :
      (fuel self id : ℕ) (s : Slave) (text bytes : List ℕ)
      → Holds text s
      → IsPart (text ++ bytes)
      → Received (suc fuel) self id s bytes (text ++ bytes) []
  unfolding deliveries
  receive_part fuel self id s text bytes holds part =
      let (s', run, holds', f, q) = round_part refuses self id s text bytes holds part in
      record {
        s' = s';
        run = receive_returns fuel self id s s' bytes [] run;
        holds = holds';
        same_fd = f;
        same_queue = q;
      }

  receive_last :
      (fuel self id : ℕ) (s : Slave) (m : HarborMsg) (text bytes : List ℕ)
      → IsMessage m
      → Holds text s
      → text ++ bytes ≡ frame m ++ []
      → Received (suc fuel) self id s bytes [] (m ∷ [])
  unfolding deliveries
  receive_last fuel self id s m text bytes v holds e = record {
    s' = idle s;
    run =
        receive_returns fuel self id s (idle s) bytes (delivery refuses self m)
          (round_whole refuses self id s m text bytes [] v holds e)
        ∙ ap (λ a. some (a, idle s)) (sym (append-nil (delivery refuses self m)));
    holds = at_header refl refl (omega arith);
    same_fd = refl;
    same_queue = refl;
  }

  receive_next :
      (fuel self id : ℕ) (s : Slave) (m : HarborMsg) (ms : List HarborMsg)
      (text bytes rest tail : List ℕ)
      → IsMessage m
      → Holds text s
      → text ++ bytes ≡ frame m ++ rest
      → 0 < length rest
      → Received fuel self id (idle s) rest tail ms
      → Received (suc fuel) self id s bytes tail (m ∷ ms)
  unfolding deliveries
  receive_next fuel self id s m ms text bytes rest tail v holds e more r =
      let on : next_of rest ≡ goes_on rest = ground (arith, more) in
      record {
        s' = r.s';
        run =
            receive_goes_on fuel self id s (idle s) r.s' bytes rest (delivery refuses self m)
              (deliveries self ms)
              (round_whole refuses self id s m text bytes rest v holds e
                ∙ ap (λ n. some (delivery refuses self m, idle s, n)) on)
              r.run;
        holds = r.holds;
        same_fd = r.same_fd;
        same_queue = r.same_queue;
      }

  receive_lem :
      (ms : List HarborMsg) (fuel self id : ℕ) (s : Slave) (text bytes tail : List ℕ)
      → All IsMessage ms
      → IsPart tail
      → Holds text s
      → text ++ bytes ≡ frames ms ++ tail
      → length ms ≤ fuel
      → Received (suc fuel) self id s bytes tail ms
  receive_lem [] fuel self id s text bytes tail v part holds e le =
      let waits : IsPart (text ++ bytes) = rw e part in
      rw e at (receive_part fuel self id s text bytes holds waits)
  receive_lem (m ∷ ms) zero self id s text bytes tail v part holds e le = absurd (omega arith)
  receive_lem (m ∷ []) (suc fuel) self id s text bytes [] v part holds e le =
      receive_last (suc fuel) self id s m text bytes v.0 holds (e ∙ append-nil (frame m ++ []))
  receive_lem (m ∷ []) (suc fuel) self id s text bytes (b ∷ tail) v part holds e le =
      receive_next (suc fuel) self id s m [] text bytes (b ∷ tail) (b ∷ tail) v.0 holds
        (e ∙ append_assoc (frame m) [] (b ∷ tail)) (omega arith)
        (receive_lem [] fuel self id (idle s) [] (b ∷ tail) (b ∷ tail) v.1 part
          (at_header refl refl (omega arith)) refl (omega arith))
  receive_lem (m ∷ n ∷ ms) (suc fuel) self id s text bytes tail v part holds e le =
      let rest : List ℕ = frames (n ∷ ms) ++ tail in
      let long : 0 < length rest = omega (
        arith,
        length-append (frames (n ∷ ms)) tail,
        length-append (frame n) (frames ms),
        length-append (to_bigendian (length n.buffer + 12)) (payload n),
        length-payload n,
      ) in
      receive_next (suc fuel) self id s m (n ∷ ms) text bytes rest tail v.0 holds
        (e ∙ append_assoc (frame m) (frames (n ∷ ms)) tail) long
        (receive_lem (n ∷ ms) fuel self id (idle s) [] rest tail v.1 part
          (at_header refl refl (omega arith)) refl (omega arith))

  length-frames : (ms : List HarborMsg) → 16 * length ms ≤ length (frames ms)
  length-frames [] = omega arith
  length-frames (m ∷ ms) = omega (
    arith,
    length-frames ms,
    length-append (frame m) (frames ms),
    length-payload m,
    length-append (to_bigendian (length m.buffer + 12)) (payload m),
    length-to_bigendian (length m.buffer + 12),
  )

  Holds-length : (text : List ℕ) (s : Slave) → Holds text s → length text ≤ length s.received + 4
  Holds-length text s (at_header is held short) = omega (arith, ap length held)
  Holds-length text s (at_content is small more same) = omega (
    arith,
    ap length same,
    length-append (to_bigendian s.length) s.received,
    length-to_bigendian s.length,
  )

  pushed :
      (h : Harbor) (fd : ℕ) (bytes : List ℕ) (actions : List Action) (s' : Slave)
      → harbor_id h fd ≢ 0
      → receive refuses
          (suc (length (h.s (harbor_id h fd)).received + length bytes + 2))
          h.id
          (harbor_id h fd)
          (h.s (harbor_id h fd))
          bytes
        ≡ some (actions, s')
      → push_socket_data refuses h fd bytes
        ≡ some (actions, record h { s = update h.s (harbor_id h fd) s' })
  unfolding push_socket_data
  pushed h fd bytes actions s' known run =
      let f : (harbor_id h fd == 0) ≡ false = ground (arith, known) in
      rw (push_socket_data, f, run) refl

  -- `push_socket_data` on the bytes that have come from another node, once the nodes have shaken hands: if
  -- what was waiting and these bytes are some messages, as `send_remote` puts them on the wire, and the
  -- beginning of another, then these messages are sent on to the services of this node, in order, and
  -- that beginning waits. So the messages do not depend on how the bytes were split.
  pub push_socket_data_lem :
      (h : Harbor) (fd : ℕ) (text bytes tail : List ℕ) (ms : List HarborMsg)
      → harbor_id h fd ≢ 0
      → Holds text (h.s (harbor_id h fd))
      → text ++ bytes ≡ frames ms ++ tail
      → All IsMessage ms
      → IsPart tail
      → (s' : Slave) × (push_socket_data refuses h fd bytes
          ≡ some (deliveries h.id ms, record h { s = update h.s (harbor_id h fd) s' }))
        × Holds tail s'
        × (s'.fd ≡ (h.s (harbor_id h fd)).fd)
        × (s'.queue ≡ (h.s (harbor_id h fd)).queue)
  push_socket_data_lem h fd text bytes tail ms known holds e v part =
      let id : ℕ = harbor_id h fd in
      let s : Slave = h.s id in
      let enough : length ms ≤ length s.received + length bytes + 2 = omega (
        arith,
        length-frames ms,
        Holds-length text s holds,
        ap length e,
        length-append text bytes,
        length-append (frames ms) tail,
      ) in
      let r =
        receive_lem ms (length s.received + length bytes + 2) h.id id s text bytes tail v part holds
          e enough in
      (
        r.s',
        pushed h fd bytes (deliveries h.id ms) r.s' known r.run,
        r.holds,
        r.same_fd,
        r.same_queue,
      )
