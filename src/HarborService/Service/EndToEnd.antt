-- ===== src/HarborService/Service/EndToEnd.antt =====
-- A message from a service of one node to a service of another.
use game_server.Common.{
  ℕ, ◌+◌, ◌/◌, ◌^◌, ◌<◌, ◌≡◌, ◌≢◌, refl, sym, ap, ◌∙◌, Bool, false, some, List, [], ◌∷◌, append-nil,
  length, ◌==◌, if◌then◌else◌, update, arith,
}
use game_server.HarborService.{
  RemoteHeader, HarborMsg, Slave, Harbor, Action, send, socket_send, complain,
}
use game_server.HarborService.Wire.{send_remote}
use game_server.HarborService.Wire.Frames.{IsHeader, send_remote_short}
use game_server.HarborService.Receive.{
  ptype_error, dontcopy, localised, harbor_id, push_socket_data,
}
use game_server.HarborService.Receive.Held.{frame, frames, in_size, Holds}
use game_server.HarborService.Receive.Steps.{delivery}
use game_server.HarborService.Receive.Stream.{deliveries, push_socket_data_lem}
use game_server.HarborService.Send.{addressed, is_handshake, remote_send_handle}

sent_connected :
    (fresh : ℕ → HarborMsg) (g : Harbor) (source destination type session : ℕ) (msg : List ℕ)
    → destination / 2 ^ 24 ≢ g.id
    → (g.s (destination / 2 ^ 24)).fd ≢ 0
    → is_handshake (g.s (destination / 2 ^ 24)).status ≡ false
    → remote_send_handle fresh g source destination type session msg ≡ (
      send_remote
          (g.s (destination / 2 ^ 24)).fd
          msg
          (record { source = source; destination = addressed type destination; session = session }),
      g,
      false,
    )
unfolding remote_send_handle
sent_connected fresh g source destination type session msg remote connected shaken =
    let f : (destination / 2 ^ 24 == g.id) ≡ false = ground (arith, remote) in
    let u : ((g.s (destination / 2 ^ 24)).fd == 0) ≡ false = ground (arith, connected) in
    rw (remote_send_handle, f, u, shaken) refl

-- What the other node does with a message.
abbrev pub handed_on : (ℕ → Bool) → ℕ → ℕ → ℕ → ℕ → List ℕ → List Action
handed_on refuses source destination type session msg =
    send source destination (dontcopy type) session msg
    ∷ (if refuses destination
        then (if type == ptype_error
            then complain ∷ []
            else send destination source ptype_error session [] ∷ complain ∷ [])
        else [])

delivery-addressed :
    (refuses : ℕ → Bool) (id source destination type session : ℕ) (msg : List ℕ)
    → destination / 2 ^ 24 ≡ id
    → destination < 2 ^ 32
    → type < 2 ^ 8
    → delivery refuses id (record {
      header = record {
        source = source;
        destination = addressed type destination;
        session = session;
      };
      buffer = msg;
    })
      ≡ handed_on refuses source destination type session msg
unfolding delivery
delivery-addressed refuses id source destination type session msg e small kind =
    let t : addressed type destination / 2 ^ 24 ≡ type = omega arith in
    let d : localised id (addressed type destination) ≡ destination = omega arith in rw (t, d) refl

-- A message of less than 2^24 - 12 bytes, to a handle of another node: its fields are in their ranges,
-- this node has a connection to the node of the handle, the handshake with it is over, and the other
-- node, which knows the connection it reads from, is between two messages there. Then
-- `remote_send_handle` writes it to the connection, and when these bytes come, `push_socket_data` of the
-- other node sends it on to that very handle, with its source, type, session and bytes, or, where that
-- handle is not known, sends an error back.
pub push_socket_data-remote_send_handle :
    (refuses : ℕ → Bool) (fresh : ℕ → HarborMsg) (g h : Harbor)
    (fd source destination type session : ℕ) (msg : List ℕ)
    → destination / 2 ^ 24 ≡ h.id
    → h.id ≢ g.id
    → (g.s h.id).fd ≢ 0
    → is_handshake (g.s h.id).status ≡ false
    → harbor_id h fd ≢ 0
    → Holds [] (h.s (harbor_id h fd))
    → source < 2 ^ 32
    → destination < 2 ^ 32
    → type < 2 ^ 8
    → session < 2 ^ 32
    → length msg + 12 < 2 ^ 24
    → (bytes : List ℕ) × (s' : Slave) × (remote_send_handle fresh g source destination type session
          msg
        ≡ (socket_send (g.s h.id).fd bytes ∷ [], g, false))
      × (push_socket_data refuses h fd bytes
          ≡ some (
            handed_on refuses source destination type session msg,
            record h { s = update h.s (harbor_id h fd) s' },
          ))
      × Holds [] s'
unfolding deliveries
push_socket_data-remote_send_handle refuses fresh g h fd source destination type session msg to
      other connected shaken known holds s32 d32 t8 n32 short =
    let cookie : RemoteHeader = record {
      source = source;
      destination = addressed type destination;
      session = session;
    } in
    let m : HarborMsg = record { header = cookie; buffer = msg } in
    let header_in : IsHeader cookie = record {
      source_in = s32;
      destination_in = omega arith;
      session_in = n32;
    } in
    let link : (g.s (destination / 2 ^ 24)).fd ≡ (g.s h.id).fd = ap (λ k. (g.s k).fd) to in
    let sent =
      sent_connected fresh g source destination type session msg (λ e. other (sym to ∙ e))
        (λ e. connected (sym link ∙ e)) (ap (λ k. is_handshake (g.s k).status) to ∙ shaken) in
    let (s', run, holds', _, _) =
      push_socket_data_lem refuses h fd [] (frame m) [] (m ∷ []) known holds
        (sym (append-nil (frames (m ∷ [])) ∙ append-nil (frame m)))
        (record { header_in = header_in; short = short }, tt) (in_size (omega arith)) in
    (
      frame m,
      s',
      sent
          ∙ ap (λ (a : List Action). (let r : List Action × Harbor × Bool = (a, g, false) in r))
              (ap (λ k. send_remote k msg cookie) link
                ∙ send_remote_short (g.s h.id).fd msg cookie (omega arith)),
      run
          ∙ ap (λ a. some (a, record h { s = update h.s (harbor_id h fd) s' }))
              (append-nil (delivery refuses h.id m)
                ∙ delivery-addressed refuses h.id source destination type session msg to d32 t8),
      holds',
    )
