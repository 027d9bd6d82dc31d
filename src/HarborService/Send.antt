-- ===== src/HarborService/Send.antt =====
-- Messages to other nodes, by their handle. `fresh` is what a new array of messages happens to hold.
use game_server.Common.{
  ℕ, ◌+◌, ◌*◌, ◌/◌, ◌%◌, ◌^◌, Bool, true, false, ◌||◌, Option, none, some, List, [], ◌∷◌, ◌==◌,
  if◌then◌else◌, update,
}
use game_server.HarborService.{
  RemoteHeader, HarborMsg, HarborMsgQueue, new_queue, push_queue_msg, Status, wait, handshake,
  header, content, down, Harbor, Action, send, complain,
}
use game_server.HarborService.Wire.{send_remote}
use game_server.HarborService.Receive.{ptype_error, dontcopy}

unfoldable pub is_handshake : Status → Bool
is_handshake handshake = true
is_handshake wait = false
is_handshake header = false
is_handshake content = false
is_handshake down = false

unfoldable pub is_down : Status → Bool
is_down down = true
is_down wait = false
is_down handshake = false
is_down header = false
is_down content = false

-- `(type << HANDLE_REMOTE_SHIFT) | (destination & HANDLE_MASK)`
abbrev pub addressed : ℕ → ℕ → ℕ
addressed type destination = type * 2 ^ 24 % 2 ^ 32 + destination % 2 ^ 24

module _ (fresh : ℕ → HarborMsg) where
  -- `if (queue == NULL) queue = new_queue();` and `push_queue`
  unfoldable pub queued : Option HarborMsgQueue → HarborMsg → HarborMsgQueue
  queued none m = push_queue_msg (new_queue fresh) m
  queued (some q) m = push_queue_msg q m

  -- `remote_send_handle`; the last component is whether it returns 1.
  unfoldable pub remote_send_handle : Harbor → ℕ → ℕ → ℕ → ℕ → List ℕ → List Action × Harbor × Bool
  remote_send_handle h source destination type session msg =
      let harbor_id = destination / 2 ^ 24 in
      let s = h.s harbor_id in
      let cookie : RemoteHeader = record {
        source = source;
        destination = addressed type destination;
        session = session;
      } in
      if harbor_id == h.id
      then (send source destination (dontcopy type) session msg ∷ [], h, true)
      else if s.fd == 0 || is_handshake s.status
      then (if is_down s.status
          then (send destination source ptype_error 0 [] ∷ complain ∷ [], h, false)
          else (
            [],
            record h {
              s = update h.s harbor_id (record s {
                queue = some (queued s.queue (record { header = cookie; buffer = msg }));
              });
            },
            true,
          ))
      else (send_remote s.fd msg cookie, h, false)
