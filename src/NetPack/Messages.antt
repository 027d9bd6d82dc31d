-- ===== src/NetPack/Messages.antt =====
-- `lfilter` of lua-netpack.c: what the socket messages of skynet_socket.h do to the packet queue.
use game_server.Common.{ℕ, ◌<◌, ◌≡◌, ◌≢◌, refl, Option, none, some, List, length, arith}
use game_server.NetPack.{Answer, PackQueue, filter_data, close_uncomplete}
use game_server.NetPack.Ready.{IsRing}
use game_server.NetPack.Table.{pending, IsTable, close_uncomplete-IsTable, pending-close_uncomplete}
use game_server.NetPack.Split.{Bytes}
use game_server.NetPack.Deliver.{filter_data_lem}

-- `struct skynet_socket_message` by its type; the text is the padding behind the message. A `data`
-- message has a buffer and no padding, else the assertion fails. `other` is the default.
pub data SocketMessage : Type 0 where
  data_message : ℕ → List ℕ → SocketMessage
  connect_message : SocketMessage
  close_message : ℕ → SocketMessage
  accept_message : ℕ → List ℕ → SocketMessage
  error_message : ℕ → List ℕ → SocketMessage
  warning_message : ℕ → ℕ → SocketMessage
  other : SocketMessage

-- What `lfilter` returns to Lua behind the queue.
pub data Event : Type 0 where
  nothing : Event
  answered : Answer → Event
  closed : ℕ → Event
  opened : ℕ → List ℕ → Event
  failed : ℕ → List ℕ → Event
  warned : ℕ → ℕ → Event

-- `lfilter`; `none` is a read past the buffer of a `data` message.
pub lfilter : SocketMessage → PackQueue → Option (Event × PackQueue)
lfilter (data_message fd buffer) q = elim (filter_data fd buffer q) [
  | none ↦ none
  | some (a, q') ↦ some (answered a, q')
]
lfilter connect_message q = some (nothing, q)
lfilter (close_message fd) q = some (closed fd, close_uncomplete fd q)
lfilter (accept_message fd text) q = some (opened fd text, q)
lfilter (error_message fd text) q = some (failed fd text, close_uncomplete fd q)
lfilter (warning_message fd ud) q = some (warned fd ud, q)
lfilter other q = some (nothing, q)

-- A `data` message brings at least one byte.
abbrev pub IsProper : SocketMessage → Type 0
IsProper (data_message fd buffer) = Bytes buffer × 0 < length buffer
IsProper connect_message = Unit
IsProper (close_message fd) = Unit
IsProper (accept_message fd text) = Unit
IsProper (error_message fd text) = Unit
IsProper (warning_message fd ud) = Unit
IsProper other = Unit

-- whether a message is the last of a socket, or brings bytes of it
abbrev pub Concerns : SocketMessage → ℕ → Type 0
Concerns (data_message fd buffer) fd' = fd' ≡ fd
Concerns connect_message fd' = ⊥
Concerns (close_message fd) fd' = fd' ≡ fd
Concerns (accept_message fd text) fd' = ⊥
Concerns (error_message fd text) fd' = fd' ≡ fd
Concerns (warning_message fd ud) fd' = ⊥
Concerns other fd' = ⊥

-- A run of `lfilter` that ends well.
pub record Handled (m : SocketMessage) (q : PackQueue) : Type 0 where
  pub event : Event
  pub after : PackQueue
  pub returns : lfilter m q ≡ some (event, after)
  pub ring : IsRing after
  pub table : IsTable after
  pub others : (fd : ℕ) → ¬ Concerns m fd → pending after fd ≡ pending q fd

data_runs :
    (fd : ℕ) (buffer : List ℕ) (q q' : PackQueue) (a : Answer)
    → filter_data fd buffer q ≡ some (a, q')
    → lfilter (data_message fd buffer) q ≡ some (answered a, q')
unfolding lfilter
data_runs fd buffer q q' a e = rw (lfilter, e) refl

close_uncomplete-IsRing : (fd : ℕ) {q : PackQueue} → IsRing q → IsRing (close_uncomplete fd q)
unfolding close_uncomplete
close_uncomplete-IsRing fd v = record { head_in = v.head_in; tail_in = v.tail_in }

pending-close_other :
    (fd fd' : ℕ) {q : PackQueue}
    → IsTable q
    → fd' ≢ fd
    → pending (close_uncomplete fd q) fd' ≡ pending q fd'
pending-close_other fd fd' t ne = ground (arith, pending-close_uncomplete fd fd' t)

-- Every socket message is handled: with ring and table valid and at least one byte in a data message,
-- `lfilter` ends, ring and table stay valid, and what is kept changes for no socket but the one
-- whose bytes or whose end the message brings.
pub lfilter_lem :
    (m : SocketMessage) (q : PackQueue) → IsRing q → IsTable q → IsProper m → Handled m q
unfolding lfilter
lfilter_lem (data_message fd buffer) q v t h =
    let f = filter_data_lem fd buffer q v t h.0 h.1 in
    record {
      event = answered f.answer;
      after = f.after;
      returns = data_runs fd buffer q f.after f.answer f.returns;
      ring = f.outcome.ring;
      table = f.outcome.table;
      others = f.outcome.others;
    }
lfilter_lem connect_message q v t h = record {
  event = nothing;
  after = q;
  returns = refl;
  ring = v;
  table = t;
  others = λ fd c. refl;
}
lfilter_lem (close_message fd) q v t h = record {
  event = closed fd;
  after = close_uncomplete fd q;
  returns = refl;
  ring = close_uncomplete-IsRing fd v;
  table = close_uncomplete-IsTable fd t;
  others = λ fd' c. pending-close_other fd fd' t c;
}
lfilter_lem (accept_message fd text) q v t h = record {
  event = opened fd text;
  after = q;
  returns = refl;
  ring = v;
  table = t;
  others = λ fd c. refl;
}
lfilter_lem (error_message fd text) q v t h = record {
  event = failed fd text;
  after = close_uncomplete fd q;
  returns = refl;
  ring = close_uncomplete-IsRing fd v;
  table = close_uncomplete-IsTable fd t;
  others = λ fd' c. pending-close_other fd fd' t c;
}
lfilter_lem (warning_message fd ud) q v t h = record {
  event = warned fd ud;
  after = q;
  returns = refl;
  ring = v;
  table = t;
  others = λ fd c. refl;
}
lfilter_lem other q v t h = record {
  event = nothing;
  after = q;
  returns = refl;
  ring = v;
  table = t;
  others = λ fd c. refl;
}
