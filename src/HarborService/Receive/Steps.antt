-- ===== src/HarborService/Receive/Steps.antt =====
-- The rounds of the receiving loop.
use game_server.Common.{
  ℕ, ◌+◌, ◌-◌, ◌*◌, ◌/◌, ◌^◌, ◌≤◌, ◌<◌, ◌≡◌, refl, sym, ap, ◌∙◌, Bool, true, false, some, List, [],
  ◌∷◌, ◌++◌, length, take, drop, take_front, drop_front, length-append, append_assoc, ltb, ◌==◌,
  if◌then◌else◌, arith,
}
use game_server.HarborService.{HarborMsg, Slave, header, content, Action, send, complain}
use game_server.HarborService.Wire.{to_bigendian, header_to_message, message_to_header}
use game_server.HarborService.Wire.Frames.{
  length-to_bigendian, to_bigendian_short, message_to_header-header_to_message,
}
use game_server.HarborService.Receive.{
  ptype_error, dontcopy, localised, Next, returns, goes_on, forward_local, on_content, on_size,
  on_header, on_status,
}
use game_server.HarborService.Receive.Held.{
  IsMessage, payload, frame, length-payload, IsPart, in_size, in_payload, Holds, at_header,
  at_content, cut_at, to_bigendian_cancel,
}

-- The slave between two messages.
abbrev pub idle : Slave → Slave
idle s = record s { length = 0; received = []; status = header }

abbrev pub next_of : List ℕ → Next
next_of rest = if length rest == 0 then returns else goes_on rest

module _ (refuses : ℕ → Bool) where
  -- What a node with this id does with a message for it: it is sent on to its destination here, as it
  -- was sent; if that is not known, its source gets an error, unless it was one itself.
  unfoldable pub delivery : ℕ → HarborMsg → List Action
  delivery id m =
      let type = m.header.destination / 2 ^ 24 in
      let destination = localised id m.header.destination in
      send m.header.source destination (dontcopy type) m.header.session m.buffer
      ∷ (if refuses destination
          then (if type == ptype_error
              then complain ∷ []
              else send destination m.header.source ptype_error m.header.session [] ∷ complain ∷ [])
          else [])

  forward_local-payload :
      (id : ℕ) (m : HarborMsg)
      → IsMessage m
      → forward_local refuses id (payload m) ≡ some (delivery id m)
  unfolding forward_local delivery
  forward_local-payload id m v =
      let n : length (payload m) - 12 ≡ length m.buffer = omega (arith, length-payload m) in
      let long : ltb (length (payload m)) 12 ≡ false = ground (arith, length-payload m) in
      let front : take (length (payload m) - 12) (payload m) ≡ m.buffer =
        ap (λ k. take k (payload m)) n ∙ take_front m.buffer (header_to_message m.header) in
      let behind : message_to_header (drop (length (payload m) - 12) (payload m)) ≡ m.header =
        ap (λ k. message_to_header (drop k (payload m))) n
        ∙ ap message_to_header (drop_front m.buffer (header_to_message m.header))
        ∙ message_to_header-header_to_message m.header v.header_in in
      rw (long, front, behind) (ground arith)

  content_runs :
      (id : ℕ) (s : Slave) (bytes rest whole : List ℕ) (actions : List Action)
      → ltb (length bytes) (s.length - length s.received) ≡ false
      → s.received ++ take (s.length - length s.received) bytes ≡ whole
      → forward_local refuses id whole ≡ some actions
      → drop (s.length - length s.received) bytes ≡ rest
      → length bytes - (s.length - length s.received) ≡ length rest
      → on_content refuses id s bytes ≡ some (actions, idle s, next_of rest)
  unfolding on_content
  content_runs id s bytes rest whole actions enough front run behind n =
      rw (on_content, enough, front, run, behind, n) refl

  -- The rest of the message is there.
  content_whole :
      (id : ℕ) (s : Slave) (m : HarborMsg) (bytes rest : List ℕ)
      → IsMessage m
      → s.length ≡ length (payload m)
      → length s.received ≤ s.length
      → s.received ++ bytes ≡ payload m ++ rest
      → on_content refuses id s bytes ≡ some (delivery id m, idle s, next_of rest)
  content_whole id s m bytes rest v len le e =
      let (front, behind, n) = cut_at s.received bytes (payload m) rest e (omega arith) in
      content_runs id s bytes rest (payload m) (delivery id m) (ground arith)
        (ap (λ k. s.received ++ take (k - length s.received) bytes) len ∙ front)
        (forward_local-payload id m v) (ap (λ k. drop (k - length s.received) bytes) len ∙ behind)
        (omega arith)

  content_waits :
      (id : ℕ) (s : Slave) (bytes : List ℕ)
      → length s.received + length bytes < s.length
      → on_content refuses id s bytes
        ≡ some ([], record s { received = s.received ++ bytes }, returns)
  unfolding on_content
  content_waits id s bytes lt =
      let short : ltb (length bytes) (s.length - length s.received) ≡ true = ground arith in
      rw short refl

  -- The slave that has read a size.
  abbrev pub sized : Slave → ℕ → Slave
  sized s len = record s { length = len; received = []; status = content }

  size_bytes :
      (id b c d : ℕ) (s : Slave) (bytes : List ℕ)
      → on_size refuses id s (0 ∷ b ∷ c ∷ d ∷ []) bytes ≡ (
          if length bytes == 0
          then some ([], sized s (b * 2 ^ 16 + c * 2 ^ 8 + d), returns)
          else on_content refuses id (sized s (b * 2 ^ 16 + c * 2 ^ 8 + d)) bytes)
  unfolding on_size
  size_bytes id b c d s bytes = refl

  size_runs :
      (id len : ℕ) (s : Slave) (bytes : List ℕ)
      → len < 2 ^ 24
      → on_size refuses id s (to_bigendian len) bytes ≡ (
          if length bytes == 0
          then some ([], sized s len, returns)
          else on_content refuses id (sized s len) bytes)
  size_runs id len s bytes lt =
      let (b, c, d, same, sum) = to_bigendian_short len lt in
      ap (λ size. on_size refuses id s size bytes) same
      ∙ size_bytes id b c d s bytes
      ∙ ap
          (λ k.
            if length bytes == 0
            then some ([], sized s k, returns)
            else on_content refuses id (sized s k) bytes)
          sum

  header_steps :
      (id : ℕ) (s : Slave) (text bytes rest size : List ℕ)
      → s.received ≡ text
      → ltb (length bytes) (4 - length text) ≡ false
      → text ++ take (4 - length text) bytes ≡ size
      → drop (4 - length text) bytes ≡ rest
      → on_header refuses id s bytes ≡ on_size refuses id s size rest
  unfolding on_header
  header_steps id s text bytes rest size held enough front behind =
      let enough' : ltb (length bytes) (4 - length s.received) ≡ false =
        ap (λ t. ltb (length bytes) (4 - length t)) held ∙ enough in
      let front' : s.received ++ take (4 - length s.received) bytes ≡ size =
        ap (λ t. t ++ take (4 - length t) bytes) held ∙ front in
      let behind' : drop (4 - length s.received) bytes ≡ rest =
        ap (λ t. drop (4 - length t) bytes) held ∙ behind in
      rw (on_header, enough', front', behind') refl

  header_waits :
      (id : ℕ) (s : Slave) (bytes : List ℕ)
      → length s.received + length bytes < 4
      → on_header refuses id s bytes
        ≡ some ([], record s { received = s.received ++ bytes }, returns)
  unfolding on_header
  header_waits id s bytes lt =
      let short : ltb (length bytes) (4 - length s.received) ≡ true = ground arith in rw short refl

  header_runs :
      (id len : ℕ) (s : Slave) (text bytes rest : List ℕ)
      → s.received ≡ text
      → length text < 4
      → len < 2 ^ 24
      → text ++ bytes ≡ to_bigendian len ++ rest
      → on_header refuses id s bytes ≡ (
          if length rest == 0
          then some ([], sized s len, returns)
          else on_content refuses id (sized s len) rest)
  header_runs id len s text bytes rest held short lt e =
      let four = length-to_bigendian len in
      let (front, behind, n) = cut_at text bytes (to_bigendian len) rest e (omega (arith, four)) in
      header_steps id s text bytes rest (to_bigendian len) held (ground (arith, four))
        (ap (λ k. text ++ take (k - length text) bytes) (sym four) ∙ front)
        (ap (λ k. drop (k - length text) bytes) (sym four) ∙ behind)
      ∙ size_runs id len s rest lt

  -- A round on a whole message: it is sent on, and the slave is between two messages.
  pub round_whole :
      (self id : ℕ) (s : Slave) (m : HarborMsg) (text bytes rest : List ℕ)
      → IsMessage m
      → Holds text s
      → text ++ bytes ≡ frame m ++ rest
      → on_status refuses self id s s.status bytes ≡ some (delivery self m, idle s, next_of rest)
  unfolding on_status
  round_whole self id s m text bytes rest v (at_header is held short) e =
      let len : ℕ = length m.buffer + 12 in
      let n = length-payload m in
      let more : (length (payload m ++ rest) == 0) ≡ false =
        ground (arith, n, length-append (payload m) rest) in
      ap (λ status. on_status refuses self id s status bytes) is
      ∙ header_runs self len s text bytes (payload m ++ rest) held short v.short
          (e ∙ append_assoc (to_bigendian len) (payload m) rest)
      ∙ (rw more (
          content_whole self (sized s len) m (payload m ++ rest) rest v (sym n) (omega arith) refl))
  round_whole self id s m text bytes rest v (at_content is small more same) e =
      let len : ℕ = length m.buffer + 12 in
      let whole : to_bigendian s.length ++ (s.received ++ bytes)
          ≡ to_bigendian len ++ (payload m ++ rest) =
        sym (append_assoc (to_bigendian s.length) s.received bytes)
        ∙ ap (λ t. t ++ bytes) (sym same)
        ∙ e
        ∙ append_assoc (to_bigendian len) (payload m) rest in
      let (n, left) =
        to_bigendian_cancel s.length len (s.received ++ bytes) (payload m ++ rest) (omega arith)
          (omega (arith, v.short)) whole in
      ap (λ status. on_status refuses self id s status bytes) is
      ∙ content_whole self s m bytes rest v (n ∙ sym (length-payload m)) (omega arith) left

  -- The size is there, and perhaps some of the message.
  header_part :
      (self len : ℕ) (s : Slave) (text bytes got : List ℕ)
      → s.received ≡ text
      → length text < 4
      → len < 2 ^ 24
      → length got < len
      → text ++ bytes ≡ to_bigendian len ++ got
      → on_header refuses self s bytes ≡ some ([], record (sized s len) { received = got }, returns)
  header_part self len s text bytes [] held short small lt e =
      header_runs self len s text bytes [] held short small e
  header_part self len s text bytes (b ∷ got) held short small lt e =
      let more : (length (b ∷ got) == 0) ≡ false = ground arith in
      header_runs self len s text bytes (b ∷ got) held short small e
      ∙ (rw more (content_waits self (sized s len) (b ∷ got) (omega arith)))

  -- A round on the beginning of a message, which waits.
  pub round_part :
      (self id : ℕ) (s : Slave) (text bytes : List ℕ)
      → Holds text s
      → IsPart (text ++ bytes)
      → (s' : Slave) × (on_status refuses self id s s.status bytes ≡ some ([], s', returns))
        × Holds (text ++ bytes) s'
        × (s'.fd ≡ s.fd)
        × (s'.queue ≡ s.queue)
  unfolding on_status
  round_part self id s text bytes (at_header is held short) (in_size lt) =
      let n = length-append text bytes in
      (
        record s { received = s.received ++ bytes },
        ap (λ status. on_status refuses self id s status bytes) is
            ∙ header_waits self s bytes (omega (arith, ap length held, n)),
        at_header is (ap (λ t. t ++ bytes) held) lt,
        refl,
        refl,
      )
  round_part self id s text bytes (at_header is held short) (in_payload len got small lt e) = (
    record (sized s len) { received = got },
    ap (λ status. on_status refuses self id s status bytes) is
        ∙ header_part self len s text bytes got held short small lt e,
    at_content refl small lt e,
    refl,
    refl,
  )
  round_part self id s text bytes (at_content is small more same) (in_size lt) = absurd (
      omega (
        arith,
        length-append text bytes,
        ap length same,
        length-append (to_bigendian s.length) s.received,
        length-to_bigendian s.length,
      ))
  round_part self id s text bytes (at_content is small more same) (in_payload len got small' lt e) =
      let whole : text ++ bytes ≡ to_bigendian s.length ++ (s.received ++ bytes) =
        ap (λ t. t ++ bytes) same ∙ append_assoc (to_bigendian s.length) s.received bytes in
      let (n, left) =
        to_bigendian_cancel s.length len (s.received ++ bytes) got (omega arith) (omega arith)
          (sym whole ∙ e) in
      let size : length s.received + length bytes < s.length =
        omega (arith, n, ap length left, length-append s.received bytes) in
      (
        record s { received = s.received ++ bytes },
        ap (λ status. on_status refuses self id s status bytes) is
            ∙ content_waits self s bytes size,
        at_content is small (omega (arith, size, length-append s.received bytes)) whole,
        refl,
        refl,
      )
