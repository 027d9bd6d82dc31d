-- ===== src/HarborService/Receive/Linked.antt =====
-- What comes over a connection does not change which connection a slave has.
use game_server.Common.{
  ℕ, zero, suc, ◌+◌, ◌-◌, ◌*◌, ◌^◌, ◌≡◌, refl, ap, Bool, some, List, [], ◌∷◌, ◌++◌, length, take,
  drop, ◌==◌, Bool-cases, Option-cases, inl, inr, arith,
}
use game_server.HarborService.{
  Status, wait, handshake, header, content, down, Slave, Action, close_harbor,
}
use game_server.HarborService.Wire.{dispatch_queue}
use game_server.HarborService.Wire.Frames.{dispatch_queue-fd}
use game_server.HarborService.Receive.{
  Next, returns, goes_on, on_content, on_size, on_header, on_handshake, on_status, receive,
}

close_harbor-fd : (s : Slave) → (close_harbor s).1.fd ≡ s.fd
unfolding close_harbor
close_harbor-fd s = refl

module _ (refuses : ℕ → Bool) (self : ℕ) where
  on_content-fd :
      (s s' : Slave) (bytes : List ℕ) (actions : List Action) (next : Next)
      → on_content refuses self s bytes ≡ some (actions, s', next)
      → s'.fd ≡ s.fd
  unfolding on_content
  on_content-fd s s' bytes actions next e = ground arith

  on_size-fd :
      (s s' : Slave) (size bytes : List ℕ) (actions : List Action) (next : Next)
      → on_size refuses self s size bytes ≡ some (actions, s', next)
      → s'.fd ≡ s.fd
  unfolding on_size
  on_size-fd s s' [] bytes actions next e = absurd (cc)
  on_size-fd s s' (a ∷ []) bytes actions next e = absurd (cc)
  on_size-fd s s' (a ∷ b ∷ []) bytes actions next e = absurd (cc)
  on_size-fd s s' (a ∷ b ∷ c ∷ []) bytes actions next e = absurd (cc)
  on_size-fd s s' (a ∷ b ∷ c ∷ d ∷ []) bytes actions next e =
      let read : Slave = record s {
        length = b * 2 ^ 16 + c * 2 ^ 8 + d;
        received = [];
        status = content;
      } in
      ground (arith, close_harbor-fd s, on_content-fd read s' bytes actions next)
  on_size-fd s s' (a ∷ b ∷ c ∷ d ∷ x ∷ xs) bytes actions next e = absurd (cc)

  on_header-fd :
      (s s' : Slave) (bytes : List ℕ) (actions : List Action) (next : Next)
      → on_header refuses self s bytes ≡ some (actions, s', next)
      → s'.fd ≡ s.fd
  unfolding on_header
  on_header-fd s s' bytes actions next e = ground (
    arith,
    on_size-fd s s' (s.received ++ take (4 - length s.received) bytes)
        (drop (4 - length s.received) bytes) actions next,
  )

  on_handshake-fd :
      (id : ℕ) (s s' : Slave) (bytes : List ℕ) (actions : List Action) (next : Next)
      → on_handshake refuses self id s bytes ≡ some (actions, s', next)
      → s'.fd ≡ s.fd
  unfolding on_handshake
  on_handshake-fd id s s' [] actions next e = absurd (cc)
  on_handshake-fd id s s' (b ∷ bytes) actions next e = elim (Bool-cases (b == id)) [
    | inl t ↦ elim (Option-cases (dispatch_queue (record s { status = header }))) [
      | inl z ↦ ground (arith, t, z)
      | inr ((sent, s0), f) ↦
          let same = dispatch_queue-fd (record s { status = header }) s0 sent f in
          elim (Bool-cases (length bytes == 0)) [
            | inl end ↦ ground (arith, t, f, end, same)
            | inr more ↦ elim (Option-cases (on_header refuses self s0 bytes)) [
              | inl z ↦ ground (arith, t, f, more, z)
              | inr ((a, s2, n), g) ↦
                  ground (arith, t, f, more, g, same, on_header-fd s0 s2 bytes a n g)
            ]
          ]
    ]
    | inr f ↦ ground (arith, f, close_harbor-fd s)
  ]

  on_status-fd :
      (id : ℕ) (s s' : Slave) (status : Status) (bytes : List ℕ) (actions : List Action)
      (next : Next)
      → on_status refuses self id s status bytes ≡ some (actions, s', next)
      → s'.fd ≡ s.fd
  unfolding on_status
  on_status-fd id s s' handshake bytes actions next e = on_handshake-fd id s s' bytes actions next e
  on_status-fd id s s' header bytes actions next e = on_header-fd s s' bytes actions next e
  on_status-fd id s s' content bytes actions next e = on_content-fd s s' bytes actions next e
  on_status-fd id s s' wait bytes actions next e = ground arith
  on_status-fd id s s' down bytes actions next e = ground arith

  pub receive-fd :
      (fuel id : ℕ) (s s' : Slave) (bytes : List ℕ) (actions : List Action)
      → receive refuses fuel self id s bytes ≡ some (actions, s')
      → s'.fd ≡ s.fd
  unfolding receive
  receive-fd zero id s s' bytes actions e = absurd (cc)
  receive-fd (suc fuel) id s s' bytes actions e =
      elim (Option-cases (on_status refuses self id s s.status bytes)) [
        | inl z ↦ ground (arith, z)
        | inr ((a, s1, returns), f) ↦
            ground (arith, f, on_status-fd id s s1 s.status bytes a returns f)
        | inr ((a, s1, goes_on rest), f) ↦
            let one = on_status-fd id s s1 s.status bytes a (goes_on rest) f in
            elim (Option-cases (receive refuses fuel self id s1 rest)) [
              | inl z ↦ ground (arith, f, z)
              | inr ((more, s2), g) ↦
                  ground (arith, f, g, one, receive-fd fuel id s1 s2 rest more g)
            ]
      ]

  -- A slave that waits for a connection ignores what comes.
  pub receive_wait :
      (fuel id : ℕ) (s s' : Slave) (bytes : List ℕ) (actions : List Action)
      → s.status ≡ wait
      → receive refuses fuel self id s bytes ≡ some (actions, s')
      → s' ≡ s
  unfolding receive on_status
  receive_wait zero id s s' bytes actions is e = absurd (cc)
  receive_wait (suc fuel) id s s' bytes actions is e =
      let f : on_status refuses self id s s.status bytes ≡ some ([], s, returns) =
        ap (λ status. on_status refuses self id s status bytes) is in
      ground (arith, f, e)
