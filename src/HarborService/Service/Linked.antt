-- ===== src/HarborService/Service/Linked.antt =====
-- A node that is down keeps the connection that is closed.
use mathlib.Core.Path.{subst}
use native.Mathlib.Decide.{ℕ_discrete}
use game_server.Common.{
  ℕ, suc, ◌+◌, ◌-◌, ◌/◌, ◌^◌, ◌≡◌, ◌≢◌, refl, sym, ap, ◌∙◌, Bool, false, ◌||◌, Option, none, some,
  List, [], ◌∷◌, ◌++◌, length, drop, leb, ◌==◌, update, Bool-cases, Option-cases, inl, inr, arith,
}
use game_server.HarborService.{HarborMsg, wait, header, down, Slave, Harbor, Action, complain}
use game_server.HarborService.Wire.{dispatch_queue, send_remote}
use game_server.HarborService.Wire.Frames.{dispatch_queue-fd}
use game_server.HarborService.Receive.{receive, harbor_id, push_socket_data}
use game_server.HarborService.Receive.Linked.{receive-fd, receive_wait}
use game_server.HarborService.Send.{addressed, is_handshake, remote_send_handle}
use game_server.HarborService.Names.Links.{
  SameLinks, KeepsLinks, fails, succeeds, update_name-KeepsLinks, remote_send_handle-SameLinks,
  remote_send_name-SameLinks,
}
use game_server.HarborService.Service.{
  harbor_init, Input, socket_data, socket_end, socket_warning, socket_connect, socket_other,
  command, to_handle, to_name, connect, harbor_command, mainloop, zeros,
}

-- Only a slave that has not been heard of is without a connection.
abbrev pub IsLinked : Harbor → Type 0
IsLinked h = (i : ℕ) → (h.s i).fd ≡ 0 → (h.s i).status ≡ wait

SameLinks-IsLinked : (h h' : Harbor) → SameLinks h h' → IsLinked h → IsLinked h'
SameLinks-IsLinked h h' same l i e = same.status i ∙ l i (sym (same.fd i) ∙ e)

-- One slave changes.
changed-IsLinked :
    (h : Harbor) (id : ℕ) (s : Slave)
    → IsLinked h
    → (s.fd ≡ 0 → s.status ≡ wait)
    → IsLinked (record h { s = update h.s id s })
changed-IsLinked h id s l here i e = elim (ℕ_discrete id i) [
  | yes same ↦
      let f : update h.s id s i ≡ s = ground arith in
      ap (λ x. x.status) f ∙ here (sym (ap (λ x. x.fd) f) ∙ e)
  | no ne ↦
      let f : update h.s id s i ≡ h.s i = ground arith in
      ap (λ x. x.status) f ∙ l i (sym (ap (λ x. x.fd) f) ∙ e)
]

-- If it succeeds, the state is such again.
pub data KeepsLinked : Option (List Action × Harbor) → Type 0 where
  nothing : KeepsLinked none
  linked : (actions : List Action) (h' : Harbor) → IsLinked h' → KeepsLinked (some (actions, h'))

KeepsLinked-some :
    (r : Option (List Action × Harbor)) (actions : List Action) (h' : Harbor)
    → KeepsLinked r
    → r ≡ some (actions, h')
    → IsLinked h'
KeepsLinked-some r actions h' nothing e = absurd (cc)
KeepsLinked-some r actions h' (linked a g l) e =
    let same : g ≡ h' = ground (arith, e) in subst IsLinked same l

KeepsLinks-KeepsLinked :
    (h : Harbor) (r : Option (List Action × Harbor)) → IsLinked h → KeepsLinks h r → KeepsLinked r
KeepsLinks-KeepsLinked h none l fails = nothing
KeepsLinks-KeepsLinked h (some (a, h')) l (succeeds actions g same) =
    linked _ _ (SameLinks-IsLinked h _ same l)

connect-KeepsLinked :
    (h : Harbor) (shakes : Bool) (fd id : ℕ) → IsLinked h → KeepsLinked (connect h shakes fd id)
unfolding connect
connect-KeepsLinked h shakes fd id l = elim (Bool-cases (fd == 0 || (id == 0 || leb 256 id))) [
  | inl t ↦ rw (connect, t) (linked _ _ l)
  | inr f ↦
      let some_fd : fd ≢ 0 = ground (arith, f) in
      elim (Bool-cases ((h.s id).fd == 0)) [
        | inl u ↦ elim (Bool-cases shakes) [
          | inl k ↦
              rw (connect, f, u, k)
                (linked _ _ (changed-IsLinked h id _ l (λ e. absurd (some_fd e))))
          | inr k ↦
              let s : Slave = record (h.s id) { fd = fd; status = header } in
              elim (Option-cases (dispatch_queue s)) [
                | inl z ↦ rw (connect, f, u, k, z) nothing
                | inr ((sent, s'), e) ↦
                    let same = dispatch_queue-fd s s' sent e in
                    rw (connect, f, u, k, e)
                      (linked _ _
                        (changed-IsLinked h id s' l (λ z. absurd (some_fd (sym same ∙ z)))))
              ]
        ]
        | inr v ↦ rw (connect, f, v) (linked _ _ l)
      ]
]

push-KeepsLinked :
    (refuses : ℕ → Bool) (h : Harbor) (fd : ℕ) (bytes : List ℕ)
    → IsLinked h
    → KeepsLinked (push_socket_data refuses h fd bytes)
unfolding push_socket_data
push-KeepsLinked refuses h fd bytes l =
    let id : ℕ = harbor_id h fd in
    let fuel : ℕ = suc (length (h.s id).received + length bytes + 2) in
    elim (Bool-cases (id == 0)) [
      | inl t ↦ rw (push_socket_data, t) (linked _ _ l)
      | inr f ↦ elim (Option-cases (receive refuses fuel h.id id (h.s id) bytes)) [
        | inl z ↦ rw (push_socket_data, f, z) nothing
        | inr ((actions, s'), e) ↦
            let same = receive-fd refuses h.id fuel id (h.s id) s' bytes actions e in
            let here : s'.fd ≡ 0 → s'.status ≡ wait = λ z.
              let waits = l id (sym same ∙ z) in
              ap (λ s. s.status)
                (receive_wait refuses h.id fuel id (h.s id) s' bytes actions waits e)
              ∙ waits in
            rw (push_socket_data, f, e) (linked _ _ (changed-IsLinked h id s' l here))
      ]
    ]

module _ (refuses : ℕ → Bool) (fresh : ℕ → HarborMsg) (scan : List ℕ → ℕ × ℕ)
    (print_down : ℕ → List ℕ) where
  command-KeepsLinked :
      (h : Harbor) (source : ℕ) (msg : List ℕ)
      → IsLinked h
      → KeepsLinked (harbor_command refuses fresh scan print_down h source msg)
  unfolding harbor_command
  command-KeepsLinked h source [] l = nothing
  command-KeepsLinked h source (c ∷ msg) l =
      let name : List ℕ = drop 1 msg in
      elim (Bool-cases (c == 78)) [
        | inl t ↦ elim (Bool-cases (length name == 0 || leb 16 (length name))) [
          | inl u ↦ rw (harbor_command, t, u) (linked _ _ l)
          | inr v ↦
              rw (harbor_command, t, v)
                (KeepsLinks-KeepsLinked h _ l
                  (update_name-KeepsLinks h (name ++ zeros (16 - length name)) source))
        ]
        | inr f ↦ elim (Bool-cases (c == 83 || c == 65)) [
          | inl u ↦ elim (Bool-cases (length msg == 0)) [
            | inl z ↦ rw (harbor_command, f, u, z) nothing
            | inr w ↦ rw (harbor_command, f, u, w) (connect-KeepsLinked h (c == 83) _ _ l)
          ]
          | inr v ↦ rw (harbor_command, f, v) (linked _ _ l)
        ]
      ]

  mainloop-KeepsLinked :
      (h : Harbor) (input : Input)
      → IsLinked h
      → KeepsLinked (mainloop refuses fresh scan print_down h input)
  unfolding mainloop
  mainloop-KeepsLinked h (socket_data fd bytes) l = push-KeepsLinked refuses h fd bytes l
  mainloop-KeepsLinked h (socket_end fd) l = linked _ _ l
  mainloop-KeepsLinked h (socket_warning fd) l = linked _ _ l
  mainloop-KeepsLinked h socket_connect l = linked _ _ l
  mainloop-KeepsLinked h socket_other l = linked _ _ l
  mainloop-KeepsLinked h (command source msg) l = command-KeepsLinked h source msg l
  mainloop-KeepsLinked h (to_handle source destination type session msg) l = linked _ _ (
      SameLinks-IsLinked h _
        (remote_send_handle-SameLinks fresh h source destination type session msg) l)
  mainloop-KeepsLinked h (to_name source name type session msg) l =
      linked _ _
        (SameLinks-IsLinked h _ (remote_send_name-SameLinks fresh h source name type session msg) l)

  -- The states that the service comes to.
  pub data Reach : Harbor → Type 0 where
    start : (id slave : ℕ) → Reach (harbor_init id slave)
    step :
        {h h' : Harbor} (input : Input) (actions : List Action)
        → Reach h
        → mainloop refuses fresh scan print_down h input ≡ some (actions, h')
        → Reach h'

  Reach-IsLinked : (h : Harbor) → Reach h → IsLinked h
  unfolding harbor_init
  Reach-IsLinked h (start id slave) = λ i e. refl
  Reach-IsLinked h (step {h = g} input actions r e) =
      KeepsLinked-some _ actions h (mainloop-KeepsLinked g input (Reach-IsLinked g r)) e

  -- In no state that the service comes to is a node that is down taken for one: what is sent to it is
  -- written to the connection that has been closed, its source gets no error, and the command to
  -- connect it again is refused.
  pub Reach_down :
      (h : Harbor) (source destination type session : ℕ) (msg : List ℕ) (shakes : Bool) (fd : ℕ)
      → Reach h
      → destination / 2 ^ 24 ≢ h.id
      → (h.s (destination / 2 ^ 24)).status ≡ down
      → (remote_send_handle fresh h source destination type session msg ≡ (
        send_remote (h.s (destination / 2 ^ 24)).fd msg (record {
          source = source;
          destination = addressed type destination;
          session = session;
        }),
        h,
        false,
      ))
        × (connect h shakes fd (destination / 2 ^ 24) ≡ some (complain ∷ [], h))
  unfolding remote_send_handle connect is_handshake
  Reach_down h source destination type session msg shakes fd r remote is =
      let s : Slave = h.s (destination / 2 ^ 24) in
      let here : s.fd ≢ 0 = λ z.
        absurd (let w : down ≡ wait = sym is ∙ Reach-IsLinked h r (destination / 2 ^ 24) z in cc) in
      let f : (destination / 2 ^ 24 == h.id) ≡ false = ground (arith, remote) in
      let u : (s.fd == 0) ≡ false = ground (arith, here) in
      let k : is_handshake s.status ≡ false = ap is_handshake is in
      (
        rw (remote_send_handle, f, u, k) refl,
        elim (Bool-cases
            (fd == 0 || (destination / 2 ^ 24 == 0 || leb 256 (destination / 2 ^ 24)))) [
              | inl a ↦ rw (connect, a) refl
              | inr b ↦ rw (connect, b, u) refl
            ],
      )
