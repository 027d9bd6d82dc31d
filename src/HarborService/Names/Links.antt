-- ===== src/HarborService/Names/Links.antt =====
-- Messages by handle and by name change the queues of the slaves, and not their connections.
use native.Mathlib.Decide.{ℕ_discrete}
use game_server.Common.{
  ℕ, ◌/◌, ◌^◌, ◌≡◌, refl, ap, ◌∙◌, ◌||◌, Option, none, some, List, ◌==◌, update, Bool-cases,
  Option-cases, inl, inr, arith,
}
use game_server.HarborService.{
  HarborMsg, HarborMsgQueue, KeyValue, Slave, Harbor, Action, drain_queue,
}
use game_server.HarborService.Send.{is_down, is_handshake, remote_send_handle}
use game_server.HarborService.Names.{
  found_map, found_node, joined, dispatch_name_queue, update_name, remote_send_name,
}

-- No connection has changed.
pub record SameLinks (h h' : Harbor) : Type 0 where
  pub fd : (i : ℕ) → (h'.s i).fd ≡ (h.s i).fd
  pub status : (i : ℕ) → (h'.s i).status ≡ (h.s i).status

abbrev requeued : Harbor → ℕ → Option HarborMsgQueue → Harbor
requeued h id queue = record h { s = update h.s id (record (h.s id) { queue = queue }) }

requeued_at :
    (h : Harbor) (id : ℕ) (queue : Option HarborMsgQueue) (i : ℕ)
    → (((requeued h id queue).s i).fd ≡ (h.s i).fd)
      × (((requeued h id queue).s i).status ≡ (h.s i).status)
requeued_at h id queue i = elim (ℕ_discrete id i) [
  | yes e ↦
      let same : (requeued h id queue).s i ≡ record (h.s id) { queue = queue } = ground arith in
      (
        ap (λ s. s.fd) same ∙ ap (λ k. (h.s k).fd) e,
        ap (λ s. s.status) same ∙ ap (λ k. (h.s k).status) e,
      )
  | no ne ↦
      let same : (requeued h id queue).s i ≡ h.s i = ground arith in
      (ap (λ s. s.fd) same, ap (λ s. s.status) same)
]

requeued-SameLinks :
    (h : Harbor) (id : ℕ) (queue : Option HarborMsgQueue) → SameLinks h (requeued h id queue)
requeued-SameLinks h id queue = record {
  fd = λ i. (requeued_at h id queue i).0;
  status = λ i. (requeued_at h id queue i).1;
}

same_links : (h : Harbor) → SameLinks h h
same_links h = record { fd = λ i. refl; status = λ i. refl }

-- If it succeeds, no connection has changed.
pub data KeepsLinks (h : Harbor) : Option (List Action × Harbor) → Type 0 where
  fails : KeepsLinks h none
  succeeds :
      (actions : List Action) (h' : Harbor) → SameLinks h h' → KeepsLinks h (some (actions, h'))

dispatch-KeepsLinks :
    (h : Harbor) (handle : ℕ) (queue : HarborMsgQueue)
    → KeepsLinks h (dispatch_name_queue h handle queue)
unfolding dispatch_name_queue
dispatch-KeepsLinks h handle queue =
    let s : Slave = h.s (handle / 2 ^ 24) in
    elim (Bool-cases (s.fd == 0)) [
      | inl t ↦ elim (Bool-cases (is_down s.status)) [
        | inl d ↦ rw (dispatch_name_queue, t, d) (succeeds _ _ (same_links h))
        | inr u ↦ elim (Option-cases (joined s.queue queue)) [
          | inl z ↦ rw (dispatch_name_queue, t, u, z) fails
          | inr (q, e) ↦ elim (Bool-cases (handle / 2 ^ 24 == h.slave / 2 ^ 24)) [
            | inl l ↦ elim (Option-cases (drain_queue q)) [
              | inl z ↦ rw (dispatch_name_queue, t, u, e, l, z) fails
              | inr (ms, f) ↦
                  rw (dispatch_name_queue, t, u, e, l, f)
                    (succeeds _ _ (requeued-SameLinks h (handle / 2 ^ 24) none))
            ]
            | inr r ↦
                rw (dispatch_name_queue, t, u, e, r)
                  (succeeds _ _ (requeued-SameLinks h (handle / 2 ^ 24) (some q)))
          ]
        ]
      ]
      | inr f ↦ elim (Option-cases (drain_queue queue)) [
        | inl z ↦ rw (dispatch_name_queue, f, z) fails
        | inr (ms, e) ↦ rw (dispatch_name_queue, f, e) (succeeds _ _ (same_links h))
      ]
    ]

keeps_map :
    (h : Harbor) (map : ℕ → List KeyValue) (r : Option (List Action × Harbor))
    → KeepsLinks h r
    → KeepsLinks h
        (elim r [ none ↦ none | some (actions, h') ↦ some (actions, record h' { map = map }) ])
keeps_map h map none fails = fails
keeps_map h map (some (a, h')) (succeeds actions h'' same) =
    succeeds _ _ (record { fd = same.fd; status = same.status })

pub update_name-KeepsLinks :
    (h : Harbor) (name : List ℕ) (handle : ℕ) → KeepsLinks h (update_name h name handle)
unfolding update_name
update_name-KeepsLinks h name handle =
    let node : KeyValue = record (found_node h.map name) { value = handle } in
    elim (Option-cases (found_node h.map name).queue) [
      | inl z ↦ rw (update_name, z) (succeeds _ _ (record { fd = λ i. refl; status = λ i. refl }))
      | inr (q, e) ↦ rw (update_name, e) (keeps_map h _ _ (dispatch-KeepsLinks h handle q))
    ]

pub remote_send_handle-SameLinks :
    (fresh : ℕ → HarborMsg) (h : Harbor) (source destination type session : ℕ) (msg : List ℕ)
    → SameLinks h (remote_send_handle fresh h source destination type session msg).1
unfolding remote_send_handle
remote_send_handle-SameLinks fresh h source destination type session msg =
    let s : Slave = h.s (destination / 2 ^ 24) in
    elim (Bool-cases (destination / 2 ^ 24 == h.id)) [
      | inl t ↦ rw (remote_send_handle, t) (same_links h)
      | inr f ↦ elim (Bool-cases (s.fd == 0 || is_handshake s.status)) [
        | inl u ↦ elim (Bool-cases (is_down s.status)) [
          | inl d ↦ rw (remote_send_handle, f, u, d) (same_links h)
          | inr w ↦
              rw (remote_send_handle, f, u, w)
                (requeued-SameLinks h (destination / 2 ^ 24) (some _))
        ]
        | inr v ↦ rw (remote_send_handle, f, v) (same_links h)
      ]
    ]

pub remote_send_name-SameLinks :
    (fresh : ℕ → HarborMsg) (h : Harbor) (source : ℕ) (name : List ℕ) (type session : ℕ)
    (msg : List ℕ)
    → SameLinks h (remote_send_name fresh h source name type session msg).1
unfolding remote_send_name
remote_send_name-SameLinks fresh h source name type session msg =
    let node : KeyValue = found_node h.map name in
    elim (Bool-cases (node.value == 0)) [
      | inl t ↦ rw (remote_send_name, t) (record { fd = λ i. refl; status = λ i. refl })
      | inr f ↦
          let g : Harbor = record h { map = found_map h.map name } in
          let same = remote_send_handle-SameLinks fresh g source node.value type session msg in
          rw (remote_send_name, f) (record { fd = same.fd; status = same.status })
    ]
