-- ===== src/HarborService/Names/Waiting.antt =====
-- Messages to a name that is not known yet wait in its queue, in order.
use game_server.Common.{
  ℕ, ◌*◌, ◌%◌, ◌^◌, ◌≡◌, refl, sym, ap, ◌∙◌, true, none, some, List, [], ◌∷◌, ◌++◌, append-nil,
  append_assoc, ◌==◌, arith,
}
use game_server.HarborService.{HarborMsg, HarborMsgQueue, new_queue, KeyValue, Harbor}
use game_server.HarborService.Queue.{
  IsRing, contents, new_queue-IsRing, contents-new_queue, push_queue_msg_lem,
}
use game_server.HarborService.Send.{addressed, queued}
use game_server.HarborService.Names.{
  is_node, hash_search, new_node, found_map, found_node, store, remote_send_name,
}
use game_server.HarborService.Names.Search.{
  is_node_same, hash_search-is_node, hash_search-store, hash_search-found, found_node-some,
  found_node-none,
}

-- A message to a name.
pub record Request : Type 0 where
  pub source : ℕ
  pub type : ℕ
  pub session : ℕ
  pub msg : List ℕ

-- The message to a handle that it stands for, with the handle's low 24 bits.
abbrev pub message_to : ℕ → Request → HarborMsg
message_to handle r = record {
  header = record { source = r.source; destination = addressed r.type handle; session = r.session };
  buffer = r.msg;
}

abbrev pub messages_to : ℕ → List Request → List HarborMsg
messages_to handle [] = []
messages_to handle (r ∷ rs) = message_to handle r ∷ messages_to handle rs

-- The name is not known, and these requests wait for it.
pub record Waits (name : List ℕ) (rs : List Request) (h : Harbor) : Type 0 where
  pub node : KeyValue
  pub ring : HarborMsgQueue
  pub here : hash_search h.map name ≡ some node
  pub unknown : node.value ≡ 0
  pub waiting : node.queue ≡ some ring
  pub valid : IsRing ring
  pub holds : contents ring ≡ messages_to 0 rs

queued_lem :
    (fresh : ℕ → HarborMsg) (ring : HarborMsgQueue) (m : HarborMsg)
    → IsRing ring
    → IsRing (queued fresh (some ring) m)
      × (contents (queued fresh (some ring) m) ≡ contents ring ++ (m ∷ []))
unfolding queued
queued_lem fresh ring m v = push_queue_msg_lem ring m v

queued-none :
    (fresh : ℕ → HarborMsg) (m : HarborMsg)
    → IsRing (queued fresh none m) × (contents (queued fresh none m) ≡ m ∷ [])
unfolding queued
queued-none fresh m =
    let (v, e) = push_queue_msg_lem (new_queue fresh) m (new_queue-IsRing fresh) in
    (v, e ∙ ap (λ ms. ms ++ (m ∷ [])) (contents-new_queue fresh))

messages_to-append :
    (handle : ℕ) (rs : List Request) (r : Request)
    → messages_to handle (rs ++ (r ∷ [])) ≡ messages_to handle rs ++ (message_to handle r ∷ [])
messages_to-append handle [] r = refl
messages_to-append handle (q ∷ rs) r =
    ap (◌∷◌ (message_to handle q)) (messages_to-append handle rs r)

-- The requests are handed to `remote_send_name`, one after the other.
pub send_names : (ℕ → HarborMsg) → Harbor → List ℕ → List Request → Harbor
send_names fresh h name [] = h
send_names fresh h name (r ∷ rs) =
    send_names fresh (remote_send_name fresh h r.source name r.type r.session r.msg).1 name rs

-- A message to a name without a handle is queued.
sent_unknown :
    (fresh : ℕ → HarborMsg) (h : Harbor) (name : List ℕ) (r : Request)
    → (found_node h.map name).value ≡ 0
    → (remote_send_name fresh h r.source name r.type r.session r.msg).1 ≡ record h {
      map = store (found_map h.map name) name (record (found_node h.map name) {
        queue = some (queued fresh (found_node h.map name).queue (message_to 0 r));
      });
    }
unfolding remote_send_name
sent_unknown fresh h name r e =
    let f : ((found_node h.map name).value == 0) ≡ true = ground (arith, e) in
    let low : addressed r.type 0 ≡ r.type * 2 ^ 24 % 2 ^ 32 = omega arith in
    rw (remote_send_name, f)
      (ap
        (λ (d : ℕ). record h {
          map = store (found_map h.map name) name (record (found_node h.map name) {
            queue = some (
                queued fresh (found_node h.map name).queue (record {
                  header = record { source = r.source; destination = d; session = r.session };
                  buffer = r.msg;
                }));
          });
        })
        (sym low))

sent-Waits :
    (fresh : ℕ → HarborMsg) (h : Harbor) (name : List ℕ) (rs : List Request) (r : Request)
    → (found_node h.map name).value ≡ 0
    → (let q = queued fresh (found_node h.map name).queue (message_to 0 r) in
        IsRing q × (contents q ≡ messages_to 0 (rs ++ (r ∷ []))))
    → Waits name (rs ++ (r ∷ [])) (remote_send_name fresh h r.source name r.type r.session r.msg).1
sent-Waits fresh h name rs r e (v, holds) =
    let node : KeyValue = found_node h.map name in
    let q : HarborMsgQueue = queued fresh node.queue (message_to 0 r) in
    let there = hash_search-found h.map name in
    let new : KeyValue = record node { queue = some q } in
    let is : is_node name new ≡ true =
      is_node_same name node node.value (some q)
      ∙ hash_search-is_node (found_map h.map name) name node there in
    rw (sent_unknown fresh h name r e) (record {
      node = new;
      ring = q;
      here = hash_search-store (found_map h.map name) name node new there is;
      unknown = e;
      waiting = refl;
      valid = v;
      holds = holds;
    })

new_node_lem : (name : List ℕ) → ((new_node name).value ≡ 0) × ((new_node name).queue ≡ none)
unfolding new_node
new_node_lem name = (refl, refl)

first_sent :
    (fresh : ℕ → HarborMsg) (h : Harbor) (name : List ℕ) (r : Request)
    → hash_search h.map name ≡ none
    → Waits name (r ∷ []) (remote_send_name fresh h r.source name r.type r.session r.msg).1
first_sent fresh h name r z =
    let same = found_node-none h.map name z in
    let (v, q) = new_node_lem name in
    let (valid, one) = queued-none fresh (message_to 0 r) in
    let queue : (found_node h.map name).queue ≡ none = ap (λ n. n.queue) same ∙ q in
    sent-Waits fresh h name [] r (ap (λ n. n.value) same ∙ v) (rw queue (valid, one))

next_sent :
    (fresh : ℕ → HarborMsg) (h : Harbor) (name : List ℕ) (rs : List Request) (r : Request)
    → Waits name rs h
    → Waits name (rs ++ (r ∷ [])) (remote_send_name fresh h r.source name r.type r.session r.msg).1
next_sent fresh h name rs r w =
    let same = found_node-some h.map name w.node w.here in
    let (valid, more) = queued_lem fresh w.ring (message_to 0 r) w.valid in
    let queue : (found_node h.map name).queue ≡ some w.ring = ap (λ n. n.queue) same ∙ w.waiting in
    sent-Waits fresh h name rs r (ap (λ n. n.value) same ∙ w.unknown) (
      rw queue (
        valid,
        more ∙ ap (λ ms. ms ++ (message_to 0 r ∷ [])) w.holds ∙ sym (messages_to-append 0 rs r),
      ))

send_names-Waits :
    (fresh : ℕ → HarborMsg) (h : Harbor) (name : List ℕ) (before rs : List Request)
    → Waits name before h
    → Waits name (before ++ rs) (send_names fresh h name rs)
unfolding send_names
send_names-Waits fresh h name before [] w = rw (append-nil before) w
send_names-Waits fresh h name before (r ∷ rs) w = rw (sym (append_assoc before (r ∷ []) rs)) (
    send_names-Waits fresh (remote_send_name fresh h r.source name r.type r.session r.msg).1 name
      (before ++ (r ∷ [])) rs (next_sent fresh h name before r w))

-- Nothing but the map of names changes.
sent_slaves :
    (fresh : ℕ → HarborMsg) (h : Harbor) (name : List ℕ) (r : Request)
    → (found_node h.map name).value ≡ 0
    → (let h' = (remote_send_name fresh h r.source name r.type r.session r.msg).1 in
        (h'.s ≡ h.s) × (h'.id ≡ h.id) × (h'.slave ≡ h.slave))
sent_slaves fresh h name r e =
    let f = sent_unknown fresh h name r e in
    (ap (λ g. g.s) f, ap (λ g. g.id) f, ap (λ g. g.slave) f)

send_names_slaves :
    (fresh : ℕ → HarborMsg) (h : Harbor) (name : List ℕ) (before rs : List Request)
    → Waits name before h
    → (let h' = send_names fresh h name rs in (h'.s ≡ h.s) × (h'.id ≡ h.id) × (h'.slave ≡ h.slave))
unfolding send_names
send_names_slaves fresh h name before [] w = (refl, refl, refl)
send_names_slaves fresh h name before (r ∷ rs) w =
    let h1 : Harbor = (remote_send_name fresh h r.source name r.type r.session r.msg).1 in
    let zero_value : (found_node h.map name).value ≡ 0 =
      ap (λ n. n.value) (found_node-some h.map name w.node w.here) ∙ w.unknown in
    let (a, b, c) = sent_slaves fresh h name r zero_value in
    let (d, e, f) =
      send_names_slaves fresh h1 name (before ++ (r ∷ [])) rs (next_sent fresh h name before r w) in
    (d ∙ a, e ∙ b, f ∙ c)

-- What has been sent to a name that was not known waits for it, in order.
pub all_sent :
    (fresh : ℕ → HarborMsg) (h : Harbor) (name : List ℕ) (r : Request) (rs : List Request)
    → hash_search h.map name ≡ none
    → (let h' = send_names fresh h name (r ∷ rs) in
        Waits name (r ∷ rs) h' × (h'.s ≡ h.s) × (h'.id ≡ h.id) × (h'.slave ≡ h.slave))
unfolding send_names
all_sent fresh h name r rs z =
    let h1 : Harbor = (remote_send_name fresh h r.source name r.type r.session r.msg).1 in
    let w = first_sent fresh h name r z in
    let zero_value : (found_node h.map name).value ≡ 0 =
      ap (λ n. n.value) (found_node-none h.map name z) ∙ (new_node_lem name).0 in
    let (a, b, c) = sent_slaves fresh h name r zero_value in
    let (d, e, f) = send_names_slaves fresh h1 name (r ∷ []) rs w in
    (send_names-Waits fresh h1 name (r ∷ []) rs w, d ∙ a, e ∙ b, f ∙ c)
