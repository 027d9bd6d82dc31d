-- ===== src/HarborService/Names/Delivered.antt =====
-- What waits for a name goes out in order when its handle is learned.
use game_server.Common.{
  ℕ, ◌/◌, ◌^◌, ◌≡◌, ◌≢◌, refl, sym, ap, ◌∙◌, true, false, Option, none, some, List, [], ◌∷◌, ◌==◌,
  update, arith,
}
use game_server.HarborService.{HarborMsg, HarborMsgQueue, wait, KeyValue, Harbor, Action}
use game_server.HarborService.Queue.{IsRing, contents, drain_queue_lem}
use game_server.HarborService.Wire.{send_all}
use game_server.HarborService.Send.{addressed}
use game_server.HarborService.Send.{is_down}
use game_server.HarborService.Names.{
  joined, is_node, hash_search, found_map, found_node, store, or_handle, with_handle,
  all_with_handle, dispatch_name_queue, update_name,
}
use game_server.HarborService.Names.Search.{
  is_node_same, hash_search-is_node, hash_search-store, hash_search-found, found_node-some,
}
use game_server.HarborService.Names.Waiting.{Request, messages_to, Waits, send_names, all_sent}

-- The name is known by this handle, and nothing waits for it.
pub record Known (name : List ℕ) (handle : ℕ) (h : Harbor) : Type 0 where
  pub node : KeyValue
  pub here : hash_search h.map name ≡ some node
  pub value : node.value ≡ handle
  pub empty : node.queue ≡ none

or_handle-addressed :
    (type handle : ℕ) → or_handle (addressed type 0) handle ≡ addressed type handle
unfolding or_handle
or_handle-addressed type handle = ground arith

pub all_with_handle_lem :
    (handle : ℕ) (rs : List Request)
    → all_with_handle handle (messages_to 0 rs) ≡ messages_to handle rs
unfolding all_with_handle with_handle
all_with_handle_lem handle [] = refl
all_with_handle_lem handle (r ∷ rs) =
    rw (or_handle-addressed r.type handle, all_with_handle_lem handle rs) refl

-- The name is entered with its handle once its queue has been dispatched.
pub update_runs :
    (h h1 : Harbor) (name : List ℕ) (handle : ℕ) (rs : List Request) (actions : List Action)
    → (w : Waits name rs h) → dispatch_name_queue h handle w.ring ≡ some (actions, h1)
    → (h' : Harbor) × (update_name h name handle ≡ some (actions, h'))
      × Known name handle h'
      × (h'.s ≡ h1.s)
      × (h'.id ≡ h1.id)
unfolding update_name
update_runs h h1 name handle rs actions w run =
    let node : KeyValue = found_node h.map name in
    let same = found_node-some h.map name w.node w.here in
    let queue : node.queue ≡ some w.ring = ap (λ n. n.queue) same ∙ w.waiting in
    let there = hash_search-found h.map name in
    let new : KeyValue = record node {
      value = handle;
      queue = let gone : Option HarborMsgQueue = none in gone;
    } in
    let is : is_node name new ≡ true =
      is_node_same name node handle none
      ∙ hash_search-is_node (found_map h.map name) name node there in
    (
      record h1 { map = store (found_map h.map name) name new },
      rw (update_name, queue, run) refl,
      record {
        node = new;
        here = hash_search-store (found_map h.map name) name node new there is;
        value = refl;
        empty = refl;
      },
      refl,
      refl,
    )

dispatch_connected :
    (h : Harbor) (handle : ℕ) (ring : HarborMsgQueue)
    → IsRing ring
    → (h.s (handle / 2 ^ 24)).fd ≢ 0
    → dispatch_name_queue h handle ring
      ≡ some (send_all (h.s (handle / 2 ^ 24)).fd (all_with_handle handle (contents ring)), h)
unfolding dispatch_name_queue
dispatch_connected h handle ring v ne =
    let f : ((h.s (handle / 2 ^ 24)).fd == 0) ≡ false = ground (arith, ne) in
    rw (dispatch_name_queue, f, drain_queue_lem ring v) refl

-- Messages to a name that is not known wait; when `update_name` learns a handle of the name in a node that
-- is connected, all of them go out to that node, in order, each to that handle, and the name is known by it.
pub update_name-send_names :
    (fresh : ℕ → HarborMsg) (h : Harbor) (name : List ℕ) (handle : ℕ) (r : Request)
    (rs : List Request)
    → hash_search h.map name ≡ none
    → (h.s (handle / 2 ^ 24)).fd ≢ 0
    → (h' : Harbor) × (update_name (send_names fresh h name (r ∷ rs)) name handle
        ≡ some (send_all (h.s (handle / 2 ^ 24)).fd (messages_to handle (r ∷ rs)), h'))
      × Known name handle h'
      × (h'.s ≡ h.s)
update_name-send_names fresh h name handle r rs z ne =
    let h1 : Harbor = send_names fresh h name (r ∷ rs) in
    let (w, slaves, id, slave) = all_sent fresh h name r rs z in
    let fd : (h1.s (handle / 2 ^ 24)).fd ≡ (h.s (handle / 2 ^ 24)).fd =
      ap (λ s. (s (handle / 2 ^ 24)).fd) slaves in
    let sent = dispatch_connected h1 handle w.ring w.valid (λ e. ne (sym fd ∙ e)) in
    let (h', run, known, same, _) = update_runs h1 h1 name handle (r ∷ rs) _ w sent in
    (
      h',
      run
          ∙ ap (λ ms. some (send_all (h1.s (handle / 2 ^ 24)).fd (all_with_handle handle ms), h'))
              w.holds
          ∙ ap (λ ms. some (send_all (h1.s (handle / 2 ^ 24)).fd ms, h'))
              (all_with_handle_lem handle (r ∷ rs))
          ∙ ap (λ fd. some (send_all fd (messages_to handle (r ∷ rs)), h')) fd,
      known,
      same ∙ slaves,
    )

-- The queue of the name becomes that of a node that is not connected.
pub dispatch_unconnected :
    (h : Harbor) (handle : ℕ) (ring : HarborMsgQueue)
    → (h.s (handle / 2 ^ 24)).fd ≡ 0
    → (h.s (handle / 2 ^ 24)).status ≡ wait
    → (h.s (handle / 2 ^ 24)).queue ≡ none
    → handle / 2 ^ 24 ≢ h.slave / 2 ^ 24
    → dispatch_name_queue h handle ring
      ≡ some (
        [],
        record h {
          s = update h.s (handle / 2 ^ 24) (record (h.s (handle / 2 ^ 24)) { queue = some ring });
        },
      )
unfolding dispatch_name_queue joined is_down
dispatch_unconnected h handle ring fd status queue remote =
    let f : ((h.s (handle / 2 ^ 24)).fd == 0) ≡ true = ground (arith, fd) in
    let g : is_down (h.s (handle / 2 ^ 24)).status ≡ false = ap is_down status in
    let l : (handle / 2 ^ 24 == h.slave / 2 ^ 24) ≡ false = ground (arith, remote) in
    rw (dispatch_name_queue, f, g, queue, joined, l) refl
