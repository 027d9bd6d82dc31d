-- ===== src/HarborService/Names/Search.antt =====
-- The map of names: what is written under a name is found under it.
use game_server.Common.{
  ℕ, ◌%◌, ◌≡◌, refl, sym, ap, ◌∙◌, true, Option, none, some, List, [], ◌∷◌, Bool-cases,
  Option-cases, inl, inr, arith,
}
use game_server.HarborService.{KeyValue, HarborMsgQueue}
use game_server.HarborService.Names.{
  name_hash, same_text, is_node, find_node, hash_search, write_node, new_node, hash_insert,
  found_map, found_node, store,
}

same_text_self : (name : List ℕ) → same_text name name ≡ true
unfolding same_text
same_text_self [] = refl
same_text_self (b ∷ name) = ground (arith, same_text_self name)

pub is_node-new_node : (name : List ℕ) → is_node name (new_node name) ≡ true
unfolding is_node new_node
is_node-new_node name = ground (arith, same_text_self name)

-- The value and the queue of a node do not matter to the search.
pub is_node_same :
    (name : List ℕ) (node : KeyValue) (value : ℕ) (queue : Option HarborMsgQueue)
    → is_node name (record node { value = value; queue = queue }) ≡ is_node name node
unfolding is_node
is_node_same name node value queue = refl

find_node-is_node :
    (name : List ℕ) (nodes : List KeyValue) (node : KeyValue)
    → find_node name nodes ≡ some node
    → is_node name node ≡ true
unfolding find_node
find_node-is_node name [] node e = absurd (cc)
find_node-is_node name (n ∷ nodes) node e = elim (Bool-cases (is_node name n)) [
  | inl t ↦
      let same : some n ≡ some node = rw t at e in
      let here : n ≡ node = ground (arith, same) in ap (is_node name) (sym here) ∙ t
  | inr f ↦ find_node-is_node name nodes node (rw f at e)
]

find_node-write_node :
    (name : List ℕ) (nodes : List KeyValue) (node new : KeyValue)
    → find_node name nodes ≡ some node
    → is_node name new ≡ true
    → find_node name (write_node name new nodes) ≡ some new
unfolding find_node write_node
find_node-write_node name [] node new e h = absurd (cc)
find_node-write_node name (n ∷ nodes) node new e h = elim (Bool-cases (is_node name n)) [
  | inl t ↦ rw (t, h) refl
  | inr f ↦ rw (f, f) (find_node-write_node name nodes node new (rw f at e) h)
]

pub hash_search-is_node :
    (map : ℕ → List KeyValue) (name : List ℕ) (node : KeyValue)
    → hash_search map name ≡ some node
    → is_node name node ≡ true
unfolding hash_search
hash_search-is_node map name node e = find_node-is_node name (map (name_hash name % 4096)) node e

pub hash_search-store :
    (map : ℕ → List KeyValue) (name : List ℕ) (node new : KeyValue)
    → hash_search map name ≡ some node
    → is_node name new ≡ true
    → hash_search (store map name new) name ≡ some new
unfolding hash_search store
hash_search-store map name node new e h =
    ground (arith, find_node-write_node name (map (name_hash name % 4096)) node new e h)

hash_search-hash_insert :
    (map : ℕ → List KeyValue) (name : List ℕ)
    → hash_search (hash_insert map name) name ≡ some (new_node name)
unfolding hash_search hash_insert find_node
hash_search-hash_insert map name = ground (arith, is_node-new_node name)

-- The node that is used is in the map that is used.
pub hash_search-found :
    (map : ℕ → List KeyValue) (name : List ℕ)
    → hash_search (found_map map name) name ≡ some (found_node map name)
unfolding found_map found_node
hash_search-found map name = elim (Option-cases (hash_search map name)) [
  | inl z ↦ rw (found_map, found_node, z) (hash_search-hash_insert map name)
  | inr (node, e) ↦ rw (found_map, found_node, e) e
]

pub found_node-some :
    (map : ℕ → List KeyValue) (name : List ℕ) (node : KeyValue)
    → hash_search map name ≡ some node
    → found_node map name ≡ node
unfolding found_node
found_node-some map name node e = rw (found_node, e) refl

pub found_node-none :
    (map : ℕ → List KeyValue) (name : List ℕ)
    → hash_search map name ≡ none
    → found_node map name ≡ new_node name
unfolding found_node
found_node-none map name e = rw (found_node, e) refl
