-- ===== src/Cluster/Request/Call.antt =====
-- The calls of `lpackrequest` that return.
use game_server.Common.{
  ℕ, suc, ◌-◌, ◌/◌, ◌^◌, ◌<◌, ◌≤◌, ◌≡◌, ◌∙◌, ap, refl, false, none, some, List, ◌∷◌, map, length,
  leb, ◌==◌, ◌||◌, arith,
}
use game_server.NetPack.Split.{frame}
use game_server.Cluster.{multi_part, part_count, returned, Value}
use game_server.Cluster.Request.Sent.{IsAddress, start}
use game_server.Cluster.Request.Packs.{packreq-large, Parts, packreq_multi-Parts}
use game_server.Cluster.Request.{
  advance, lpackrequest, packreq, packreq_multi, byte_at, lunpackrequest,
}

pub advance_in : (session : ℕ) → (0 < advance session) × (advance session < 2 ^ 31)
unfolding advance
advance_in session = ground arith

pub byte_at_four :
    (a b c d e : ℕ) (rest : List ℕ) → byte_at 4 (a ∷ b ∷ c ∷ d ∷ e ∷ rest) ≡ returned e
unfolding byte_at
byte_at_four a b c d e rest = refl

pub lpackrequest_single :
    (addr : Value) (session : ℕ) (msg : List ℕ) {packet : List ℕ}
    → 0 < session
    → session < 2 ^ 31
    → packreq addr session msg ≡ returned (packet, 0)
    → lpackrequest addr session (some msg)
      ≡ returned (record { request = packet; next_session = advance session; padding = none })
unfolding lpackrequest
lpackrequest_single addr session msg pos lt e =
    let valid : ((session == 0) || leb (2 ^ 31) session) ≡ false = ground arith in
    rw (lpackrequest, valid, e) refl

pub lpackrequest_parts :
    (addr : Value) (session : ℕ) (msg : List ℕ) (n : ℕ) {packet : List ℕ} {packets : List (List ℕ)}
    → 0 < session
    → session < 2 ^ 31
    → packreq addr session msg ≡ returned (packet, suc n)
    → packreq_multi (suc n) session msg ≡ returned packets
    → lpackrequest addr session (some msg)
      ≡ returned
          (record { request = packet; next_session = advance session; padding = some packets })
unfolding lpackrequest
lpackrequest_parts addr session msg n pos lt e parts =
    let valid : ((session == 0) || leb (2 ^ 31) session) ≡ false = ground arith in
    let counted : (suc n == 0) ≡ false = ground arith in
    rw (lpackrequest, valid, e, counted, parts) refl

-- The packets of a large request: the one that announces it, and the parts.
pub record Announced (addr : Value) (session : ℕ) (msg : List ℕ) : Type 0 where
  pub body : List ℕ
  pub bodies : List (List ℕ)
  pub returns :
      lpackrequest addr session (some msg)
      ≡ returned (record {
        request = frame body;
        next_session = advance session;
        padding = some (map frame bodies);
      })
  pub short : length body < 2 ^ 16
  pub unpacked : lunpackrequest body ≡ returned (start addr session (length msg))
  pub parts : Parts session msg bodies

pub lpackrequest-Announced :
    (addr : Value) (session : ℕ) (msg : List ℕ)
    → IsAddress addr
    → 0 < session
    → session < 2 ^ 31
    → multi_part ≤ length msg
    → length msg < 2 ^ 31
    → Announced addr session msg
lpackrequest-Announced addr session msg a pos lt size small =
    let p = packreq-large addr session msg a (omega arith) size (omega arith) in
    let count : part_count (length msg) ≡ suc ((length msg - 1) / multi_part) = omega arith in
    let counted = p.packed ∙ ap (λ k. returned (frame p.body, k)) count in
    let (bodies, packed, parts) =
      packreq_multi-Parts ((length msg - 1) / multi_part) session msg (omega arith) (omega arith)
        (omega arith) in
    record {
      body = p.body;
      bodies = bodies;
      returns =
          lpackrequest_parts addr session msg ((length msg - 1) / multi_part) pos lt counted packed;
      short = p.short;
      unpacked = p.unpacked;
      parts = parts;
    }
