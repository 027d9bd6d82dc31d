-- ===== src/Harbor.antt =====
-- skynet-dist/skynet-src/skynet_harbor.c: which handles belong to another node, and
-- `skynet_context_newsession` of skynet_server.c.
use game_server.Common.{
  ℕ, ◌+◌, ◌-◌, ◌*◌, ◌/◌, ◌%◌, ◌^◌, ◌<◌, ◌≡◌, ◌≢◌, Bool, true, false, not, ◌&&◌, Option, none, some,
  ◌==◌, ltb, if◌then◌else◌, arith,
}
use game_server.Handle.{Storage, init}
use game_server.Handle.Register.{Claimed}

-- `skynet_harbor_init`: the value of `HARBOR`.
pub harbor_init : ℕ → ℕ
harbor_init harbor = harbor * 2 ^ 24 % 2 ^ 32

-- `skynet_harbor_message_isremote`; `handle & ~HANDLE_MASK` clears the low 24 bits. `none` is the
-- failed assertion that `HARBOR` has been set.
pub message_isremote : ℕ → ℕ → Option Bool
message_isremote HARBOR handle =
    let h = handle / 2 ^ 24 * 2 ^ 24 in
    if HARBOR == 2 ^ 32 - 1 then none else some (not (h == HARBOR) && not (h == 0))

-- A handle that `skynet_handle_register` gives out on this node is not taken for a remote one, when
-- both tables were initialised with the same harbor id.
pub isremote-register :
    (fuel address id : ℕ) (s s' : Storage) (handle : ℕ)
    → id < 2 ^ 8
    → s.harbor ≡ (init id).harbor
    → Claimed fuel address s handle s'
    → message_isremote (harbor_init id) handle ≡ some false
unfolding message_isremote harbor_init init
isremote-register fuel address id s s' handle lt e c = ground (arith, c.local_handle)

-- A handle of another node, with a harbor id of its own that is not 0, is taken for a remote one.
isremote_other :
    (id other low : ℕ)
    → id < 2 ^ 8
    → other < 2 ^ 8
    → low < 2 ^ 24
    → other ≢ 0
    → other ≢ id
    → message_isremote (harbor_init id) (other * 2 ^ 24 + low) ≡ some true
unfolding message_isremote harbor_init
isremote_other id other low a b c d e = ground arith

-- `skynet_context_newsession`, on the 32-bit pattern of `session_id`: the session and the new field.
pub newsession : ℕ → ℕ × ℕ
newsession session_id =
    let session = (session_id + 1) % 2 ^ 32 in
    if session == 0 then (1, 1) else (if ltb session (2 ^ 31) then (session, session) else (1, 1))

-- A session is a positive `int`, is what the field now holds, and differs from the one before.
pub newsession_lem :
    (session_id : ℕ)
    → session_id < 2 ^ 32
    → let (session, id') = newsession session_id in
      (0 < session) × (session < 2 ^ 31) × (id' ≡ session) × ((newsession id').0 ≢ session)
unfolding newsession
newsession_lem session_id h = ground arith
