-- ===== src/Cluster/Large/RoundTrip.antt =====
-- From `lpackrequest` on one node to the service on the other.
use game_server.Common.{
  ℕ, ◌^◌, ◌<◌, ◌≡◌, ◌∙◌, ap, refl, none, some, List, [], ◌∷◌, map, length, All, update,
}
use game_server.NetPack.Split.{frame}
use game_server.Cluster.{returned, Value, number, string}
use game_server.Cluster.Request.{PackedRequest, lpackrequest, lunpackrequest}
use game_server.Cluster.Request.Sent.{start}
use game_server.Cluster.Request.Call.{Announced}
use game_server.Cluster.Large.{LargeRequest, waiting, request, opened, with_value, socket_data}
use game_server.Cluster.Large.Received.{Arrives}

-- all packets of a request
abbrev pub all_packets : PackedRequest → List (List ℕ)
all_packets p = elim p.padding [ none ↦ p.request ∷ [] | some parts ↦ p.request ∷ parts ]

-- What becomes of a request.
pub record Delivered (addr : Value) (session : ℕ) (msg : List ℕ) (large : LargeRequest)
    : Type 0 where
  pub packed : PackedRequest
  pub bodies : List (List ℕ)
  pub returns : lpackrequest addr session (some msg) ≡ returned packed
  pub framed : all_packets packed ≡ map frame bodies
  pub short : All (λ body. length body < 2 ^ 16) bodies
  pub positive : 0 < packed.next_session
  pub next_in : packed.next_session < 2 ^ 31
  pub arrives : Arrives session bodies large (request addr session (string msg) ∷ [])

pub socket_data-start :
    (addr : Value) (session size : ℕ) (body : List ℕ) (large : LargeRequest)
    → lunpackrequest body ≡ returned (start addr session size)
    → socket_data body large
      ≡ returned (
        waiting,
        update large session (some (with_value (opened (large session) addr) (number size))),
      )
unfolding socket_data
socket_data-start addr session size body large u = rw (socket_data, u) refl

-- The packet that announces a large request opens an entry.
pub begin_opened :
    {addr : Value} {session : ℕ} {msg : List ℕ} (large : LargeRequest)
    (p : Announced addr session msg)
    → large session ≡ none
    → socket_data p.body large
      ≡ returned (
        waiting,
        update large session (some (with_value (opened none addr) (number (length msg)))),
      )
begin_opened {addr} {session} {msg} large p e =
    socket_data-start addr session (length msg) p.body large p.unpacked
    ∙ ap
        (λ o.
          returned (
            waiting,
            update large session (some (with_value (opened o addr) (number (length msg)))),
          ))
        e
