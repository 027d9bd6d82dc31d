-- ===== src/Tests/Clusters.antt =====
-- Two nodes of a cluster that send each other messages of 40,000 bytes.
use game_server.Common.{ℕ, zero, suc, ◌≡◌, ◌≢◌, refl, ap, true, none, List, [], ◌∷◌, length, arith}
use game_server.Cluster.{faulted, number}
use game_server.Cluster.Request.{lunpackrequest}
use game_server.Cluster.Request.Total.{lunpackrequest_total}
use game_server.Cluster.Large.{LargeRequest}
use game_server.Cluster.Large.Collision.{Collided, lpackrequest-Collided}
use game_server.Cluster.Response.Channel.{ResultData}
use game_server.Cluster.Response.RoundTrip.{Answered, lpackresponse-dispatch_by_session}

abbrev repeated : ℕ → List ℕ
repeated zero = []
repeated (suc n) = 7 ∷ repeated n

length-repeated : (n : ℕ) → length (repeated n) ≡ n
length-repeated zero = refl
length-repeated (suc n) = ap suc (length-repeated n)

abbrev nothing_open : LargeRequest
nothing_open session = none

abbrev nothing_kept : ResultData
nothing_kept session = none

-- requests of two nodes to the services 8 and 9
lpackrequest-Collided_example :
    Collided (number 8) (number 9) 1 (repeated 40000) (repeated 50000) nothing_open
lpackrequest-Collided_example =
    lpackrequest-Collided (number 8) (number 9) 1 (repeated 40000) (repeated 50000) nothing_open
      (omega arith) (omega arith) (omega arith) (omega arith) (omega (arith, length-repeated 40000))
      (omega (arith, length-repeated 40000)) (omega (arith, length-repeated 50000))
      (omega (arith, length-repeated 50000)) refl

lpackresponse-dispatch_by_session_example : Answered 5 true (repeated 40000) nothing_kept
lpackresponse-dispatch_by_session_example =
    lpackresponse-dispatch_by_session 5 true (repeated 40000) nothing_kept (omega arith)
      (omega (arith, length-repeated 40000)) refl

-- a request whose name is longer than the packet
lunpackrequest_total_example : lunpackrequest (128 ∷ 255 ∷ 1 ∷ 2 ∷ []) ≢ faulted
lunpackrequest_total_example = lunpackrequest_total (128 ∷ 255 ∷ 1 ∷ 2 ∷ [])
