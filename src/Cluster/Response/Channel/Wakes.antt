-- ===== src/Cluster/Response/Channel/Wakes.antt =====
-- How the packets of a session wake its coroutine.
use mathlib.Core.Path.{subst}
use game_server.Common.{
  ℕ, ◌+◌, ◌≡◌, ◌≢◌, refl, ap, ◌∙◌, Bool, true, false, none, some, List, [], ◌∷◌, ◌++◌, append_assoc,
  length, arith, length-append, update, update_self, update_other,
}
use game_server.Cluster.{returned, Value, string, lconcat}
use game_server.Cluster.Joined.{Collected, Collected-part, concat_strings_end}
use game_server.Cluster.Response.{lunpackresponse}
use game_server.Cluster.Response.Channel.{
  ResultData, ResultValue, value, values, woken, dispatch_by_session, answer, dispatch_all,
  values_of,
}
use game_server.Cluster.Response.Sent.{reply, Parts, last, more}

-- What packets of one session do: the coroutine is woken once, with `bytes`, and leaves no entry.
pub record Wakes (session : ℕ) (ok : Bool) (bodies : List (List ℕ)) (data_of : ResultData)
    (bytes : List ℕ) : Type 0 where
  pub found : ResultValue
  pub after : ResultData
  pub runs : dispatch_all bodies data_of ≡ returned (woken session ok found ∷ [], after)
  pub answers : answer found ≡ returned (some (string bytes))
  pub removed : after session ≡ none
  pub others : (session' : ℕ) → session' ≢ session → after session' ≡ data_of session'

-- The first of several packets.
pub Wakes-next :
    {session : ℕ} {bodies : List (List ℕ)} {bytes : List ℕ} (buf : List ℕ) (msg : Value)
    (data_of : ResultData)
    → lunpackresponse buf ≡ returned (some (reply session true msg true))
    → Wakes session true bodies
        (update data_of session (some (values_of (data_of session) ++ (msg ∷ []))))
        bytes
    → Wakes session true (buf ∷ bodies) data_of bytes
unfolding dispatch_all dispatch_by_session
Wakes-next {session} buf msg data_of u w = record {
  found = w.found;
  after = w.after;
  runs = rw (dispatch_all, dispatch_by_session, u, w.runs) refl;
  answers = w.answers;
  removed = w.removed;
  others = λ s ne. w.others s ne ∙ update_other data_of session s _ ne;
}

-- The last of them, when others were kept.
Wakes-last :
    (session : ℕ) (buf msg bytes : List ℕ) (vs : List Value) (data_of : ResultData)
    → lunpackresponse buf ≡ returned (some (reply session true (string msg) false))
    → data_of session ≡ some vs
    → lconcat (vs ++ (string msg ∷ [])) ≡ returned (some bytes)
    → Wakes session true (buf ∷ []) data_of bytes
unfolding dispatch_all dispatch_by_session answer
Wakes-last session buf msg bytes vs data_of u e c = record {
  found = values (vs ++ (string msg ∷ []));
  after = update data_of session none;
  runs = rw (dispatch_all, dispatch_by_session, u, e) refl;
  answers = rw (answer, c) refl;
  removed = update_self data_of session none;
  others = λ s ne. update_other data_of session s none ne;
}

-- The only one.
pub Wakes-single :
    (session : ℕ) (ok : Bool) (buf msg : List ℕ) (data_of : ResultData)
    → lunpackresponse buf ≡ returned (some (reply session ok (string msg) false))
    → data_of session ≡ none
    → Wakes session ok (buf ∷ []) data_of msg
unfolding dispatch_all dispatch_by_session answer
Wakes-single session true buf msg data_of u e = record {
  found = value (string msg);
  after = update data_of session none;
  runs = rw (dispatch_all, dispatch_by_session, u, e) refl;
  answers = refl;
  removed = update_self data_of session none;
  others = λ s ne. update_other data_of session s none ne;
}
Wakes-single session false buf msg data_of u e = record {
  found = value (string msg);
  after = update data_of session none;
  runs = rw (dispatch_all, dispatch_by_session, u) refl;
  answers = refl;
  removed = update_self data_of session none;
  others = λ s ne. update_other data_of session s none ne;
}

-- The parts complete the table.
pub Parts-Wakes :
    {session : ℕ} {msg : List ℕ} {bodies : List (List ℕ)} (size : ℕ) (got : List ℕ)
    (vs : List Value) (data_of : ResultData)
    → Parts session msg bodies
    → Collected vs size got
    → data_of session ≡ some vs
    → length got + length msg ≡ size
    → Wakes session true bodies data_of (got ++ msg)
Parts-Wakes {session} size got vs data_of (last msg body short u) c e len =
    Wakes-last session body msg (got ++ msg) vs data_of u e
      (c.joins (string msg ∷ []) ∙ ap returned (concat_strings_end size got msg len))
Parts-Wakes {session} size got vs data_of (more front rest body bodies short u parts) c e len =
    let part_of = length-append front rest in
    let both = length-append got front in
    let next = vs ++ (string front ∷ []) in
    let entry : some (values_of (data_of session) ++ (string front ∷ [])) ≡ some next =
      ap (λ o. some (values_of o ++ (string front ∷ []))) e in
    let after =
      update data_of session (some (values_of (data_of session) ++ (string front ∷ []))) in
    let onward =
      Parts-Wakes size (got ++ front) next after parts
        (Collected-part vs size got front c (omega arith)) (update_self data_of session _ ∙ entry)
        (omega arith) in
    Wakes-next body (string front) data_of u
      (subst (λ xs. Wakes session true bodies after xs) (append_assoc got front rest) onward)
