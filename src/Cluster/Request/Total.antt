-- ===== src/Cluster/Request/Total.antt =====
-- `lunpackrequest` reads no byte outside of its argument, whatever the bytes are.
use mathlib.Core.Path.{subst}
use game_server.Common.{
  ℕ, suc, zero, ◌+◌, ◌<◌, ◌≤◌, ◌≡◌, ◌≢◌, refl, Bool, true, false, List, [], ◌∷◌, length, drop,
  length-drop, ltb, ◌==◌, ◌||◌, if◌then◌else◌, arith,
}
use game_server.Cluster.{Result, returned, raised, faulted, bind, unpack_uint32}
use game_server.Cluster.Packet.{unpack_uint32_total}
use game_server.Cluster.Request.{
  byte_at, unpackreq_number, unpackmreq_number, unpackmreq_part, unpackreq_string,
  unpackmreq_string, lunpackrequest,
}

abbrev IsSafe : {A : Type 0} → Result A → Type 0
IsSafe (returned a) = Unit
IsSafe raised = Unit
IsSafe faulted = ⊥

-- Reading four bytes that are there, and going on.
unpack_uint32-IsSafe :
    {A : Type 0} (n : ℕ) (buf : List ℕ) (f : ℕ → Result A)
    → n + 4 ≤ length buf
    → ((k : ℕ) → IsSafe (f k))
    → IsSafe (bind (unpack_uint32 (drop n buf)) f)
unpack_uint32-IsSafe n buf f le safe =
    let (k, e) = unpack_uint32_total (drop n buf) (omega (arith, length-drop n buf)) in
    rw e (safe k)

byte_at-IsSafe :
    {A : Type 0} (i : ℕ) (buf : List ℕ) (f : ℕ → Result A)
    → i < length buf
    → ((k : ℕ) → IsSafe (f k))
    → IsSafe (bind (byte_at i buf) f)
unfolding byte_at
byte_at-IsSafe i [] f lt safe = absurd (omega arith)
byte_at-IsSafe zero (b ∷ buf) f lt safe = safe b
byte_at-IsSafe (suc i) (b ∷ buf) f lt safe = byte_at-IsSafe i buf f (omega arith) safe

-- A test before the read.
if-IsSafe :
    {A : Type 0} (b : Bool) (x y : Result A)
    → (b ≡ true → IsSafe x)
    → (b ≡ false → IsSafe y)
    → IsSafe (if b then x else y)
if-IsSafe true x y f g = f refl
if-IsSafe false x y f g = g refl

unpackreq_number-IsSafe : (buf : List ℕ) → IsSafe (unpackreq_number buf)
unfolding unpackreq_number
unpackreq_number-IsSafe buf =
    if-IsSafe (ltb (length buf) 9) _ _ (λ e. tt)
      (λ e.
        unpack_uint32-IsSafe 1 buf _ (ground arith)
          (λ address. unpack_uint32-IsSafe 5 buf _ (ground arith) (λ session. tt)))

unpackmreq_number-IsSafe : (buf : List ℕ) → IsSafe (unpackmreq_number buf)
unfolding unpackmreq_number
unpackmreq_number-IsSafe buf =
    if-IsSafe (length buf == 13) _ _
      (λ e. unpack_uint32-IsSafe 1 buf _ (ground arith) (λ address.
        unpack_uint32-IsSafe 5 buf _ (ground arith)
          (λ session. unpack_uint32-IsSafe 9 buf _ (ground arith) (λ size. tt))))
      (λ e. tt)

unpackmreq_part-IsSafe : (buf : List ℕ) → IsSafe (unpackmreq_part buf)
unfolding unpackmreq_part
unpackmreq_part-IsSafe buf =
    if-IsSafe (ltb (length buf) 5) _ _ (λ e. tt)
      (λ e.
        byte_at-IsSafe 0 buf _ (ground arith)
          (λ kind. unpack_uint32-IsSafe 1 buf _ (ground arith) (λ session. tt)))

unpackreq_string-IsSafe : (buf : List ℕ) → IsSafe (unpackreq_string buf)
unfolding unpackreq_string
unpackreq_string-IsSafe buf =
    if-IsSafe (ltb (length buf) 2) _ _ (λ e. tt)
      (λ e. byte_at-IsSafe 1 buf _ (ground arith) (λ namesz.
        if-IsSafe (ltb (length buf) (namesz + 6)) _ _ (λ f. tt)
          (λ f. unpack_uint32-IsSafe (namesz + 2) buf _ (ground arith) (λ session. tt))))

unpackmreq_string-IsSafe : (buf : List ℕ) → IsSafe (unpackmreq_string buf)
unfolding unpackmreq_string
unpackmreq_string-IsSafe buf =
    if-IsSafe (ltb (length buf) 2) _ _ (λ e. tt)
      (λ e. byte_at-IsSafe 1 buf _ (ground arith) (λ namesz.
        if-IsSafe (ltb (length buf) (namesz + 10)) _ _ (λ f. tt)
          (λ f.
            unpack_uint32-IsSafe (namesz + 2) buf _ (ground arith)
              (λ session. unpack_uint32-IsSafe (namesz + 6) buf _ (ground arith) (λ size. tt)))))

lunpackrequest-IsSafe : (buf : List ℕ) → IsSafe (lunpackrequest buf)
unfolding lunpackrequest
lunpackrequest-IsSafe [] = unpackreq_number-IsSafe []
lunpackrequest-IsSafe (kind ∷ rest) =
    let buf = kind ∷ rest in
    if-IsSafe (kind == 0) _ _ (λ e. unpackreq_number-IsSafe buf)
      (λ e.
        if-IsSafe (kind == 1) _ _ (λ e. unpackmreq_number-IsSafe buf)
          (λ e.
            if-IsSafe ((kind == 2) || (kind == 3)) _ _ (λ e. unpackmreq_part-IsSafe buf)
              (λ e.
                if-IsSafe (kind == 128) _ _ (λ e. unpackreq_string-IsSafe buf)
                  (λ e.
                    if-IsSafe (kind == 129) _ _ (λ e. unpackmreq_string-IsSafe buf) (λ e. tt)))))

-- Any string of bytes is unpacked or refused with an error: `lunpackrequest` reads nothing outside of
-- the string, also when a size in it is wrong.
pub lunpackrequest_total : (buf : List ℕ) → lunpackrequest buf ≢ faulted
lunpackrequest_total buf e = let safe = lunpackrequest-IsSafe buf in subst IsSafe e safe
