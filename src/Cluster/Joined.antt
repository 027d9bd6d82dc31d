-- ===== src/Cluster/Joined.antt =====
-- What `lconcat` makes of a size and the parts behind it.
use game_server.Common.{
  ℕ, ◌+◌, ◌%◌, ◌^◌, ◌<◌, ◌≤◌, ◌≡◌, ◌∙◌, refl, ap, true, false, some, List, [], ◌∷◌, ◌++◌,
  append_assoc, length, length-append, ltb, leb, ◌==◌, arith,
}
use game_server.Cluster.{returned, Value, number, string, lconcat, concat_strings}

-- The values are the size and strings; `got` is what they make.
pub record Collected (values : List Value) (size : ℕ) (got : List ℕ) : Type 0 where
  pub joins :
      (rest : List Value) → lconcat (values ++ rest) ≡ returned (concat_strings size got rest)

-- A size is in front.
pub Collected-opened : (size : ℕ) → size < 2 ^ 31 → Collected (number size ∷ []) size []
unfolding lconcat
Collected-opened size lt = record {
  joins = λ rest.
      let whole_size : size % 2 ^ 32 ≡ size = omega arith in
      let small : leb (2 ^ 31) size ≡ false = ground arith in rw (lconcat, whole_size, small) refl;
}

-- A part is added.
pub Collected-part :
    (values : List Value) (size : ℕ) (got front : List ℕ)
    → Collected values size got
    → length got + length front ≤ size
    → Collected (values ++ (string front ∷ [])) size (got ++ front)
unfolding concat_strings
Collected-part values size got front c le = record {
  joins = λ rest.
      let fits : ltb size (length front + length got) ≡ false = ground arith in
      let joined : concat_strings size got (string front ∷ rest)
          ≡ concat_strings size (got ++ front) rest =
        rw (concat_strings, fits) refl in
      ap lconcat (append_assoc values (string front ∷ []) rest)
      ∙ c.joins (string front ∷ rest)
      ∙ ap returned joined;
}

pub concat_strings_end :
    (size : ℕ) (got msg : List ℕ)
    → length got + length msg ≡ size
    → concat_strings size got (string msg ∷ []) ≡ some (got ++ msg)
unfolding concat_strings
concat_strings_end size got msg e =
    let fits : ltb size (length msg + length got) ≡ false = ground arith in
    let len = length-append got msg in
    let done : (length (got ++ msg) == size) ≡ true = ground arith in
    rw (concat_strings, fits, done) refl
