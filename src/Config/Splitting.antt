-- ===== src/Config/Splitting.antt =====
-- `loc_util_split_string` (gps/utils/loc_misc_utils.cpp).
-- The loop, from the start of a substring on: the characters of that substring so far, and the substrings
-- that have ended. A substring is what stands in `raw_string` from its pointer up to the NUL that the loop
-- writes over the delimiter.
use android_device_samsung_d.Common.{
  ℕ, zero, suc, ◌+◌, ◌≡◌, refl, sym, ap, ◌∙◌, Bool, true, false, not, ◌&&◌, List, [], ◌∷◌, ◌++◌,
  append-nil, append_assoc, arith, ltb, ◌==◌, if◌then◌else◌, ==_refl, length, take, length-append,
}

unfoldable pub split_loop : ℕ → ℕ → List ℕ → List (List ℕ) → List ℕ → List (List ℕ)
split_loop max_num delimiter current done [] = done ++ current ∷ []
split_loop max_num delimiter current done (c ∷ cs) =
    if c == delimiter
    then (let ended = done ++ current ∷ [] in
        let rest = split_loop max_num delimiter [] ended cs in
        if ltb (length ended) max_num then rest else ended)
    else split_loop max_num delimiter (current ++ c ∷ []) done cs

-- The substrings; the function returns their number.
unfoldable pub loc_util_split_string : ℕ → ℕ → List ℕ → List (List ℕ)
unfolding split_loop
loc_util_split_string max_num delimiter raw = split_loop max_num delimiter [] [] raw

-- The substrings with the delimiter between them.
abbrev pub joined : ℕ → List ℕ → List (List ℕ) → List ℕ
joined delimiter part [] = part
joined delimiter part (next ∷ rest) = part ++ delimiter ∷ joined delimiter next rest

-- No part has the delimiter.
abbrev pub lacks : ℕ → List ℕ → Bool
lacks delimiter [] = true
lacks delimiter (c ∷ cs) = not (c == delimiter) && lacks delimiter cs

abbrev pub all_lack : ℕ → List (List ℕ) → Bool
all_lack delimiter [] = true
all_lack delimiter (part ∷ rest) = lacks delimiter part && all_lack delimiter rest

-- A part is read up to its end.
loop-part :
    (max_num delimiter : ℕ) (part current : List ℕ) (done : List (List ℕ)) (rest : List ℕ)
    → lacks delimiter part ≡ true
    → split_loop max_num delimiter current done (part ++ rest)
      ≡ split_loop max_num delimiter (current ++ part) done rest
unfolding split_loop
loop-part max_num delimiter [] current done rest free =
    ap (λ w. split_loop max_num delimiter w done rest) (sym (append-nil current))
loop-part max_num delimiter (c ∷ cs) current done rest free =
    let other : c == delimiter ≡ false = ground arith in
    let more : lacks delimiter cs ≡ true = ground arith in
    rw other (
      loop-part max_num delimiter cs (current ++ c ∷ []) done rest more
      ∙ ap (λ w. split_loop max_num delimiter w done rest) (append_assoc current (c ∷ []) cs))

-- The end of a part that is not the last.
loop-delimiter :
    (max_num delimiter : ℕ) (current : List ℕ) (done : List (List ℕ)) (rest : List ℕ)
    → split_loop max_num delimiter current done (delimiter ∷ rest) ≡ (
        if ltb (length (done ++ current ∷ [])) max_num
        then split_loop max_num delimiter [] (done ++ current ∷ []) rest
        else done ++ current ∷ [])
unfolding split_loop
loop-delimiter max_num delimiter current done rest = ground (arith, ==_refl delimiter)

-- The end of the string.
loop-end :
    (max_num delimiter : ℕ) (current : List ℕ) (done : List (List ℕ))
    → split_loop max_num delimiter current done [] ≡ done ++ current ∷ []
unfolding split_loop
loop-end max_num delimiter current done = refl

length-snoc :
    (done : List (List ℕ)) (part : List ℕ) → length (done ++ part ∷ []) ≡ suc (length done)
length-snoc done part = omega (arith, length-append done (part ∷ []))

take_nil : (n : ℕ) → take {A = List ℕ} n [] ≡ []
take_nil zero = refl
take_nil (suc n) = refl

loop-joined :
    (max_num delimiter n : ℕ) (part : List ℕ) (parts done : List (List ℕ))
    → lacks delimiter part ≡ true
    → all_lack delimiter parts ≡ true
    → length done + suc n ≡ max_num
    → split_loop max_num delimiter [] done (joined delimiter part parts)
      ≡ done ++ part ∷ take n parts
loop-joined max_num delimiter n part [] done one all room =
    let no_more : take n [] ≡ [] = take_nil n in
    ap (λ s. split_loop max_num delimiter [] done s) (sym (append-nil part))
    ∙ loop-part max_num delimiter part [] done [] one
    ∙ loop-end max_num delimiter part done
    ∙ ap (λ t. done ++ part ∷ t) (sym no_more)
loop-joined max_num delimiter zero part (next ∷ parts) done one all room =
    let full : ltb (length (done ++ part ∷ [])) max_num ≡ false =
      ground (arith, length-snoc done part) in
    loop-part max_num delimiter part [] done (delimiter ∷ joined delimiter next parts) one
    ∙ loop-delimiter max_num delimiter part done (joined delimiter next parts)
    ∙ rw full refl
loop-joined max_num delimiter (suc n) part (next ∷ parts) done one all room =
    let more : ltb (length (done ++ part ∷ [])) max_num ≡ true =
      ground (arith, length-snoc done part) in
    let next_lacks : lacks delimiter next ≡ true = ground arith in
    let rest_lack : all_lack delimiter parts ≡ true = ground arith in
    loop-part max_num delimiter part [] done (delimiter ∷ joined delimiter next parts) one
    ∙ loop-delimiter max_num delimiter part done (joined delimiter next parts)
    ∙ rw more (
        loop-joined max_num delimiter n next parts (done ++ part ∷ []) next_lacks rest_lack
          (omega (arith, length-snoc done part))
        ∙ append_assoc done (part ∷ []) (next ∷ take n parts))

-- Parts without the delimiter that are joined by it are split into the same parts, in their order; of more
-- parts than `max_num_substrings`, the first are split off, and the rest is dropped.
pub loc_util_split_string-joined :
    (n delimiter : ℕ) (part : List ℕ) (parts : List (List ℕ))
    → lacks delimiter part ≡ true
    → all_lack delimiter parts ≡ true
    → loc_util_split_string (suc n) delimiter (joined delimiter part parts) ≡ part ∷ take n parts
unfolding loc_util_split_string
loc_util_split_string-joined n delimiter part parts one all =
    loop-joined (suc n) delimiter n part parts [] one all (omega arith)
