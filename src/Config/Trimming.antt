-- ===== src/Config/Trimming.antt =====
-- `loc_util_trim_space` takes the spaces off both ends.
-- The characters are spaces.
use android_device_samsung_d.Common.{
  ℕ, ◌≡◌, refl, sym, ap, ◌∙◌, Bool, true, false, not, ◌&&◌, some, List, [], ◌∷◌, ◌++◌, append-nil,
  append_assoc, arith, if◌then◌else◌, length, take-exact,
}
use android_device_samsung_d.Config.Spaces.{
  is_space, Trim, trim_step, trim_loop, untrimmed, cut_at, loc_util_trim_space,
}

abbrev pub all_spaces : List ℕ → Bool
all_spaces [] = true
all_spaces (c ∷ cs) = is_space c && all_spaces cs

-- Leading spaces are passed over.
abbrev leading : Trim → List ℕ → Trim
leading t pre = record t { stale = t.stale ++ pre }

step-leading :
    (t : Trim) (c : ℕ)
    → t.has_first ≡ false
    → is_space c ≡ true
    → trim_step c t ≡ leading t (c ∷ [])
unfolding trim_step
step-leading t c unset space = ground arith

loop-leading :
    (t : Trim) (pre rest : List ℕ)
    → t.has_first ≡ false
    → all_spaces pre ≡ true
    → trim_loop t (pre ++ rest) ≡ trim_loop (leading t pre) rest
unfolding trim_loop
loop-leading t [] rest unset spaces =
    ap (λ s. trim_loop (record t { stale = s }) rest) (sym (append-nil t.stale))
loop-leading t (c ∷ cs) rest unset spaces =
    let space : is_space c ≡ true = ground arith in
    let more : all_spaces cs ≡ true = ground arith in
    ap (λ u. trim_loop u (cs ++ rest)) (step-leading t c unset space)
    ∙ loop-leading (leading t (c ∷ [])) cs rest unset more
    ∙ ap (λ s. trim_loop (record t { stale = s }) rest) (append_assoc t.stale (c ∷ []) cs)

step_first : (t : Trim) (c : ℕ) → t.has_first ≡ true → (trim_step c t).has_first ≡ true
unfolding trim_step
step_first t c set = ground arith

step_written :
    (t : Trim) (c : ℕ) → t.has_first ≡ true → (trim_step c t).written ≡ t.written ++ c ∷ []
unfolding trim_step
step_written t c set = ground arith

step_last :
    (t : Trim) (c : ℕ)
    → t.has_first ≡ true
    → (trim_step c t).last_nonspace
      ≡ (if not (is_space c) then some (length (t.written ++ c ∷ [])) else t.last_nonspace)
unfolding trim_step
step_last t c set = ground arith

-- After the first character that is no space, every character is written.
loop-written :
    (t : Trim) (cs : List ℕ) → t.has_first ≡ true → (trim_loop t cs).written ≡ t.written ++ cs
unfolding trim_loop
loop-written t [] set = sym (append-nil t.written)
loop-written t (c ∷ cs) set =
    loop-written (trim_step c t) cs (step_first t c set)
    ∙ ap (λ w. w ++ cs) (step_written t c set)
    ∙ append_assoc t.written (c ∷ []) cs

loop-trailing :
    (t : Trim) (post : List ℕ)
    → t.has_first ≡ true
    → all_spaces post ≡ true
    → (trim_loop t post).last_nonspace ≡ t.last_nonspace
unfolding trim_loop
loop-trailing t [] set spaces = refl
loop-trailing t (c ∷ cs) set spaces =
    let more : all_spaces cs ≡ true = ground arith in
    loop-trailing (trim_step c t) cs (step_first t c set) more ∙ step_last t c set ∙ ground arith

-- A last character that is no space is where the NUL goes.
loop-last :
    (t : Trim) (cs post : List ℕ) (c : ℕ)
    → t.has_first ≡ true
    → is_space c ≡ false
    → all_spaces post ≡ true
    → (trim_loop t (cs ++ c ∷ post)).last_nonspace ≡ some (length (t.written ++ (cs ++ c ∷ [])))
unfolding trim_loop
loop-last t [] post c set nonspace spaces =
    loop-trailing (trim_step c t) post (step_first t c set) spaces
    ∙ step_last t c set
    ∙ ground arith
loop-last t (d ∷ cs) post c set nonspace spaces =
    loop-last (trim_step d t) cs post c (step_first t d set) nonspace spaces
    ∙ ap (λ w. some (length (w ++ (cs ++ c ∷ [])))) (step_written t d set)
    ∙ ap (λ w. some (length w)) (append_assoc t.written (d ∷ []) (cs ++ c ∷ []))

-- The first character that is no space is written at the start.
step_begin : (t : Trim) (c : ℕ) → is_space c ≡ false → (trim_step c t).has_first ≡ true
unfolding trim_step
step_begin t c nonspace = ground arith

begin_written :
    (t : Trim) (c : ℕ) → is_space c ≡ false → (trim_step c t).written ≡ t.written ++ c ∷ []
unfolding trim_step
begin_written t c nonspace = ground arith

begin_last :
    (t : Trim) (c : ℕ)
    → is_space c ≡ false
    → (trim_step c t).last_nonspace ≡ some (length (t.written ++ c ∷ []))
unfolding trim_step
begin_last t c nonspace = ground arith

-- Whether the first character is no space.
abbrev pub starts : List ℕ → Bool
starts [] = false
starts (c ∷ cs) = not (is_space c)

-- The string of a loop that ended with the given characters, and the NUL after some of them.
cut-written :
    (t : Trim) (mid post : List ℕ)
    → t.written ≡ mid ++ post
    → t.last_nonspace ≡ some (length mid)
    → cut_at t.last_nonspace (t.written ++ t.stale) ≡ mid
unfolding cut_at
cut-written t mid post w l =
    rw (l, w, append_assoc mid post t.stale) (take-exact mid (post ++ t.stale))

module _ (pre : List ℕ) (before : all_spaces pre ≡ true) where
  unfold-trim :
      (rest : List ℕ)
      → loc_util_trim_space (pre ++ rest) ≡ (
          let t = trim_loop (leading untrimmed pre) rest in
          cut_at t.last_nonspace (t.written ++ t.stale))
  unfolding loc_util_trim_space
  unfold-trim rest =
      ap (λ t. cut_at t.last_nonspace (t.written ++ t.stale))
        (loop-leading untrimmed pre rest refl before)

  trim_blank : loc_util_trim_space pre ≡ pre
  unfolding trim_loop cut_at
  trim_blank = ap loc_util_trim_space (sym (append-nil pre)) ∙ unfold-trim []

  -- From the first character that is no space on, with what the loop leaves at the end.
  trim-from :
      (h : ℕ) (rest mid post : List ℕ)
      → is_space h ≡ false
      → h ∷ rest ≡ mid ++ post
      → (trim_loop (trim_step h (leading untrimmed pre)) rest).last_nonspace ≡ some (length mid)
      → loc_util_trim_space (pre ++ h ∷ rest) ≡ mid
  unfolding trim_loop
  trim-from h rest mid post nonspace parts l =
      let t = trim_step h (leading untrimmed pre) in
      unfold-trim (h ∷ rest)
      ∙ cut-written (trim_loop t rest) mid post
          (loop-written t rest (step_begin (leading untrimmed pre) h nonspace)
            ∙ ap (λ w. w ++ rest) (begin_written (leading untrimmed pre) h nonspace)
            ∙ parts)
          l

  -- Spaces, then characters that neither begin nor end with a space, then spaces: the characters are left.
  -- A string of spaces alone stays as it is.
  pub loc_util_trim_space-middle :
      (body post : List ℕ) (c : ℕ)
      → all_spaces post ≡ true
      → is_space c ≡ false
      → starts (body ++ c ∷ []) ≡ true
      → (loc_util_trim_space (pre ++ (body ++ c ∷ post)) ≡ body ++ c ∷ [])
        × (loc_util_trim_space pre ≡ pre)
  loc_util_trim_space-middle [] post c after nonspace begins =
      let t = trim_step c (leading untrimmed pre) in
      (
        trim-from c post (c ∷ []) post nonspace refl (
            loop-trailing t post (step_begin (leading untrimmed pre) c nonspace) after
            ∙ begin_last (leading untrimmed pre) c nonspace),
        trim_blank,
      )
  loc_util_trim_space-middle (d ∷ body) post c after nonspace begins =
      let t = trim_step d (leading untrimmed pre) in
      let first : is_space d ≡ false = ground arith in
      (
        trim-from d (body ++ c ∷ post) (d ∷ (body ++ c ∷ [])) post first
            (ap (λ r. d ∷ r) (sym (append_assoc body (c ∷ []) post)))
            (loop-last t body post c (step_begin (leading untrimmed pre) d first) nonspace after
              ∙ ap (λ w. some (length (w ++ (body ++ c ∷ []))))
                  (begin_written (leading untrimmed pre) d first)),
        trim_blank,
      )
