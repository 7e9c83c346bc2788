-- ===== src/Nmea/Reading.antt =====
-- A reader of NMEA sentences, which accepts what `loc_eng_nmea_put_checksum` writes.
use android_device_samsung_d.Common.{
  ℕ, ◌+◌, ◌-◌, ◌*◌, ◌/◌, ◌%◌, ◌^◌, ◌≤◌, ◌<◌, bit_xor, ◌≡◌, refl, sym, ap, ◌∙◌, Bool, true, false,
  ◌&&◌, Option, none, some, List, [], ◌∷◌, ◌++◌, append-nil, append_assoc, arith, leb, ◌==◌,
  if◌then◌else◌, length, take, any, take-all, length-take-le, length-append,
}
use android_device_samsung_d.Nmea.Checksum.{
  xor_bytes, hex, checksum_text, printed, room, loc_eng_nmea_put_checksum,
}

unhex : ℕ → Option ℕ
unhex c =
    if leb 48 c && leb c 57
    then some (c - 48)
    else if leb 65 c && leb c 70
    then some (c - 55)
    else none

-- The end of a sentence against the checksum of what was read: two digits, CR and LF.
read_digits : List ℕ → ℕ → Option ℕ → Option ℕ → Bool → Option (List ℕ)
read_digits body sum (some hi) (some lo) ends =
    if hi * 16 + lo == sum && ends then some body else none
read_digits body sum _ _ ends = none

read_end : List ℕ → ℕ → List ℕ → Option (List ℕ)
unfolding read_digits
read_end body sum (h ∷ l ∷ cr ∷ lf ∷ []) =
    read_digits body sum (unhex h) (unhex l) (cr == 13 && lf == 10)
read_end body sum _ = none

-- The characters up to the first asterisk, and their checksum.
read_body : List ℕ → ℕ → List ℕ → Option (List ℕ)
read_body body sum [] = none
read_body body sum (c ∷ cs) =
    let rest = read_body (body ++ c ∷ []) (bit_xor sum c % 256) cs in
    if c == 42 then read_end body sum cs else rest

-- The characters between the dollar sign and the asterisk of a sentence with a right checksum.
pub read_sentence : List ℕ → Option (List ℕ)
unfolding read_body
read_sentence [] = none
read_sentence (c ∷ cs) = if c == b'$' then read_body [] 0 cs else none

unhex-hex : (n : ℕ) → n < 16 → unhex (hex n) ≡ some n
unfolding unhex hex
unhex-hex n small = ground arith

digits-sum :
    (body : List ℕ) (sum : ℕ)
    → read_digits body sum (some (sum / 16)) (some (sum % 16)) true ≡ some body
unfolding read_digits
digits-sum body sum = ground arith

read_end-checksum :
    (body : List ℕ) (sum : ℕ)
    → sum < 256
    → read_end body sum (hex (sum / 16) ∷ hex (sum % 16) ∷ 13 ∷ 10 ∷ []) ≡ some body
unfolding read_end
read_end-checksum body sum small =
    ap (λ h. read_digits body sum h (unhex (hex (sum % 16))) true)
      (unhex-hex (sum / 16) (omega arith))
    ∙ ap (λ l. read_digits body sum (some (sum / 16)) l true) (unhex-hex (sum % 16) (omega arith))
    ∙ digits-sum body sum

abbrev pub has_asterisk : List ℕ → Bool
has_asterisk cs = any (λ c. c == 42) cs

read_body-checksum :
    (before : List ℕ) (sum : ℕ) (cs : List ℕ)
    → has_asterisk cs ≡ false
    → sum < 256
    → read_body before sum (cs ++ checksum_text (xor_bytes sum cs)) ≡ some (before ++ cs)
unfolding read_body checksum_text xor_bytes
read_body-checksum before sum [] plain small =
    read_end-checksum before sum small ∙ ap some (sym (append-nil before))
read_body-checksum before sum (c ∷ cs) plain small =
    let here : (c == 42) ≡ false = ground arith in
    let later : has_asterisk cs ≡ false = ground arith in
    rw here (
      read_body-checksum (before ++ c ∷ []) (bit_xor sum c % 256) cs later (omega arith)
      ∙ ap some (append_assoc before (c ∷ []) cs))

room-eq :
    (max_size len : ℕ) → len < max_size → max_size < 2 ^ 31 → room max_size len ≡ max_size - len - 1
unfolding room
room-eq max_size len fits small = omega arith

printed-all :
    (max_size : ℕ) (body : List ℕ)
    → length body + 7 ≤ max_size
    → max_size < 2 ^ 31
    → printed (room max_size (length body)) (checksum_text (xor_bytes 0 body))
      ≡ checksum_text (xor_bytes 0 body)
unfolding printed checksum_text
printed-all max_size body fits small =
    take-all (room max_size (length body) - 1) _
      (rw (room-eq max_size (length body) (omega arith) small) (omega arith))

-- A sentence of at least one character, the dollar sign, that has no asterisk and leaves room in its
-- buffer for the five characters of the checksum and a NUL: what `loc_eng_nmea_put_checksum` leaves in
-- the buffer is read as the characters that were there after the dollar sign, with a right checksum.
pub put_checksum-read_sentence :
    (max_size : ℕ) (body : List ℕ)
    → has_asterisk body ≡ false
    → length body + 7 ≤ max_size
    → max_size < 2 ^ 31
    → (after : List ℕ) × (n : ℕ) × (loc_eng_nmea_put_checksum max_size (b'$' ∷ body)
        ≡ some (after, n))
      × (read_sentence after ≡ some body)
unfolding loc_eng_nmea_put_checksum read_sentence
put_checksum-read_sentence max_size body plain fits small = (
  _,
  _,
  refl,
  ap (λ t. read_body [] 0 (body ++ t)) (printed-all max_size body fits small)
      ∙ read_body-checksum [] 0 body plain (omega arith),
)

-- Whatever the sentence, it and its NUL stay in a buffer that held it with its NUL.
pub put_checksum-length-le :
    (max_size c : ℕ) (body : List ℕ)
    → length body + 2 ≤ max_size
    → max_size < 2 ^ 31
    → (after : List ℕ) × (n : ℕ) × (loc_eng_nmea_put_checksum max_size (c ∷ body) ≡ some (after, n))
      × (length after + 1 ≤ max_size)
unfolding loc_eng_nmea_put_checksum printed
put_checksum-length-le max_size c body fits small =
    let text = checksum_text (xor_bytes 0 body) in
    let size = room max_size (length body) in
    (
      _,
      _,
      refl,
      omega (
        arith,
        length-append body (take (size - 1) text),
        length-take-le (size - 1) text,
        room-eq max_size (length body) (omega arith) small,
      ),
    )

-- With room for the whole checksum, the length that `loc_eng_nmea_put_checksum` returns is one less than
-- that of the sentence: the dollar sign is not counted.
pub put_checksum-short :
    (max_size c : ℕ) (body : List ℕ)
    → length body + 7 ≤ max_size
    → max_size < 2 ^ 31
    → (after : List ℕ) × (n : ℕ) × (loc_eng_nmea_put_checksum max_size (c ∷ body) ≡ some (after, n))
      × (n + 1 ≡ length after)
unfolding loc_eng_nmea_put_checksum
put_checksum-short max_size c body fits small = (
  _,
  _,
  refl,
  omega (
    arith,
    length-append body (printed (room max_size (length body)) (checksum_text (xor_bytes 0 body))),
    ap length (printed-all max_size body fits small),
  ),
)
