-- ===== src/Nmea/InView.antt =====
-- `loc_eng_nmea_generate_sv`, the sentences for the satellites in view
-- (gps/loc_api/libloc_api_50001/loc_eng_nmea.cpp).
-- `GpsSvInfo`. A float is its 32-bit pattern.
use android_device_samsung_d.Common.{
  ℕ, zero, suc, ◌+◌, ◌-◌, ◌/◌, ◌%◌, Bool, true, false, ◌&&◌, Option, none, some, List, [], ◌∷◌,
  ◌++◌, ltb, leb, ◌==◌, if◌then◌else◌, codes, decimal, length, ℤ, pos, negsuc,
}
use android_device_samsung_d.Nmea.Checksum.{loc_eng_nmea_put_checksum}

pub record GpsSvInfo : Type 0 where
  pub prn : ℤ
  pub snr : ℕ
  pub elevation : ℕ
  pub azimuth : ℕ

-- The arithmetic on floats: `(int)(0.5 + x)`, and `x > 0`.
pub record Floats : Type 0 where
  pub rounded : ℕ → ℤ
  pub positive : ℕ → Bool

abbrev pub nmea_sentence_max_length : ℕ
nmea_sentence_max_length = 200

abbrev pub zeros : ℕ → List ℕ
zeros zero = []
zeros (suc n) = b'0' ∷ zeros n

-- The format `%0wd` for a width, and `%d` as width 0; an `int` has ten digits at most.
unfoldable pub padded : ℕ → ℤ → List ℕ
padded w (pos n) = let ds = decimal 10 n in zeros (w - length ds) ++ ds
padded w (negsuc n) = let ds = decimal 10 (n + 1) in b'-' ∷ (zeros (w - length ds - 1) ++ ds)

-- `snprintf` at `pMarker`: nothing if the text and a NUL do not fit, which ends the function.
unfoldable pub print_at : List ℕ → List ℕ → Option (List ℕ)
print_at text sentence =
    if ltb (length text) (nmea_sentence_max_length - length sentence)
    then some (sentence ++ text)
    else none

-- The two kinds of satellites that the sentences separate.
pub data SvKind : Type 0 where
  gps_svs glonass_svs : SvKind

abbrev pub in_prns : ℕ → ℕ → ℤ → Bool
in_prns low high (pos n) = leb low n && leb n high
in_prns low high (negsuc n) = false

unfoldable pub is_of_kind : SvKind → GpsSvInfo → Bool
is_of_kind gps_svs sv = in_prns 1 32 sv.prn
is_of_kind glonass_svs sv = in_prns 65 96 sv.prn

abbrev pub gsv_name : SvKind → List ℕ
gsv_name gps_svs = codes "$GPGSV,"
gsv_name glonass_svs = codes "$GLGSV,"

-- The counts of the satellites of a kind.
unfoldable pub count_svs : SvKind → List GpsSvInfo → ℕ
count_svs kind [] = 0
count_svs kind (sv ∷ svs) = let n = count_svs kind svs in if is_of_kind kind sv then 1 + n else n

-- How many sentences a number of satellites takes.
abbrev pub sentence_count_of : ℕ → ℕ
sentence_count_of n = n / 4 + (if n % 4 == 0 then 0 else 1)

-- What a sentence starts with: its name, the number of sentences, its own number, and the count.
unfoldable pub gsv_header : SvKind → ℕ → ℕ → ℕ → List ℕ
unfolding padded
gsv_header kind sentence_count sentence_number sv_count =
    gsv_name kind
    ++ padded 0 (pos sentence_count)
    ++ b',' ∷ (padded 0 (pos sentence_number) ++ b',' ∷ padded 2 (pos sv_count))

-- The state that the generator shares with the engine: whether `nmea_cb` is set, `sv_used_mask`, the three
-- cached DOP values, and the sentences sent, with the length that is given.
pub record NmeaState : Type 0 where
  pub has_nmea_cb : Bool
  pub sv_used_mask : ℕ
  pub pdop : ℕ
  pub hdop : ℕ
  pub vdop : ℕ
  pub sent : List (List ℕ × ℕ)

sent_text : Option (List ℕ × ℕ) → NmeaState → NmeaState
sent_text none s = s
sent_text (some text) s = record s { sent = s.sent ++ text ∷ [] }

-- The checksum is put to a sentence, and `loc_eng_nmea_send` hands it to the callback.
unfoldable pub send_sentence : List ℕ → NmeaState → NmeaState
unfolding sent_text
send_sentence sentence s =
    if s.has_nmea_cb
    then sent_text (loc_eng_nmea_put_checksum nmea_sentence_max_length sentence) s
    else s

module _ (floats : Floats) where
  -- The text of a satellite before and after its signal strength.
  unfoldable pub sv_place : GpsSvInfo → List ℕ
  unfolding padded
  sv_place sv =
      b','
      ∷ (padded 2 sv.prn
          ++ b','
            ∷ (padded 2 (floats.rounded sv.elevation)
                ++ b',' ∷ (padded 3 (floats.rounded sv.azimuth) ++ b',' ∷ [])))

  unfoldable pub print_snr : GpsSvInfo → Option (List ℕ) → Option (List ℕ)
  unfolding print_at padded
  print_snr sv none = none
  print_snr sv (some sentence) =
      if floats.positive sv.snr
      then print_at (padded 2 (floats.rounded sv.snr)) sentence
      else some sentence

  -- A satellite is printed.
  unfoldable pub print_sv : GpsSvInfo → List ℕ → Option (List ℕ)
  unfolding print_snr sv_place
  print_sv sv sentence = print_snr sv (print_at (sv_place sv) sentence)

  -- The inner loop, from `svNumber` on, with `i` satellites in the sentence: the sentence, and the
  -- satellites that are left.
  fill_next :
      (List ℕ → Option (List ℕ × List GpsSvInfo))
      → Option (List ℕ)
      → Option (List ℕ × List GpsSvInfo)
  fill_next more none = none
  fill_next more (some sentence) = more sentence

  unfoldable pub fill_gsv : SvKind → ℕ → List GpsSvInfo → List ℕ → Option (List ℕ × List GpsSvInfo)
  unfolding fill_next print_sv is_of_kind
  fill_gsv kind i [] sentence = some (sentence, [])
  fill_gsv kind i (sv ∷ svs) sentence =
      let taken = fill_next (fill_gsv kind (i + 1) svs) (print_sv sv sentence) in
      let skipped = fill_gsv kind i svs sentence in
      if leb 4 i then some (sentence, sv ∷ svs) else if is_of_kind kind sv then taken else skipped

  -- The outer loop, with the sentences that are left: the state, and whether the function goes on.
  gsv_next :
      (List GpsSvInfo → NmeaState → NmeaState × Bool)
      → NmeaState
      → Option (List ℕ × List GpsSvInfo)
      → NmeaState × Bool
  unfolding send_sentence
  gsv_next more s none = (s, false)
  gsv_next more s (some (sentence, svs)) = more svs (send_sentence sentence s)

  start_gsv : SvKind → List GpsSvInfo → Option (List ℕ) → Option (List ℕ × List GpsSvInfo)
  unfolding fill_gsv
  start_gsv kind svs none = none
  start_gsv kind svs (some sentence) = fill_gsv kind 0 svs sentence

  unfoldable pub gsv_loop :
      SvKind → (left number total count : ℕ) → List GpsSvInfo → NmeaState → NmeaState × Bool
  unfolding gsv_next start_gsv gsv_header print_at
  gsv_loop kind zero number total count svs s = (s, true)
  gsv_loop kind (suc left) number total count svs s =
      gsv_next (gsv_loop kind left (number + 1) total count) s
        (start_gsv kind svs (print_at (gsv_header kind total number count) []))

  -- The sentences of a kind.
  unfoldable pub gsv_sentences : SvKind → List GpsSvInfo → NmeaState → NmeaState × Bool
  unfolding gsv_loop count_svs send_sentence
  gsv_sentences kind svs s =
      let n = count_svs kind svs in
      let total = sentence_count_of n in
      if n == 0
      then (send_sentence (gsv_name kind ++ codes "1,1,0,") s, true)
      else gsv_loop kind total 1 total n svs s

abbrev pub send_all : List (List ℕ) → NmeaState → NmeaState
send_all [] s = s
send_all (sentence ∷ rest) s = send_all rest (send_sentence sentence s)

-- The sentences of a fix that is not final.
abbrev pub blank_sentences : List (List ℕ)
blank_sentences =
    codes "$GPGSA,A,1,,,,,,,,,,,,,,,"
    ∷ codes "$GPVTG,,T,,M,,N,,K,N"
    ∷ codes "$GPRMC,,V,,,,,,,,,,N"
    ∷ codes "$GPGGA,,,,,,0,,,,,,,,"
    ∷ []

-- `GpsSvStatus`, and the DOP values of `GpsLocationExtended` if it has them.
pub record SvReport : Type 0 where
  pub sv_list : List GpsSvInfo
  pub used_in_fix_mask : ℕ
  pub dops : Option (ℕ × ℕ × ℕ)

abbrev pub with_dops : Option (ℕ × ℕ × ℕ) → NmeaState → NmeaState
with_dops none s = record s { pdop = 0; hdop = 0; vdop = 0 }
with_dops (some (p, h, v)) s = record s { pdop = p; hdop = h; vdop = v }

-- The end of the function: blank sentences, or the values kept for the position.
unfoldable pub keep_used : SvReport → NmeaState → NmeaState
unfolding send_sentence
keep_used r s =
    if r.used_in_fix_mask == 0
    then send_all blank_sentences s
    else with_dops r.dops (record s { sv_used_mask = r.used_in_fix_mask })

abbrev pub if_going : (NmeaState → NmeaState × Bool) → NmeaState × Bool → NmeaState × Bool
if_going next (s, false) = (s, false)
if_going next (s, true) = next s

-- `loc_eng_nmea_generate_sv`.
unfoldable pub loc_eng_nmea_generate_sv : Floats → SvReport → NmeaState → NmeaState
unfolding gsv_sentences keep_used
loc_eng_nmea_generate_sv floats r s =
    (if_going (λ t. (keep_used r t, true))
      (if_going (gsv_sentences floats glonass_svs r.sv_list)
        (gsv_sentences floats gps_svs r.sv_list s))).0
