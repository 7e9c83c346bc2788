-- ===== src/Nmea/Filling.antt =====
-- How the loop over the satellites of a sentence fills it.
use android_device_samsung_d.Common.{
  ℕ, zero, suc, ◌+◌, ◌-◌, ◌*◌, ◌≤◌, ◌<◌, ◌≡◌, refl, sym, ap, ◌∙◌, inl, inr, Bool, true, false, ◌&&◌,
  some, List, [], ◌∷◌, ◌++◌, append-nil, append_assoc, arith, ltb, leb, if◌then◌else◌, Bool-cases,
  decimal, length-decimal_1000, length, take, length-append, ℤ, pos, negsuc,
}
use android_device_samsung_d.Nmea.Groups.{of_kind, rest_after}
use android_device_samsung_d.Nmea.InView.{
  GpsSvInfo, Floats, zeros, padded, print_at, SvKind, gps_svs, glonass_svs, in_prns, is_of_kind,
  sv_place, print_snr, print_sv, fill_gsv,
}

-- A number of three digits at most.
abbrev pub is_small : ℤ → Bool
is_small (pos n) = ltb n 1000
is_small (negsuc n) = false

length-zeros : (n : ℕ) → length (zeros n) ≡ n
length-zeros zero = refl
length-zeros (suc n) = omega (arith, length-zeros n)

pub length-padded : (w : ℕ) (z : ℤ) → w ≤ 3 → is_small z ≡ true → length (padded w z) ≤ 3
unfolding padded
length-padded w (pos n) narrow small = ground (
  arith,
  length-decimal_1000 10 n,
  length-zeros (w - length (decimal 10 n)),
  length-append (zeros (w - length (decimal 10 n))) (decimal 10 n),
)
length-padded w (negsuc n) narrow small = absurd (cc)

in_prns-small : (low high : ℕ) (z : ℤ) → high < 1000 → in_prns low high z ≡ true → is_small z ≡ true
in_prns-small low high (pos n) narrow h = ground (arith, narrow, h)
in_prns-small low high (negsuc n) narrow h = absurd (cc)

kind_small : (kind : SvKind) (sv : GpsSvInfo) → is_of_kind kind sv ≡ true → is_small sv.prn ≡ true
unfolding is_of_kind
kind_small gps_svs sv h = in_prns-small 1 32 sv.prn (omega arith) h
kind_small glonass_svs sv h = in_prns-small 65 96 sv.prn (omega arith) h

-- The length of three texts that commas surround.
length-commas :
    (xs ys zs : List ℕ)
    → length (b',' ∷ (xs ++ b',' ∷ (ys ++ b',' ∷ (zs ++ b',' ∷ []))))
      ≡ length xs + length ys + length zs + 4
length-commas xs ys zs = omega (
  arith,
  length-append xs (b',' ∷ (ys ++ b',' ∷ (zs ++ b',' ∷ []))),
  length-append ys (b',' ∷ (zs ++ b',' ∷ [])),
  length-append zs (b',' ∷ []),
)

pub print_at-room :
    (text sentence : List ℕ)
    → length sentence + length text < 200
    → print_at text sentence ≡ some (sentence ++ text)
unfolding print_at
print_at-room text sentence fits = ground (arith, fits)

below-leb : (i j : ℕ) → i + suc j ≡ 4 → leb 4 i ≡ false
below-leb i j four = ground (arith, four)

module _ (floats : Floats) where
  -- The numbers of a satellite that are printed have three digits at most.
  abbrev pub is_sane : GpsSvInfo → Bool
  is_sane sv =
      is_small (floats.rounded sv.elevation)
      && is_small (floats.rounded sv.azimuth)
      && is_small (floats.rounded sv.snr)

  abbrev pub all_sane : List GpsSvInfo → Bool
  all_sane [] = true
  all_sane (sv ∷ svs) = is_sane sv && all_sane svs

  -- The text of a satellite.
  snr_text : GpsSvInfo → List ℕ
  unfolding padded
  snr_text sv = if floats.positive sv.snr then padded 2 (floats.rounded sv.snr) else []

  unfoldable pub sv_text : GpsSvInfo → List ℕ
  unfolding snr_text
  sv_text sv = sv_place floats sv ++ snr_text sv

  abbrev pub sv_texts : List GpsSvInfo → List ℕ
  sv_texts [] = []
  sv_texts (sv ∷ svs) = sv_text sv ++ sv_texts svs

  sane-elevation :
      (sv : GpsSvInfo) → is_sane sv ≡ true → is_small (floats.rounded sv.elevation) ≡ true
  sane-elevation sv sane = ground (arith, sane)

  sane-azimuth : (sv : GpsSvInfo) → is_sane sv ≡ true → is_small (floats.rounded sv.azimuth) ≡ true
  sane-azimuth sv sane = ground (arith, sane)

  sane-snr : (sv : GpsSvInfo) → is_sane sv ≡ true → is_small (floats.rounded sv.snr) ≡ true
  sane-snr sv sane = ground (arith, sane)

  length-sv_place :
      (sv : GpsSvInfo)
      → is_small sv.prn ≡ true
      → is_sane sv ≡ true
      → length (sv_place floats sv) ≤ 13
  unfolding sv_place
  length-sv_place sv small sane = omega (
    arith,
    length-commas (padded 2 sv.prn) (padded 2 (floats.rounded sv.elevation))
        (padded 3 (floats.rounded sv.azimuth)),
    length-padded 2 sv.prn (omega arith) small,
    length-padded 2 (floats.rounded sv.elevation) (omega arith) (sane-elevation sv sane),
    length-padded 3 (floats.rounded sv.azimuth) (omega arith) (sane-azimuth sv sane),
  )

  length-snr_text : (sv : GpsSvInfo) → is_sane sv ≡ true → length (snr_text sv) ≤ 3
  unfolding snr_text
  length-snr_text sv sane =
      ground (arith, length-padded 2 (floats.rounded sv.snr) (omega arith) (sane-snr sv sane))

  sane-first :
      (sv : GpsSvInfo) (svs : List GpsSvInfo) → all_sane (sv ∷ svs) ≡ true → is_sane sv ≡ true
  sane-first sv svs sane = ground (arith, sane)

  sane-rest :
      (sv : GpsSvInfo) (svs : List GpsSvInfo) → all_sane (sv ∷ svs) ≡ true → all_sane svs ≡ true
  sane-rest sv svs sane = ground (arith, sane)

  print_if-room :
      (b : Bool) (text sentence : List ℕ)
      → length sentence + length text < 200
      → (if b then print_at text sentence else some sentence)
        ≡ some (sentence ++ (if b then text else []))
  print_if-room true text sentence fits = print_at-room text sentence fits
  print_if-room false text sentence fits = ap some (sym (append-nil sentence))

  print_snr-text :
      (sv : GpsSvInfo) (sentence : List ℕ)
      → is_sane sv ≡ true
      → length sentence + 3 < 200
      → print_snr floats sv (some sentence) ≡ some (sentence ++ snr_text sv)
  unfolding print_snr snr_text
  print_snr-text sv sentence sane fits =
      print_if-room (floats.positive sv.snr) (padded 2 (floats.rounded sv.snr)) sentence
        (omega (arith, length-padded 2 (floats.rounded sv.snr) (omega arith) (sane-snr sv sane)))

  length-sv_text :
      (sv : GpsSvInfo) → is_small sv.prn ≡ true → is_sane sv ≡ true → length (sv_text sv) ≤ 16
  unfolding sv_text
  length-sv_text sv small sane = omega (
    arith,
    length-append (sv_place floats sv) (snr_text sv),
    length-sv_place sv small sane,
    length-snr_text sv sane,
  )

  print_sv-text :
      (sv : GpsSvInfo) (sentence : List ℕ)
      → is_small sv.prn ≡ true
      → is_sane sv ≡ true
      → length sentence + 40 < 200
      → print_sv floats sv sentence ≡ some (sentence ++ sv_text sv)
  unfolding print_sv sv_text
  print_sv-text sv sentence small sane fits =
      let place = sv_place floats sv in
      let short = length-sv_place sv small sane in
      ap (print_snr floats sv) (print_at-room place sentence (omega (arith, short)))
      ∙ print_snr-text sv (sentence ++ place) sane
          (omega (arith, short, length-append sentence place))
      ∙ ap some (append_assoc sentence place (snr_text sv))

  -- The inner loop prints as many satellites as are missing from four.
  pub fill_gsv-texts :
      (kind : SvKind) (i j : ℕ) (svs : List GpsSvInfo) (sentence : List ℕ)
      → i + j ≡ 4
      → all_sane svs ≡ true
      → length sentence + 40 * j < 200
      → fill_gsv floats kind i svs sentence
        ≡ some (sentence ++ sv_texts (take j (of_kind kind svs)), rest_after kind j svs)
  unfolding fill_gsv rest_after
  fill_gsv-texts kind i zero [] sentence four sane fits =
      ap (λ t. some (t, [])) (sym (append-nil sentence))
  fill_gsv-texts kind i (suc j) [] sentence four sane fits =
      ap (λ t. some (t, [])) (sym (append-nil sentence))
  fill_gsv-texts kind i zero (sv ∷ svs) sentence four sane fits =
      ground (arith, four, append-nil sentence)
  fill_gsv-texts kind i (suc j) (sv ∷ svs) sentence four sane fits =
      elim (Bool-cases (is_of_kind kind sv)) [
        | inl e ↦
            let small = kind_small kind sv e in
            let sane_sv = sane-first sv svs sane in
            rw
              (
                below-leb i j four,
                e,
                print_sv-text sv sentence small sane_sv (omega (arith, fits)),
                fill_gsv-texts kind (i + 1) j svs (sentence ++ sv_text sv) (omega (arith, four))
                    (sane-rest sv svs sane)
                    (omega (
                      arith,
                      fits,
                      length-append sentence (sv_text sv),
                      length-sv_text sv small sane_sv,
                    )),
              )
              (ap (λ t. some (t, rest_after kind j svs))
                (append_assoc sentence (sv_text sv) (sv_texts (take j (of_kind kind svs)))))
        | inr e ↦ rw (
          below-leb i j four,
          e,
          fill_gsv-texts kind i (suc j) svs sentence four (sane-rest sv svs sane) fits,
        )
      ]
