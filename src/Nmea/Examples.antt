-- ===== src/Nmea/Examples.antt =====
-- Runs of gps/loc_api/libloc_api_50001/loc_eng_nmea.cpp.
use android_device_samsung_d.Common.{
  ℕ, ◌+◌, ◌≤◌, ◌≡◌, refl, true, none, some, List, [], ◌∷◌, arith, ltb, codes, decimal, length, pos,
}
use android_device_samsung_d.Nmea.Checksum.{loc_eng_nmea_put_checksum, sv_used_list}
use android_device_samsung_d.Nmea.Filling.{sv_text}
use android_device_samsung_d.Nmea.Groups.{flat, groups, of_kind}
use android_device_samsung_d.Nmea.InView.{
  GpsSvInfo, Floats, SvKind, gps_svs, glonass_svs, is_of_kind, gsv_header, NmeaState, sv_place,
  send_all, SvReport, keep_used, loc_eng_nmea_generate_sv,
}
use android_device_samsung_d.Nmea.Reading.{
  read_sentence, put_checksum-read_sentence, put_checksum-length-le,
}
use android_device_samsung_d.Nmea.Satellites.{lists, sv_used_list-bit}
use android_device_samsung_d.Nmea.Sentences.{groups_of, gsv_report, generate_sv-report}

-- The characters of GPGSV,1 after the dollar sign.
abbrev body : List ℕ
body = 71 ∷ 80 ∷ 71 ∷ 83 ∷ 86 ∷ 44 ∷ 49 ∷ []

three_satellites : sv_used_list 32 1 0 0b1010_0001 ≡ 1 ∷ 6 ∷ 8 ∷ []
unfolding sv_used_list
three_satellites = refl

put_checksum-read_sentence_example :
    (after : List ℕ) × (n : ℕ) × (loc_eng_nmea_put_checksum 200 (36 ∷ body) ≡ some (after, n))
    × (read_sentence after ≡ some body)
put_checksum-read_sentence_example =
    put_checksum-read_sentence 200 body refl (omega arith) (omega arith)

put_checksum-length-le_example :
    (after : List ℕ) × (n : ℕ) × (loc_eng_nmea_put_checksum 10 (36 ∷ body) ≡ some (after, n))
    × (length after + 1 ≤ 10)
put_checksum-length-le_example = put_checksum-length-le 10 36 body (omega arith) (omega arith)

sv_used_list-bit_example : lists 6 (sv_used_list 32 1 0 0xa1) ≡ true
sv_used_list-bit_example = sv_used_list-bit 0xa1 5 (omega arith)

-- A float is printed as its pattern.
abbrev as_printed : Floats
as_printed = record { rounded = pos; positive = λ x. ltb 0 x }

abbrev satellite : ℕ → GpsSvInfo
satellite n = record { prn = pos n; snr = 30; elevation = 45; azimuth = 120 }

abbrev six_satellites : SvReport
six_satellites = record {
  sv_list = satellite 1 ∷ satellite 2 ∷ satellite 70 ∷ satellite 3 ∷ satellite 4 ∷ satellite 5 ∷ [];
  used_in_fix_mask = 3;
  dops = none;
}

abbrev start : NmeaState
start = record { has_nmea_cb = true; sv_used_mask = 0; pdop = 0; hdop = 0; vdop = 0; sent = [] }

generate_sv-report_example :
    (loc_eng_nmea_generate_sv as_printed six_satellites start
      ≡ keep_used six_satellites (
          send_all
            (gsv_report as_printed glonass_svs six_satellites.sv_list)
            (send_all (gsv_report as_printed gps_svs six_satellites.sv_list) start)))
    × ((kind : SvKind)
        → flat (groups_of kind six_satellites.sv_list) ≡ of_kind kind six_satellites.sv_list)
generate_sv-report_example = generate_sv-report as_printed six_satellites start (omega arith) refl

-- The fifth satellite of GPS stands alone in the second sentence.
second_sentence :
    gsv_report as_printed gps_svs six_satellites.sv_list
    ≡ codes "$GPGSV,2,1,05,01,45,120,30,02,45,120,30,03,45,120,30,04,45,120,30"
      ∷ codes "$GPGSV,2,2,05,05,45,120,30"
      ∷ []
unfolding groups is_of_kind gsv_header sv_text sv_place decimal
second_sentence = refl
