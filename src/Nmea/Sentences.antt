-- ===== src/Nmea/Sentences.antt =====
-- The sentences of a report are those of its satellites in groups of four.
use android_device_samsung_d.Common.{
  ℕ, zero, suc, ◌+◌, ◌≤◌, ◌<◌, ◌≡◌, refl, ap, ◌∙◌, Bool, true, false, List, [], ◌∷◌, ◌++◌, arith,
  ◌==◌, if◌then◌else◌, codes, length, take, length-append, pos,
}
use android_device_samsung_d.Nmea.Filling.{
  length-padded, print_at-room, all_sane, sv_texts, fill_gsv-texts,
}
use android_device_samsung_d.Nmea.Groups.{
  flat, groups, groups-flat, of_kind, count_svs-length, rest_after, rest_after-drop,
}
use android_device_samsung_d.Nmea.InView.{
  GpsSvInfo, Floats, padded, SvKind, gps_svs, glonass_svs, gsv_name, sentence_count_of, gsv_header,
  NmeaState, send_sentence, gsv_loop, gsv_sentences, send_all, SvReport, keep_used, if_going,
  loc_eng_nmea_generate_sv,
}

length-filter-le : (kind : SvKind) (svs : List GpsSvInfo) → length (of_kind kind svs) ≤ length svs
length-filter-le kind [] = omega arith
length-filter-le kind (sv ∷ svs) = ground (arith, length-filter-le kind svs)

length-gsv_name : (kind : SvKind) → length (gsv_name kind) ≤ 7
length-gsv_name gps_svs = omega arith
length-gsv_name glonass_svs = omega arith

length-parts :
    (name a b c : List ℕ)
    → length name ≤ 7
    → length a ≤ 3
    → length b ≤ 3
    → length c ≤ 3
    → length (name ++ a ++ b',' ∷ (b ++ b',' ∷ c)) ≤ 18
length-parts name a b c name_short a_short b_short c_short = omega (
  arith,
  name_short,
  a_short,
  b_short,
  c_short,
  length-append (name ++ a) (b',' ∷ (b ++ b',' ∷ c)),
  length-append name a,
  length-append b (b',' ∷ c),
)

length-gsv_header :
    (kind : SvKind) (total number count : ℕ)
    → total < 1000
    → number < 1000
    → count < 1000
    → length (gsv_header kind total number count) ≤ 18
unfolding gsv_header
length-gsv_header kind total number count few early short =
    length-parts (gsv_name kind) (padded 0 (pos total)) (padded 0 (pos number))
      (padded 2 (pos count)) (length-gsv_name kind)
      (length-padded 0 (pos total) (omega arith) (ground (arith, few)))
      (length-padded 0 (pos number) (omega arith) (ground (arith, early)))
      (length-padded 2 (pos count) (omega arith) (ground (arith, short)))

-- The satellites of a kind, four at a time.
abbrev pub groups_of : SvKind → List GpsSvInfo → List (List GpsSvInfo)
groups_of kind svs = let ks = of_kind kind svs in groups (sentence_count_of (length ks)) ks

groups_of-flat :
    (kind : SvKind) (svs : List GpsSvInfo) → flat (groups_of kind svs) ≡ of_kind kind svs
groups_of-flat kind svs =
    let ks = of_kind kind svs in groups-flat (sentence_count_of (length ks)) ks (ground arith)

module _ (floats : Floats) where
  all_sane-rest :
      (kind : SvKind) (j : ℕ) (svs : List GpsSvInfo)
      → all_sane floats svs ≡ true
      → all_sane floats (rest_after kind j svs) ≡ true
  unfolding rest_after
  all_sane-rest kind zero svs sane = sane
  all_sane-rest kind (suc j) [] sane = refl
  all_sane-rest kind (suc j) (sv ∷ svs) sane =
      ground (arith, sane, all_sane-rest kind j svs, all_sane-rest kind (suc j) svs)

  -- The sentences of groups of satellites, numbered from a number on.
  abbrev pub sentences_of :
      SvKind → (number total count : ℕ) → List (List GpsSvInfo) → List (List ℕ)
  sentences_of kind number total count [] = []
  sentences_of kind number total count (g ∷ gs) =
      (gsv_header kind total number count ++ sv_texts floats g)
      ∷ sentences_of kind (number + 1) total count gs

  gsv_loop-sentences :
      (kind : SvKind) (left number total count : ℕ) (svs : List GpsSvInfo) (s : NmeaState)
      → number + left < 1000
      → total < 1000
      → count < 1000
      → all_sane floats svs ≡ true
      → gsv_loop floats kind left number total count svs s
        ≡ (send_all (sentences_of kind number total count (groups left (of_kind kind svs))) s, true)
  unfolding gsv_loop groups
  gsv_loop-sentences kind zero number total count svs s early few short sane = refl
  gsv_loop-sentences kind (suc left) number total count svs s early few short sane =
      let header = gsv_header kind total number count in
      let length_header =
        length-gsv_header kind total number count few (omega (arith, early)) short in
      let next = send_sentence (header ++ sv_texts floats (take 4 (of_kind kind svs))) s in
      rw (
        print_at-room header [] (omega (arith, length_header)),
        fill_gsv-texts floats kind 0 4 svs header refl sane (omega (arith, length_header)),
        gsv_loop-sentences kind left (number + 1) total count (rest_after kind 4 svs) next
            (omega (arith, early)) few short (all_sane-rest kind 4 svs sane),
        rest_after-drop kind 4 svs,
      )

  -- The sentences that a report has for a kind.
  abbrev pub gsv_report : SvKind → List GpsSvInfo → List (List ℕ)
  gsv_report kind svs =
      let ks = of_kind kind svs in
      if length ks == 0
      then (gsv_name kind ++ codes "1,1,0,") ∷ []
      else sentences_of kind 1 (sentence_count_of (length ks)) (length ks) (groups_of kind svs)

  pick_report :
      (b : Bool) (blank : List ℕ) (sentences : List (List ℕ)) (s : NmeaState)
      → ◌≡◌ {A = NmeaState × Bool}
          (if b then (send_sentence blank s, true) else (send_all sentences s, true))
          (send_all (if b then blank ∷ [] else sentences) s, true)
  pick_report true blank sentences s = refl
  pick_report false blank sentences s = refl

  gsv_sentences-report :
      (kind : SvKind) (svs : List GpsSvInfo) (s : NmeaState)
      → length svs ≤ 32
      → all_sane floats svs ≡ true
      → gsv_sentences floats kind svs s ≡ (send_all (gsv_report kind svs) s, true)
  unfolding gsv_sentences
  gsv_sentences-report kind svs s few sane =
      let n = length (of_kind kind svs) in
      let total = sentence_count_of n in
      let shorter = length-filter-le kind svs in
      rw
        (
          count_svs-length kind svs,
          gsv_loop-sentences kind total 1 total n svs s (ground (arith, few, shorter))
              (ground (arith, few, shorter)) (omega (arith, few, shorter)) sane,
        )
        (pick_report (n == 0) (gsv_name kind ++ codes "1,1,0,")
          (sentences_of kind 1 total n (groups_of kind svs)) s)

  -- If a report has at most 32 satellites and their printed numbers have three digits at most, then what
  -- `loc_eng_nmea_generate_sv` sends before the end of the function is, for GPS and then for GLONASS,
  -- one blank sentence if there is no satellite of the kind, and else the numbered sentences of its
  -- satellites in groups of four, and these groups hold each satellite of the kind once, in order.
  pub generate_sv-report :
      (r : SvReport) (s : NmeaState)
      → length r.sv_list ≤ 32
      → all_sane floats r.sv_list ≡ true
      → (loc_eng_nmea_generate_sv floats r s
          ≡ keep_used r (
              send_all
                (gsv_report glonass_svs r.sv_list)
                (send_all (gsv_report gps_svs r.sv_list) s)))
        × ((kind : SvKind) → flat (groups_of kind r.sv_list) ≡ of_kind kind r.sv_list)
  unfolding loc_eng_nmea_generate_sv
  generate_sv-report r s few sane =
      let finish = if_going (λ t. (keep_used r t, true)) in
      let after_gps = send_all (gsv_report gps_svs r.sv_list) s in
      (
        ap (λ x. (finish (if_going (gsv_sentences floats glonass_svs r.sv_list) x)).0)
              (gsv_sentences-report gps_svs r.sv_list s few sane)
            ∙ ap (λ x. (finish x).0)
                (gsv_sentences-report glonass_svs r.sv_list after_gps few sane),
        λ kind. groups_of-flat kind r.sv_list,
      )
