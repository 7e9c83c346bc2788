-- ===== src/Nmea/Groups.antt =====
-- The sentences for the satellites in view name each satellite of their kind once.
use android_device_samsung_d.Common.{
  ℕ, zero, suc, ◌-◌, ◌*◌, ◌≤◌, ◌≡◌, refl, ap, ◌∙◌, List, [], ◌∷◌, ◌++◌, arith, if◌then◌else◌,
  length, take, filter,
}
use android_device_samsung_d.Nmea.InView.{GpsSvInfo, SvKind, is_of_kind, count_svs}

module _ {ℓ} {A : Type ℓ} where
  abbrev pub drop : ℕ → List A → List A
  drop zero xs = xs
  drop (suc n) [] = []
  drop (suc n) (x ∷ xs) = drop n xs

  abbrev pub flat : List (List A) → List A
  flat [] = []
  flat (xs ∷ rest) = xs ++ flat rest

-- Four at a time.
unfoldable pub groups : ℕ → List GpsSvInfo → List (List GpsSvInfo)
groups zero svs = []
groups (suc n) svs = take 4 svs ∷ groups n (drop 4 svs)

take-drop : (n : ℕ) (svs : List GpsSvInfo) → take n svs ++ drop n svs ≡ svs
take-drop zero svs = refl
take-drop (suc n) [] = refl
take-drop (suc n) (sv ∷ svs) = ap (λ t. sv ∷ t) (take-drop n svs)

length-drop : (n : ℕ) (svs : List GpsSvInfo) → length (drop n svs) ≡ length svs - n
length-drop zero svs = omega arith
length-drop (suc n) [] = omega arith
length-drop (suc n) (sv ∷ svs) = omega (arith, length-drop n svs)

pub groups-flat : (n : ℕ) (svs : List GpsSvInfo) → length svs ≤ 4 * n → flat (groups n svs) ≡ svs
unfolding groups
groups-flat zero [] enough = refl
groups-flat zero (sv ∷ svs) enough = absurd (omega (arith, enough))
groups-flat (suc n) svs enough =
    ap (λ t. take 4 svs ++ t) (groups-flat n (drop 4 svs) (omega (arith, length-drop 4 svs)))
    ∙ take-drop 4 svs

abbrev pub of_kind : SvKind → List GpsSvInfo → List GpsSvInfo
of_kind kind svs = filter (is_of_kind kind) svs

pub count_svs-length :
    (kind : SvKind) (svs : List GpsSvInfo) → count_svs kind svs ≡ length (of_kind kind svs)
unfolding count_svs
count_svs-length kind [] = refl
count_svs-length kind (sv ∷ svs) = ground (arith, count_svs-length kind svs)

-- The satellites after the next ones of a kind.
unfoldable pub rest_after : SvKind → ℕ → List GpsSvInfo → List GpsSvInfo
rest_after kind zero svs = svs
rest_after kind (suc n) [] = []
rest_after kind (suc n) (sv ∷ svs) =
    let taken = rest_after kind n svs in
    let skipped = rest_after kind (suc n) svs in if is_of_kind kind sv then taken else skipped

pub rest_after-drop :
    (kind : SvKind) (n : ℕ) (svs : List GpsSvInfo)
    → of_kind kind (rest_after kind n svs) ≡ drop n (of_kind kind svs)
unfolding rest_after
rest_after-drop kind zero svs = refl
rest_after-drop kind (suc n) [] = refl
rest_after-drop kind (suc n) (sv ∷ svs) =
    ground (arith, rest_after-drop kind n svs, rest_after-drop kind (suc n) svs)
