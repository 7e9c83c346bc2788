-- ===== src/Nmea/Checksum.antt =====
-- `loc_eng_nmea_put_checksum` and the satellites of a position
-- (gps/loc_api/libloc_api_50001/loc_eng_nmea.cpp).
use android_device_samsung_d.Common.{
  ℕ, zero, suc, ◌+◌, ◌-◌, ◌/◌, ◌%◌, ◌^◌, bit_xor, ◌||◌, Option, none, some, List, [], ◌∷◌, ◌++◌,
  ltb, leb, ◌==◌, if◌then◌else◌, length, take,
}

-- The checksum of the characters between the dollar sign and the end; `uint8_t`.
unfoldable pub xor_bytes : ℕ → List ℕ → ℕ
xor_bytes acc [] = acc
xor_bytes acc (c ∷ cs) = xor_bytes (bit_xor acc c % 256) cs

-- A digit of `%02X`.
unfoldable pub hex : ℕ → ℕ
hex n = if ltb n 10 then 48 + n else 55 + n

-- The text of the format for a checksum: an asterisk, two digits, CR and LF.
unfoldable pub checksum_text : ℕ → List ℕ
unfolding hex
checksum_text c = 42 ∷ hex (c / 16) ∷ hex (c % 16) ∷ 13 ∷ 10 ∷ []

-- What `snprintf(p, size, …)` writes of a text before its NUL: nothing at all with size 0.
unfoldable pub printed : ℕ → List ℕ → List ℕ
printed size text = take (size - 1) text

-- `maxSize-length-1`, an `int` that becomes a `size_t` of 32 bits.
unfoldable pub room : ℕ → ℕ → ℕ
room max_size len = (max_size + 2 ^ 32 - len - 1) % 2 ^ 32

-- `loc_eng_nmea_put_checksum(pNmea, maxSize)`: the C string that stands in the buffer after it, and
-- what it returns; the empty string is read past its end.
unfoldable pub loc_eng_nmea_put_checksum : ℕ → List ℕ → Option (List ℕ × ℕ)
unfolding printed room
loc_eng_nmea_put_checksum max_size [] = none
loc_eng_nmea_put_checksum max_size (c ∷ body) =
    let text = checksum_text (xor_bytes 0 body) in
    some (c ∷ (body ++ printed (room max_size (length body)) text), length body + length text)

-- The satellites of `sv_used_mask`: the loop of `loc_eng_nmea_generate_pos` from the satellite `i` on,
-- with `n` in the list already, on fuel.
unfoldable pub sv_used_list : ℕ → ℕ → ℕ → ℕ → List ℕ
sv_used_list zero i n mask = []
sv_used_list (suc k) i n mask =
    if mask == 0 || leb 32 n
    then []
    else (let rest = sv_used_list k (i + 1) (n + mask % 2) (mask / 2) in
        if mask % 2 == 1 then i ∷ rest else rest)

-- The character of the fix: none, 2D or 3D.
unfoldable pub fix_type : ℕ → ℕ
fix_type sv_used_count =
    if sv_used_count == 0 then b'1' else if leb sv_used_count 3 then b'2' else b'3'
