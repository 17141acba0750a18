-- ===== src/Updater/Hex/Laws.antt =====
-- crates/pam-desktop-shell/src/updater.rs: `decode_hex` reads what `encode_hex` writes, and nothing else.
use pam_desktop.Prelude.{
  ℕ, zero, suc, ◌+◌, ◌*◌, ◌-◌, ◌/◌, ◌%◌, ◌≡◌, ◌<◌, ◌↔◌, refl, arith, Bool, true, false, not, List,
  [], ◌∷◌, Option, none, some, Text, subst, >>=-succeeds, utf8_len, utf8_width, ◌==◌, if◌then◌else◌,
  Result, ok, ◌>>=◌, ◌>>◌, fail_if, ==_iff, length, All, ltb,
}
use pam_desktop.Updater.Errors.{UpdateError}
use pam_desktop.Updater.Hex.{
  hex_nibble, digit_or, decode_pairs, decode_hex, get_or_zero, digits, encode_hex,
}

abbrev digit_number : ℕ → ℕ
digit_number n = if ltb n 10 then 48 + n else 87 + n

-- Consecutive characters before a text.
abbrev run_then : ℕ → ℕ → Text → Text
run_then first zero s = s
run_then first (suc k) s = first ∷ run_then (suc first) k s

get-run_then :
    (first k : ℕ) (s : Text) (n : ℕ)
    → get_or_zero (run_then first k s) n ≡ (if ltb n k then first + n else get_or_zero s (n - k))
get-run_then first zero s n = ground arith
get-run_then first (suc k) s zero = ground arith
get-run_then first (suc k) s (suc n) = ground (arith, get-run_then (suc first) k s n)

digit-number : (n : ℕ) → n < 16 → get_or_zero digits n ≡ digit_number n
digit-number n h =
    let decimal : get_or_zero digits n
        ≡ (if ltb n 10 then 48 + n else get_or_zero (run_then 97 6 []) (n - 10)) =
      get-run_then 48 10 (run_then 97 6 []) n in
    let letter = get-run_then 97 6 [] (n - 10) in ground arith

hex_nibble-digit : (c n : ℕ) → (hex_nibble c ≡ some n) ↔ ((n < 16) × (c ≡ digit_number n))
unfolding hex_nibble
hex_nibble-digit c n = ground arith

hex_nibble_iff : (c n : ℕ) → (hex_nibble c ≡ some n) ↔ ((n < 16) × (c ≡ get_or_zero digits n))
hex_nibble_iff c n = (
  λ h. let (small, e) = (hex_nibble-digit c n).0 h in (small, rw (digit-number n small) e),
  λ p. (hex_nibble-digit c n).1 (p.0, rw (← digit-number n p.0) (p.1)),
)

digit_or_iff : (o : Option ℕ) (n : ℕ) → (digit_or o ≡ ok n) ↔ (o ≡ some n)
digit_or_iff none n = (λ h. cc, λ h. cc)
digit_or_iff (some m) n = (λ h. cc, λ h. cc)

abbrev pub IsByte : ℕ → Type 0
IsByte b = b < 256

quotient : (high low : ℕ) → low < 16 → (high * 16 + low) / 16 ≡ high
quotient high low h = omega arith

remainder : (high low : ℕ) → low < 16 → (high * 16 + low) % 16 ≡ low
remainder high low h = omega arith

decode_pairs_sound :
    (s : Text) (bytes : List ℕ)
    → decode_pairs s ≡ ok bytes
    → All IsByte bytes × (s ≡ encode_hex bytes)
unfolding encode_hex
decode_pairs_sound [] bytes h =
    subst (λ (bs : List ℕ). All IsByte bs × ([] ≡ encode_hex bs))
      (let same : [] ≡ bytes = cc in same) (tt, refl)
decode_pairs_sound (c ∷ []) bytes h = cc
decode_pairs_sound (c ∷ d ∷ s) bytes h =
    let rest = λ (n : ℕ). (do
      low ← digit_or (hex_nibble d)
      bytes ← decode_pairs s
      ok ((n * 16 + low) ∷ bytes)) in
    let (high, e, p) = >>=-succeeds (digit_or (hex_nibble c)) rest h in
    let last = λ (n : ℕ). (do bytes ← decode_pairs s; ok ((high * 16 + n) ∷ bytes)) in
    let (low, f, q) = >>=-succeeds (digit_or (hex_nibble d)) last p in
    let (tail, g, r) = >>=-succeeds (decode_pairs s) (λ bytes. ok ((high * 16 + low) ∷ bytes)) q in
    let (small, is_c) = (hex_nibble_iff c high).0 ((digit_or_iff (hex_nibble c) high).0 e) in
    let (small', is_d) = (hex_nibble_iff d low).0 ((digit_or_iff (hex_nibble d) low).0 f) in
    let (bounds, same_tail) = decode_pairs_sound s tail g in
    let same_bytes : (high * 16 + low) ∷ tail ≡ bytes = cc in
    let left : c ∷ d ∷ s
        ≡ get_or_zero digits ((high * 16 + low) / 16)
          ∷ get_or_zero digits ((high * 16 + low) % 16)
          ∷ encode_hex tail =
      rw (quotient high low small') (rw (remainder high low small') cc) in
    subst (λ (bs : List ℕ). All IsByte bs × (c ∷ d ∷ s ≡ encode_hex bs)) same_bytes
      ((omega arith, bounds), left)

decode_pairs-encode_hex :
    (bytes : List ℕ) → All IsByte bytes → decode_pairs (encode_hex bytes) ≡ ok bytes
unfolding encode_hex
decode_pairs-encode_hex [] h = refl
decode_pairs-encode_hex (b ∷ bytes) h =
    let high =
      (hex_nibble_iff (get_or_zero digits (b / 16)) (b / 16)).1 (omega (arith, h.0), refl) in
    let low = (hex_nibble_iff (get_or_zero digits (b % 16)) (b % 16)).1 (omega arith, refl) in
    let whole : b / 16 * 16 + b % 16 ≡ b = omega arith in
    rw high (rw low (rw (decode_pairs-encode_hex bytes h.1) (rw whole refl)))

utf8_width-digit : (n : ℕ) → n < 16 → utf8_width (get_or_zero digits n) ≡ 1
unfolding utf8_width
utf8_width-digit n h = rw (digit-number n h) (ground arith)

utf8_len-encode_hex :
    (bytes : List ℕ) → All IsByte bytes → utf8_len (encode_hex bytes) ≡ length bytes * 2
unfolding encode_hex
utf8_len-encode_hex [] h = refl
utf8_len-encode_hex (b ∷ bytes) h =
    let small : b / 16 < 16 = omega (arith, h.0) in
    let small' : b % 16 < 16 = omega arith in
    omega (
      arith,
      utf8_width-digit (b / 16) small,
      utf8_width-digit (b % 16) small',
      utf8_len-encode_hex bytes h.1,
    )

past_guard :
    {A : Type 0} {a : A} (b : Bool) (m : Result UpdateError A)
    → (fail_if (not b) UpdateError.hex_length >> m) ≡ ok a
    → (b ≡ true) × (m ≡ ok a)
past_guard true m h = (refl, h)
past_guard false m h = cc

-- `decode_hex` accepts exactly what `encode_hex` writes for `n` bytes, and gives these bytes back.
pub decode_hex_iff :
    (n : ℕ) (value : Text) (bytes : List ℕ)
    → (decode_hex n value ≡ ok bytes)
      ↔ (All IsByte bytes × (length bytes ≡ n) × (value ≡ encode_hex bytes))
unfolding decode_hex
decode_hex_iff n value bytes = (to, from)
  where
    to :
        decode_hex n value ≡ ok bytes
        → All IsByte bytes × (length bytes ≡ n) × (value ≡ encode_hex bytes)
    to h =
        let (fits, decoded) = past_guard (utf8_len value == n * 2) (decode_pairs value) h in
        let (bounds, e) = decode_pairs_sound value bytes decoded in
        let width : utf8_len (encode_hex bytes) ≡ length bytes * 2 =
          utf8_len-encode_hex bytes bounds in
        let same_width : utf8_len value ≡ length bytes * 2 = rw e width in
        let double : utf8_len value ≡ n * 2 = (==_iff (utf8_len value) (n * 2)).0 fits in
        (bounds, omega arith, e)

    from :
        All IsByte bytes × (length bytes ≡ n) × (value ≡ encode_hex bytes)
        → decode_hex n value ≡ ok bytes
    from (bounds, count, e) =
        let width : utf8_len value ≡ n * 2 =
          rw e (rw (← count) (utf8_len-encode_hex bytes bounds)) in
        let fits : (utf8_len value == n * 2) ≡ true = (==_iff (utf8_len value) (n * 2)).1 width in
        rw fits (rw e (decode_pairs-encode_hex bytes bounds))
