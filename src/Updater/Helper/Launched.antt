-- ===== src/Updater/Helper/Launched.antt =====
-- crates/pam-desktop-shell/src/updater.rs: the helper reads the options that the host passes.
use pam_desktop.Prelude.{
  ℕ, zero, suc, ◌+◌, ◌-◌, ◌*◌, ◌/◌, ◌%◌, ◌^◌, ◌≡◌, ◌<◌, inl, inr, refl, ap, ◌∙◌, arith, true, ◌==◌,
  ltb, [], ◌∷◌, ◌++◌, Option, none, some, Text, is_ascii_digit, Bool-cases, if◌then◌else◌, ok,
}
use pam_desktop.Updater.Versions.{digits_from, parse_below}
use pam_desktop.Updater.Helper.{
  OsString, ApplyOptions, pid_or, parse_pid, is_digest, parse_apply_options, digits_of, to_string,
  helper_arguments,
}

-- One more digit.
abbrev shifted : ℕ → ℕ → Option ℕ → Option ℕ
shifted limit d none = none
shifted limit d (some m) = if ltb (m * 10 + d) limit then some (m * 10 + d) else none

digits_from-append :
    (limit value : ℕ) (s : Text) (d : ℕ)
    → d < 10
    → digits_from limit value (s ++ (b'0' + d) ∷ []) ≡ shifted limit d (digits_from limit value s)
unfolding digits_from is_ascii_digit
digits_from-append limit value [] d h = ground arith
digits_from-append limit value (c ∷ s) d h =
    ground (arith, digits_from-append limit (value * 10 + (c - b'0')) s d h)

digits_from-digits_of :
    (limit fuel n : ℕ) → n < limit → n < fuel → digits_from limit 0 (digits_of fuel n) ≡ some n
unfolding digits_from is_ascii_digit
digits_from-digits_of limit zero n h k = absurd (omega arith)
digits_from-digits_of limit (suc fuel) n h k = elim (Bool-cases (ltb n 10)) [
  | inl small ↦ rw small (ground arith)
  | inr large ↦
      let front : digits_from limit 0 (digits_of fuel (n / 10)) ≡ some (n / 10) =
        digits_from-digits_of limit fuel (n / 10) (omega arith) (ground arith) in
      let whole : n / 10 * 10 + n % 10 ≡ n = omega arith in
      let last : shifted limit (n % 10) (some (n / 10)) ≡ some n = rw whole (ground arith) in
      rw large (
        digits_from-append limit 0 (digits_of fuel (n / 10)) (n % 10) (omega arith)
        ∙ ap (shifted limit (n % 10)) front
        ∙ last)
]

parse_below-digits_from :
    (limit : ℕ) (s : Text) (n : ℕ)
    → 0 < n
    → digits_from limit 0 s ≡ some n
    → parse_below limit s ≡ some n
unfolding parse_below digits_from is_ascii_digit
parse_below-digits_from limit [] n h e = ground arith
parse_below-digits_from limit (c ∷ s) n h e = elim (Bool-cases (c == b'+')) [
  | inl plus ↦ ground arith
  | inr digit ↦ rw digit e
]

pid_or-some : (n : ℕ) → 0 < n → pid_or (some n) ≡ ok n
pid_or-some zero h = absurd (omega arith)
pid_or-some (suc n) h = refl

parse_pid-to_string :
    (n : ℕ) → 0 < n → n < 2 ^ 32 → parse_pid (OsString.unicode (to_string n)) ≡ ok n
unfolding to_string
parse_pid-to_string n h k =
    ap pid_or (
      parse_below-digits_from (2 ^ 32) (digits_of (suc n) n) n h
        (digits_from-digits_of (2 ^ 32) (suc n) n k (omega arith)))
    ∙ pid_or-some n h

abbrev options : ℕ → OsString → OsString → Text → Option OsString → ApplyOptions
options pid bundle archive sha256 launcher = record {
  parent_pid = pid;
  bundle = bundle;
  archive = archive;
  sha256 = sha256;
  launcher = launcher;
}

read_back :
    (pid : ℕ) (bundle archive : OsString) (sha256 : Text) (launcher : Option OsString)
    → parse_pid (OsString.unicode (to_string pid)) ≡ ok pid
    → is_digest sha256 ≡ true
    → parse_apply_options (helper_arguments (options pid bundle archive sha256 launcher))
      ≡ ok (options pid bundle archive sha256 launcher)
unfolding parse_apply_options helper_arguments
read_back pid bundle archive sha256 none e d = rw e (rw d refl)
read_back pid bundle archive sha256 (some launcher) e d = rw e (rw d refl)

-- The helper reads back the options that the host passes on its command line, whatever the paths, if the
-- process number is positive and fits in 32 bits and the digest is one in lower hex.
pub parse_apply_options-helper_arguments :
    (o : ApplyOptions)
    → 0 < o.parent_pid
    → o.parent_pid < 2 ^ 32
    → is_digest o.sha256 ≡ true
    → parse_apply_options (helper_arguments o) ≡ ok o
parse_apply_options-helper_arguments o h k d =
    read_back o.parent_pid o.bundle o.archive o.sha256 o.launcher
      (parse_pid-to_string o.parent_pid h k) d
