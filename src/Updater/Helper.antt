-- ===== src/Updater/Helper.antt =====
-- crates/pam-desktop-shell/src/updater.rs: the command line between `launch_apply_helper` and
-- `ApplyOptions::parse`. A path is its text, or the bytes of one that is no Unicode.
pub mod Launched
use pam_desktop.Prelude.{
  ℕ, zero, suc, ◌+◌, ◌/◌, ◌%◌, ◌^◌, Bool, true, false, not, ◌&&◌, ◌||◌, ◌==◌, ltb, List, [], ◌∷◌,
  ◌++◌, Option, none, some, Text, text, same, nat_eq, list_eq, is_empty, is_some, all, utf8_len,
  within, is_ascii_digit, if◌then◌else◌, Result, err, ok, ◌>>=◌, ◌>>◌, fail_if,
}
use pam_desktop.Updater.Versions.{parse_below}

pub data OsString : Type 0 where
  unicode : Text → OsString
  opaque : List ℕ → OsString

pub data OptionError : Type 0 where
  invalid_option invalid_pid pid_not_unicode invalid_digest : OptionError
  needs_value repeated required unknown : Text → OptionError

pub record ApplyOptions : Type 0 where
  pub parent_pid : ℕ
  pub bundle : OsString
  pub archive : OsString
  pub sha256 : Text
  pub launcher : Option OsString

-- `HashMap<String, OsString>`.
abbrev pub Values : Type 0
Values = List (Text × OsString)

abbrev pub to_str : OsString → Option Text
to_str (unicode s) = some s
to_str (opaque bytes) = none

abbrev pub starts_with : Text → Text → Bool
starts_with [] s = true
starts_with (c ∷ prefix) [] = false
starts_with (c ∷ prefix) (d ∷ s) = c == d && starts_with prefix s

abbrev pub option_key : OsString → Result OptionError Text
option_key (unicode s) = if starts_with (text "--") s then ok s else err OptionError.invalid_option
option_key (opaque bytes) = err OptionError.invalid_option

abbrev pub has_key : Text → Values → Bool
has_key key [] = false
has_key key ((k, v) ∷ values) = same k key || has_key key values

abbrev pub collect : Values → List OsString → Result OptionError Values
collect values [] = ok values
collect values (argument ∷ []) = option_key argument >>= λ key. err (OptionError.needs_value key)
collect values (argument ∷ value ∷ rest) = do
  key ← option_key argument
  fail_if (has_key key values) (OptionError.repeated key)
  collect ((key, value) ∷ values) rest

-- `HashMap::remove`.
abbrev pub kept : Text × OsString → Option OsString × Values → Option OsString × Values
kept entry (found, values) = (found, entry ∷ values)

abbrev pub remove : Text → Values → Option OsString × Values
remove key [] = (none, [])
remove key ((k, v) ∷ values) =
    let rest = remove key values in if same k key then (some v, values) else kept (k, v) rest

abbrev pub demanded : Text → Option OsString × Values → Result OptionError (OsString × Values)
demanded key (none, values) = err (OptionError.required key)
demanded key (some v, values) = ok (v, values)

abbrev pub take : Text → Values → Result OptionError (OsString × Values)
take key values = demanded key (remove key values)

abbrev pub pid_or : Option ℕ → Result OptionError ℕ
pid_or none = err OptionError.invalid_pid
pid_or (some zero) = err OptionError.invalid_pid
pid_or (some (suc n)) = ok (suc n)

abbrev pub parse_pid : OsString → Result OptionError ℕ
parse_pid (unicode s) = pid_or (parse_below (2 ^ 32) s)
parse_pid (opaque bytes) = err OptionError.pid_not_unicode

-- `value.len()` counts bytes.
unfoldable pub is_digest : Text → Bool
unfolding is_ascii_digit
is_digest value = utf8_len value == 64 && all (λ c. is_ascii_digit c || within b'a' b'f' c) value

abbrev pub parse_digest : OsString → Result OptionError Text
parse_digest (unicode s) = if is_digest s then ok s else err OptionError.invalid_digest
parse_digest (opaque bytes) = err OptionError.invalid_digest

abbrev pub nothing_left : Values → Result OptionError (Unit {0})
nothing_left [] = ok tt
nothing_left ((key, v) ∷ values) = err (OptionError.unknown key)

unfoldable pub parse_apply_options : List OsString → Result OptionError ApplyOptions
parse_apply_options arguments = do
  values ← collect [] arguments
  parent ← take (text "--parent") values
  parent_pid ← parse_pid parent.0
  bundle ← take (text "--bundle") parent.1
  archive ← take (text "--archive") bundle.1
  digest ← take (text "--sha256") archive.1
  sha256 ← parse_digest digest.0
  launcher ← ok (remove (text "--launcher") digest.1)
  nothing_left launcher.1
  ok (record {
    parent_pid = parent_pid;
    bundle = bundle.0;
    archive = archive.0;
    sha256 = sha256;
    launcher = launcher.0;
  })

-- `u32::to_string`; a number has no more digits than its successor counts.
abbrev pub digits_of : ℕ → ℕ → Text
digits_of zero n = []
digits_of (suc fuel) n =
    let front = digits_of fuel (n / 10) in
    if ltb n 10 then (b'0' + n) ∷ [] else front ++ (b'0' + n % 10) ∷ []

unfoldable pub to_string : ℕ → Text
to_string n = digits_of (suc n) n

abbrev pub launcher_arguments : Option OsString → List OsString
launcher_arguments none = []
launcher_arguments (some launcher) = unicode (text "--launcher") ∷ launcher ∷ []

-- The arguments after the name of the command.
unfoldable pub helper_arguments : ApplyOptions → List OsString
helper_arguments o =
    unicode (text "--parent")
    ∷ unicode (to_string o.parent_pid)
    ∷ unicode (text "--bundle")
    ∷ o.bundle
    ∷ unicode (text "--archive")
    ∷ o.archive
    ∷ unicode (text "--sha256")
    ∷ unicode o.sha256
    ∷ launcher_arguments o.launcher
