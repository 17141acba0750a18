-- ===== src/Protocol/Codes/Wire.antt =====
-- The discriminants of the variants of an enumeration of crates/pam-desktop-protocol/src/lib.rs, and
-- the comparison of variants by their discriminants.
use pam_desktop.Prelude.{
  ℕ, ◌≡◌, ◌↔◌, ap, sym, ◌∙◌, true, Option, none, some, List, [], ◌∷◌, ◌==◌, if◌then◌else◌, Key,
  ==_iff,
}

pub record Wire (E : Type 0) : Type 0 where
  pub code : E → ℕ
  pub variants : List E

-- The variant of a discriminant, by which the discriminants are seen to differ.
unfoldable pub find_code : {E : Type 0} → (E → ℕ) → List E → ℕ → Option E
find_code code [] n = none
find_code code (e ∷ es) n = if code e == n then some e else find_code code es n

abbrev pub from_code : {E : Type 0} → Wire E → ℕ → Option E
from_code w n = find_code w.code w.variants n

-- The codes tell the variants apart.
abbrev pub IsWire : {E : Type 0} → Wire E → Type 0
IsWire w = (e : _) → from_code w (w.code e) ≡ some e

some-injective : {E : Type 0} (a b : E) → some a ≡ some b → a ≡ b
some-injective a b h = cc

pub same_code_iff :
    {E : Type 0} (w : Wire E) → IsWire w → (a b : E) → ((w.code a == w.code b) ≡ true) ↔ (a ≡ b)
same_code_iff w h a b = (
  λ p. some-injective a b (sym (h a) ∙ ap (from_code w) ((==_iff (w.code a) (w.code b)).0 p) ∙ h b),
  λ p. (==_iff (w.code a) (w.code b)).1 (ap w.code p),
)

-- Variants are the same when their codes are.
abbrev pub wire_eq : {E : Type 0} (w : Wire E) → IsWire w → Key E
wire_eq w h = record { matches = λ a b. w.code a == w.code b; matches_iff = same_code_iff w h }
