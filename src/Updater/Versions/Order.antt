-- ===== src/Updater/Versions/Order.antt =====
-- crates/pam-desktop-shell/src/updater.rs, `compare_versions`: it is a linear preorder.
use Prim.Native.Nat.{compare, Ordering}
use pam_desktop.Prelude.{
  ℕ, ◌≡◌, refl, subst, arith, true, false, List, [], ◌∷◌, Option, none, some, Text, All, text,
  split,
}
use pam_desktop.Updater.Versions.{
  then_with, compare_text, digits_from, parse_u64, compare_parsed, compare_version_part,
  compare_parts, rank, compare_identifier, compare_identifiers, compare_prerelease, core_parts,
  prerelease, compare_release, compare_versions, version_is_newer,
}

-- How `x` stands to `z`, when it is known how it stands to `y`, and `y` to `z`.
abbrev pub Follows : Ordering → Ordering → Ordering → Type 0
Follows Ordering.eq p q = q ≡ p
Follows Ordering.lt Ordering.gt q = Unit
Follows Ordering.lt Ordering.eq q = q ≡ Ordering.lt
Follows Ordering.lt Ordering.lt q = q ≡ Ordering.lt
Follows Ordering.gt Ordering.lt q = Unit
Follows Ordering.gt Ordering.eq q = q ≡ Ordering.gt
Follows Ordering.gt Ordering.gt q = q ≡ Ordering.gt

abbrev pub reverse : Ordering → Ordering
reverse Ordering.lt = Ordering.gt
reverse Ordering.eq = Ordering.eq
reverse Ordering.gt = Ordering.lt

compare-Follows : (a b c : ℕ) → Follows (compare a b) (compare b c) (compare a c)
compare-Follows a b c = ground arith

compare-reverse : (a b : ℕ) → compare b a ≡ reverse (compare a b)
compare-reverse a b = ground arith

then_with-reverse :
    (p p' q q' : Ordering)
    → p' ≡ reverse p
    → q' ≡ reverse q
    → then_with p' q' ≡ reverse (then_with p q)
then_with-reverse p p' q q' e f = ground arith

then_with-Follows :
    (p q r p' q' r' : Ordering)
    → Follows p q r
    → Follows p' q' r'
    → Follows (then_with p p') (then_with q q') (then_with r r')
then_with-Follows p q r p' q' r' h k = ground arith

compare_text-reverse : (s t : Text) → compare_text t s ≡ reverse (compare_text s t)
compare_text-reverse [] [] = refl
compare_text-reverse [] (d ∷ t) = refl
compare_text-reverse (c ∷ s) [] = refl
compare_text-reverse (c ∷ s) (d ∷ t) =
    then_with-reverse (compare c d) (compare d c) (compare_text s t) (compare_text t s)
      (compare-reverse c d) (compare_text-reverse s t)

compare_text-Follows :
    (s t u : Text) → Follows (compare_text s t) (compare_text t u) (compare_text s u)
compare_text-Follows [] [] u = refl
compare_text-Follows [] (d ∷ t) [] = tt
compare_text-Follows [] (d ∷ t) (e ∷ u) = ground arith
compare_text-Follows (c ∷ s) [] [] = refl
compare_text-Follows (c ∷ s) [] (e ∷ u) = ground arith
compare_text-Follows (c ∷ s) (d ∷ t) [] = ground arith
compare_text-Follows (c ∷ s) (d ∷ t) (e ∷ u) =
    then_with-Follows (compare c d) (compare d e) (compare c e) (compare_text s t)
      (compare_text t u) (compare_text s u) (compare-Follows c d e) (compare_text-Follows s t u)

parsed-reverse :
    (m n : Option ℕ) (p q : Ordering)
    → q ≡ reverse p
    → compare_parsed n m q ≡ reverse (compare_parsed m n p)
parsed-reverse none none p q e = e
parsed-reverse none (some b) p q e = e
parsed-reverse (some a) none p q e = e
parsed-reverse (some a) (some b) p q e = compare-reverse a b

part-reverse : (l r : Text) → compare_version_part r l ≡ reverse (compare_version_part l r)
part-reverse l r =
    parsed-reverse (parse_u64 l) (parse_u64 r) (compare_text l r) (compare_text r l)
      (compare_text-reverse l r)

parts-reverse : (ls rs : List Text) → compare_parts rs ls ≡ reverse (compare_parts ls rs)
parts-reverse [] [] = refl
parts-reverse [] (r ∷ rs) =
    then_with-reverse (compare_version_part (text "0") r) (compare_version_part r (text "0"))
      (compare_parts [] rs) (compare_parts rs []) (part-reverse (text "0") r) (parts-reverse [] rs)
parts-reverse (l ∷ ls) [] =
    then_with-reverse (compare_version_part l (text "0")) (compare_version_part (text "0") l)
      (compare_parts ls []) (compare_parts [] ls) (part-reverse l (text "0")) (parts-reverse ls [])
parts-reverse (l ∷ ls) (r ∷ rs) =
    then_with-reverse (compare_version_part l r) (compare_version_part r l) (compare_parts ls rs)
      (compare_parts rs ls) (part-reverse l r) (parts-reverse ls rs)

rank-reverse : (m n : Option ℕ) (p q : Ordering) → q ≡ reverse p → rank n m q ≡ reverse (rank m n p)
rank-reverse none none p q e = e
rank-reverse none (some b) p q e = refl
rank-reverse (some a) none p q e = refl
rank-reverse (some a) (some b) p q e = compare-reverse a b

rank-Follows :
    (l m n : Option ℕ) (p q r : Ordering)
    → Follows p q r
    → Follows (rank l m p) (rank m n q) (rank l n r)
rank-Follows none none none p q r h = h
rank-Follows none none (some c) p q r h = ground arith
rank-Follows none (some b) none p q r h = tt
rank-Follows none (some b) (some c) p q r h = ground arith
rank-Follows (some a) none none p q r h = ground arith
rank-Follows (some a) none (some c) p q r h = tt
rank-Follows (some a) (some b) none p q r h = ground arith
rank-Follows (some a) (some b) (some c) p q r h = compare-Follows a b c

identifiers-reverse :
    (ls rs : List Text) → compare_identifiers rs ls ≡ reverse (compare_identifiers ls rs)
identifiers-reverse [] [] = refl
identifiers-reverse [] (r ∷ rs) = refl
identifiers-reverse (l ∷ ls) [] = refl
identifiers-reverse (l ∷ ls) (r ∷ rs) =
    then_with-reverse (compare_identifier l r) (compare_identifier r l) (compare_identifiers ls rs)
      (compare_identifiers rs ls)
      (rank-reverse (parse_u64 l) (parse_u64 r) (compare_text l r) (compare_text r l)
        (compare_text-reverse l r))
      (identifiers-reverse ls rs)

identifiers-Follows :
    (ls ms ns : List Text)
    → Follows (compare_identifiers ls ms) (compare_identifiers ms ns) (compare_identifiers ls ns)
identifiers-Follows [] [] ns = refl
identifiers-Follows [] (m ∷ ms) [] = tt
identifiers-Follows [] (m ∷ ms) (n ∷ ns) = ground arith
identifiers-Follows (l ∷ ls) [] [] = refl
identifiers-Follows (l ∷ ls) [] (n ∷ ns) = tt
identifiers-Follows (l ∷ ls) (m ∷ ms) [] = ground arith
identifiers-Follows (l ∷ ls) (m ∷ ms) (n ∷ ns) =
    then_with-Follows (compare_identifier l m) (compare_identifier m n) (compare_identifier l n)
      (compare_identifiers ls ms) (compare_identifiers ms ns) (compare_identifiers ls ns)
      (rank-Follows (parse_u64 l) (parse_u64 m) (parse_u64 n) (compare_text l m) (compare_text m n)
        (compare_text l n) (compare_text-Follows l m n))
      (identifiers-Follows ls ms ns)

release-reverse : (l r : Option Text) → compare_release r l ≡ reverse (compare_release l r)
unfolding compare_prerelease
release-reverse none none = refl
release-reverse none (some r) = refl
release-reverse (some l) none = refl
release-reverse (some l) (some r) = identifiers-reverse (split b'.' l) (split b'.' r)

release-Follows :
    (l m n : Option Text)
    → Follows (compare_release l m) (compare_release m n) (compare_release l n)
unfolding compare_prerelease
release-Follows none none n = refl
release-Follows none (some m) none = tt
release-Follows none (some m) (some n) = ground arith
release-Follows (some l) none none = refl
release-Follows (some l) none (some n) = tt
release-Follows (some l) (some m) none = ground arith
release-Follows (some l) (some m) (some n) =
    identifiers-Follows (split b'.' l) (split b'.' m) (split b'.' n)

-- A part that is a number below 2^64.
abbrev pub IsNumber : Text → Type 0
IsNumber part = (n : ℕ) × (parse_u64 part ≡ some n)

part-Follows :
    (l m n : Text)
    → IsNumber l
    → IsNumber m
    → IsNumber n
    → Follows (compare_version_part l m) (compare_version_part m n) (compare_version_part l n)
part-Follows l m n (a, e) (b, f) (c, g) = rw e (rw f (rw g (compare-Follows a b c)))

zero_part : IsNumber (text "0")
unfolding pam_desktop.Updater.Versions.parse_below pam_desktop.Updater.Versions.digits_from
zero_part = (0, refl)

zero_zero : compare_version_part (text "0") (text "0") ≡ Ordering.eq
unfolding pam_desktop.Updater.Versions.parse_below pam_desktop.Updater.Versions.digits_from
zero_zero = refl

Follows-eq : (p : Ordering) → Follows p Ordering.eq p
Follows-eq p = ground arith

-- A first part before further parts.
first_part-Follows :
    (l m n : Text) (p q r : Ordering)
    → IsNumber l
    → IsNumber m
    → IsNumber n
    → Follows p q r
    → Follows
        (then_with (compare_version_part l m) p)
        (then_with (compare_version_part m n) q)
        (then_with (compare_version_part l n) r)
first_part-Follows l m n p q r h k j rest =
    then_with-Follows (compare_version_part l m) (compare_version_part m n)
      (compare_version_part l n) p q r (part-Follows l m n h k j) rest

parts-Follows :
    (ls ms ns : List Text)
    → All IsNumber ls
    → All IsNumber ms
    → All IsNumber ns
    → Follows (compare_parts ls ms) (compare_parts ms ns) (compare_parts ls ns)
parts-Follows [] [] ns h k j = refl
parts-Follows [] (m ∷ ms) [] h k j =
    subst
      (λ (o : Ordering).
        Follows (then_with (compare_version_part (text "0") m) (compare_parts [] ms))
          (then_with (compare_version_part m (text "0")) (compare_parts ms []))
          (then_with o Ordering.eq))
      zero_zero
      (first_part-Follows (text "0") m (text "0") (compare_parts [] ms) (compare_parts ms [])
        Ordering.eq zero_part k.0 zero_part (parts-Follows [] ms [] tt k.1 tt))
parts-Follows (l ∷ ls) [] [] h k j = Follows-eq (compare_parts (l ∷ ls) [])
parts-Follows [] (m ∷ ms) (n ∷ ns) h k j =
    first_part-Follows (text "0") m n (compare_parts [] ms) (compare_parts ms ns)
      (compare_parts [] ns) zero_part k.0 j.0 (parts-Follows [] ms ns tt k.1 j.1)
parts-Follows (l ∷ ls) [] (n ∷ ns) h k j =
    first_part-Follows l (text "0") n (compare_parts ls []) (compare_parts [] ns)
      (compare_parts ls ns) h.0 zero_part j.0 (parts-Follows ls [] ns h.1 tt j.1)
parts-Follows (l ∷ ls) (m ∷ ms) [] h k j =
    first_part-Follows l m (text "0") (compare_parts ls ms) (compare_parts ms [])
      (compare_parts ls []) h.0 k.0 zero_part (parts-Follows ls ms [] h.1 k.1 tt)
parts-Follows (l ∷ ls) (m ∷ ms) (n ∷ ns) h k j =
    first_part-Follows l m n (compare_parts ls ms) (compare_parts ms ns) (compare_parts ls ns) h.0
      k.0 j.0 (parts-Follows ls ms ns h.1 k.1 j.1)

compare_versions-reverse : (l r : Text) → compare_versions r l ≡ reverse (compare_versions l r)
unfolding compare_versions
compare_versions-reverse l r =
    then_with-reverse (compare_parts (core_parts l) (core_parts r))
      (compare_parts (core_parts r) (core_parts l)) (compare_release (prerelease l) (prerelease r))
      (compare_release (prerelease r) (prerelease l)) (parts-reverse (core_parts l) (core_parts r))
      (release-reverse (prerelease l) (prerelease r))

-- The parts of the core are numbers below 2^64.
abbrev pub IsNumeric : Text → Type 0
IsNumeric version = All IsNumber (core_parts version)

compare_versions-Follows :
    (l m n : Text)
    → IsNumeric l
    → IsNumeric m
    → IsNumeric n
    → Follows (compare_versions l m) (compare_versions m n) (compare_versions l n)
unfolding compare_versions
compare_versions-Follows l m n h k j =
    then_with-Follows (compare_parts (core_parts l) (core_parts m))
      (compare_parts (core_parts m) (core_parts n)) (compare_parts (core_parts l) (core_parts n))
      (compare_release (prerelease l) (prerelease m))
      (compare_release (prerelease m) (prerelease n))
      (compare_release (prerelease l) (prerelease n))
      (parts-Follows (core_parts l) (core_parts m) (core_parts n) h k j)
      (release-Follows (prerelease l) (prerelease m) (prerelease n))

-- Of two versions, at most one is newer than the other, whatever their text.
version_is_newer_asymmetric :
    (a b : Text) → version_is_newer a b ≡ true → version_is_newer b a ≡ false
unfolding version_is_newer
version_is_newer_asymmetric a b h = ground (arith, compare_versions-reverse a b)

-- Among versions whose core parts are numbers below 2^64, a version that is newer than `b` is newer than
-- every version that is not newer than `b`.
pub version_is_newer_transitive :
    (a b c : Text)
    → IsNumeric a
    → IsNumeric b
    → IsNumeric c
    → version_is_newer a b ≡ true
    → version_is_newer c b ≡ false
    → version_is_newer a c ≡ true
unfolding version_is_newer
version_is_newer_transitive a b c h k j p q =
    ground (arith, compare_versions-Follows a b c h k j, compare_versions-reverse b c)
