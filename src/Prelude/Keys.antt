-- ===== src/Prelude/Keys.antt =====
-- Keys with a decided equality, and the loop that validates items and rejects a repeated key.
use mathlib.Core.Path.{◌≡◌, refl, ap}
use mathlib.Core.Logic.{◌≢◌, ◌↔◌, ◌⊎◌}
use mathlib.Core.Bool.{Bool, true, false, ◌&&◌, ◌||◌}
use mathlib.Core.List.{List, [], ◌∷◌, ◌++◌, map}
use Prim.Native.Nat.{ℕ}
use native.Mathlib.Omega.{arith}
use pam_desktop.Prelude.Tests
use pam_desktop.Prelude.Lists.{All}
use pam_desktop.Prelude.Results.{Result, ok, ◌>>=◌, ◌>>◌, >>=-succeeds, fail_if, Accepts}

-- `Eq` and `Hash`, as far as a set of keys needs them.
pub record Key {ℓ} (K : Type ℓ) : Type ℓ where
  pub matches : K → K → Bool
  pub matches_iff : (j k : K) → (matches j k ≡ true) ↔ (j ≡ k)

abbrev pub same {ℓ} : {A : Type ℓ} ⦃e : Key A⦄ → A → A → Bool
same ⦃e⦄ = e.matches

instance abbrev pub nat_eq : Key ℕ
nat_eq = record { matches = Tests.◌==◌; matches_iff = Tests.==_iff }

module _ {ℓ} {A : Type ℓ} ⦃e : Key A⦄ where
  abbrev pub list_same : List A → List A → Bool
  list_same [] [] = true
  list_same [] (_ ∷ _) = false
  list_same (_ ∷ _) [] = false
  list_same (x ∷ xs) (y ∷ ys) = same x y && list_same xs ys

  pub list_same_iff : (xs ys : List A) → (list_same xs ys ≡ true) ↔ (xs ≡ ys)
  list_same_iff [] [] = (λ _. refl, λ _. refl)
  list_same_iff [] (y ∷ ys) = (λ h. cc, λ h. cc)
  list_same_iff (x ∷ xs) [] = (λ h. cc, λ h. cc)
  list_same_iff (x ∷ xs) (y ∷ ys) = ground (arith, e.matches_iff x y, list_same_iff xs ys)

  instance abbrev pub list_eq : Key (List A)
  list_eq = record { matches = list_same; matches_iff = list_same_iff }

module _ {ℓ} {K : Type ℓ} ⦃e : Key K⦄ where
  -- `HashSet::contains`.
  abbrev pub contains : List K → K → Bool
  contains [] k = false
  contains (x ∷ xs) k = same k x || contains xs k

  abbrev pub NotIn : K → List K → Type ℓ
  NotIn k = All (λ x. k ≢ x)

  -- Each key is outside `seen` and differs from all the earlier ones.
  abbrev pub DistinctFrom : List K → List K → Type ℓ
  DistinctFrom seen [] = Unit
  DistinctFrom seen (k ∷ ks) = NotIn k seen × DistinctFrom (k ∷ seen) ks

  pub contains-NotIn : (xs : List K) (k : K) → (contains xs k ≡ false) ↔ NotIn k xs
  contains-NotIn [] k = (λ _. tt, λ _. refl)
  contains-NotIn (x ∷ xs) k = ground (arith, e.matches_iff k x, contains-NotIn xs k)

  -- The keys that a loop has inserted, the last one first.
  abbrev pub pushed : List K → List K → List K
  pushed seen [] = seen
  pushed seen (k ∷ ks) = pushed (k ∷ seen) ks

  pub contains-pushed :
      (seen ks : List K) (k : K) → contains (pushed seen ks) k ≡ (contains ks k || contains seen k)
  contains-pushed seen [] k = refl
  contains-pushed seen (x ∷ ks) k = ground (arith, contains-pushed (x ∷ seen) ks k)

  pub pushed-append : (seen xs ys : List K) → pushed seen (xs ++ ys) ≡ pushed (pushed seen xs) ys
  pushed-append seen [] ys = refl
  pushed-append seen (x ∷ xs) ys = pushed-append (x ∷ seen) xs ys

  -- Two loops that share their set check the keys of both lists as one.
  pub DistinctFrom-append :
      (seen xs ys : List K)
      → DistinctFrom seen (xs ++ ys) ↔ (DistinctFrom seen xs × DistinctFrom (pushed seen xs) ys)
  DistinctFrom-append seen [] ys = (λ h. (tt, h), λ h. h.1)
  DistinctFrom-append seen (x ∷ xs) ys = ground (arith, DistinctFrom-append (x ∷ seen) xs ys)

-- Keys that an injection makes, beside others that it does not make.
module _ {K L : Type 0} ⦃e : Key K⦄ ⦃d : Key L⦄ (f : K → L) (others : List L) where
  pub NotIn-map :
      (x : K) (seen : List K)
      → ((y : K) → f x ≡ f y → x ≡ y)
      → NotIn (f x) others
      → NotIn (f x) (map f seen ++ others) ↔ NotIn x seen
  NotIn-map x [] injective fresh = (λ h. tt, λ h. fresh)
  NotIn-map x (y ∷ seen) injective fresh =
      let rest = NotIn-map x seen injective fresh in
      (λ h. (λ p. h.0 (ap f p), rest.0 h.1), λ h. (λ p. h.0 (injective y p), rest.1 h.1))

  pub DistinctFrom-map :
      ((x y : K) → f x ≡ f y → x ≡ y)
      → ((x : K) → NotIn (f x) others)
      → (seen xs : List K) → DistinctFrom (map f seen ++ others) (map f xs) ↔ DistinctFrom seen xs
  DistinctFrom-map injective fresh seen [] = (λ h. tt, λ h. tt)
  DistinctFrom-map injective fresh seen (x ∷ xs) =
      let here = NotIn-map x seen (injective x) (fresh x) in
      let rest = DistinctFrom-map injective fresh (x ∷ seen) xs in
      (λ h. (here.0 h.0, rest.0 h.1), λ h. (here.1 h.0, rest.1 h.1))

module _ {K : Type 0} ⦃e : Key K⦄ where
  abbrev pub IsIn : K → List K → Type 0
  IsIn k [] = ⊥
  IsIn k (x ∷ xs) = (k ≡ x) ⊎ IsIn k xs

  pub contains-IsIn : (xs : List K) (k : K) → (contains xs k ≡ true) ↔ IsIn k xs
  contains-IsIn [] k = (λ h. cc, λ h. absurd h)
  contains-IsIn (x ∷ xs) k = ground (arith, e.matches_iff k x, contains-IsIn xs k)

-- `for x in xs { x.validate()?; if !seen.insert(x.key) { return Err(..) } }`; the result is `seen`.
module _ {ℓ κ ι} {A : Type ℓ} {K : Type κ} {E : Type ι} ⦃e : Key K⦄ (key : A → K)
    (check : A → Result E (Unit {0})) (duplicated : A → E) where
  unfoldable pub check_each : List K → List A → Result E (List K)
  check_each seen [] = ok seen
  check_each seen (x ∷ xs) = do
    check x
    fail_if (contains seen (key x)) (duplicated x)
    check_each (key x ∷ seen) xs

  -- The loop ends well exactly when every item is accepted and no key comes twice.
  pub check_each-ok_iff {ν} :
      (V : A → Type ν)
      → ((x : A) → Accepts (check x) ↔ V x)
      → (seen : List K) (xs : List A) (out : List K)
      → (check_each seen xs ≡ ok out)
        ↔ (All V xs × DistinctFrom seen (map key xs) × (out ≡ pushed seen (map key xs)))
  unfolding check_each
  check_each-ok_iff V h seen [] out = ((λ p. (tt, tt, ground arith)), (λ p. ground arith))
  check_each-ok_iff V h seen (x ∷ xs) out =
      ground (arith, h x, contains-NotIn seen (key x), check_each-ok_iff V h (key x ∷ seen) xs out)

  -- The same of the loop with what follows it.
  pub check_each->>=_iff {ν μ} :
      {B : Type μ} (V : A → Type ν)
      → ((x : A) → Accepts (check x) ↔ V x)
      → (seen : List K) (xs : List A) (k : List K → Result E B) (b : B)
      → ((check_each seen xs >>= k) ≡ ok b)
        ↔ (All V xs × DistinctFrom seen (map key xs) × (k (pushed seen (map key xs)) ≡ ok b))
  check_each->>=_iff V h seen xs k b = (
    λ p.
        let (out, done, rest) = >>=-succeeds (check_each seen xs) k p in
        let (each, distinct, same_out) = (check_each-ok_iff V h seen xs out).0 done in
        (each, distinct, rw (← same_out) rest),
    λ p. rw ((check_each-ok_iff V h seen xs (pushed seen (map key xs))).1 (p.0, p.1, refl)) (p.2),
  )

  -- The loop over a fresh set that is dropped at its end.
  unfoldable pub check_unique : List A → Result E (Unit {0})
  check_unique xs = do seen ← check_each [] xs; ok tt

  pub check_unique_iff {ν} :
      (V : A → Type ν)
      → ((x : A) → Accepts (check x) ↔ V x)
      → (xs : List A) → Accepts (check_unique xs) ↔ (All V xs × DistinctFrom [] (map key xs))
  unfolding check_unique
  check_unique_iff V h xs =
      let loop = check_each->>=_iff V h [] xs (λ _. ok tt) tt in
      (λ p. let (each, distinct, _) = loop.0 p in (each, distinct), λ p. loop.1 (p.0, p.1, refl))
