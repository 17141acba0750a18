-- ===== src/Updater/Disk/Rules.antt =====
-- crates/pam-desktop-shell/src/updater.rs: rules for programs over the disk. `Lossy` is what holds at
-- every moment, also when the power is lost; the postcondition speaks of a value or an error.
use pam_desktop.Prelude.{
  subst, ◌+◌, ◌≡◌, inl, inr, refl, true, arith, Option, none, some, Result, ok, err, ◌||◌, not,
  Bool-cases,
}
use pam_desktop.Updater.Disk.{
  Disk, SwapError, Verdict, succeeds, fails, power_loss, World, Run, Ended, returned, lost, Action,
  give, continue, ◌>>=◌, attempt, caught, changed, operate, operation, consult, query, reset, Place,
  slot, is_absent, cleared, ruined, moved, Slot, absent, directory, other, put,
}

module _ {B : Type 0} where
  pub is_absent_lem : (x : Slot B) → is_absent x ≡ true → x ≡ absent
  is_absent_lem absent h = refl
  is_absent_lem other h = cc
  is_absent_lem (directory b) h = cc

  -- What a rename has done, if it did anything.
  pub moved_lem :
      (from to : Place) (d d' : Disk B)
      → moved from to d ≡ some d'
      → put to (slot from d) (put from absent d) ≡ d'
  unfolding moved
  moved_lem from to d d' h =
      elim (Bool-cases (is_absent (slot from d) || not (is_absent (slot to d)))) [
        | inl stuck ↦ ground arith
        | inr free ↦ ground arith
      ]

module _ {B : Type 0} (Lossy : Disk B → Type 0) where
  abbrev pub Ensures :
      {A : Type 0} → (Result SwapError A → Disk B → Type 0) → Run B × Ended A → Type 0
  Ensures Q (s, returned r) = Q r s.disk
  Ensures Q (s, lost) = Lossy s.disk

  abbrev pub Triple :
      {A : Type 0}
      → (Disk B → Type 0)
      → Action B A
      → (Result SwapError A → Disk B → Type 0)
      → Type 0
  Triple P m Q = (w : World B) (s : Run B) → P s.disk → Ensures Q (m w s)

  pub give_rule :
      {A : Type 0} (P : Disk B → Type 0) (r : Result SwapError A)
      (Q : Result SwapError A → Disk B → Type 0)
      → ((d : Disk B) → P d → Q r d)
      → Triple P (give r) Q
  give_rule P r Q h w s p = h s.disk p

  continue_rule :
      {A C : Type 0} (Q : Result SwapError A → Disk B → Type 0) (k : A → Action B C)
      (R : Result SwapError C → Disk B → Type 0)
      → ((a : A) → Triple (Q (ok a)) (k a) R)
      → ((e : SwapError) (d : Disk B) → Q (err e) d → R (err e) d)
      → (w : World B) (p : Run B × Ended A) → Ensures Q p
      → Ensures R (continue w p k)
  continue_rule Q k R next bad w (s, returned (ok a)) h = next a w s h
  continue_rule Q k R next bad w (s, returned (err e)) h = bad e s.disk h
  continue_rule Q k R next bad w (s, lost) h = h

  pub bind_rule :
      {A C : Type 0} (P : Disk B → Type 0) (m : Action B A)
      (Q : Result SwapError A → Disk B → Type 0) (k : A → Action B C)
      (R : Result SwapError C → Disk B → Type 0)
      → Triple P m Q
      → ((a : A) → Triple (Q (ok a)) (k a) R)
      → ((e : SwapError) (d : Disk B) → Q (err e) d → R (err e) d)
      → Triple P (m >>= k) R
  unfolding ◌>>=◌
  bind_rule P m Q k R first next bad w s p = continue_rule Q k R next bad w (m w s) (first w s p)

  -- After a caught call, its outcome is a value.
  abbrev pub Caught :
      {A : Type 0}
      → (Result SwapError A → Disk B → Type 0)
      → Result SwapError (Result SwapError A)
      → Disk B
      → Type 0
  Caught Q (ok r) d = Q r d
  Caught Q (err e) d = ⊥

  caught_rule :
      {A : Type 0} (Q : Result SwapError A → Disk B → Type 0) (p : Run B × Ended A)
      → Ensures Q p
      → Ensures (Caught Q) (caught p)
  caught_rule Q (s, returned r) h = h
  caught_rule Q (s, lost) h = h

  pub attempt_rule :
      {A : Type 0} (P : Disk B → Type 0) (m : Action B A) (Q : Result SwapError A → Disk B → Type 0)
      → Triple P m Q
      → Triple P (attempt m) (Caught Q)
  unfolding attempt
  attempt_rule P m Q h w s p = caught_rule Q (m w s) (h w s p)

  changed_rule :
      (e : SwapError) (s : Run B) (o : Option (Disk B))
      (Q : Result SwapError (Unit {0}) → Disk B → Type 0)
      → Q (err e) s.disk
      → ((d : Disk B) → o ≡ some d → Q (ok tt) d)
      → Ensures Q (changed e s o)
  changed_rule e s none Q bad good = bad
  changed_rule e s (some d) Q bad good = good d refl

  operate_rule :
      (v : Verdict) (e : SwapError) (s : Run B) (o : Option (Disk B)) (left_over : Disk B)
      (Q : Result SwapError (Unit {0}) → Disk B → Type 0)
      → Q (err e) s.disk
      → Q (err e) left_over
      → Lossy left_over
      → ((d : Disk B) → o ≡ some d → Q (ok tt) d)
      → Ensures Q (operate v e s o left_over)
  operate_rule succeeds e s o left_over Q bad partial gone good = changed_rule e s o Q bad good
  operate_rule fails e s o left_over Q bad partial gone good = partial
  operate_rule power_loss e s o left_over Q bad partial gone good = gone

  pub operation_rule :
      (P : Disk B → Type 0) (e : SwapError) (effect : Disk B → Option (Disk B))
      (residue : World B → Disk B → Disk B) (Q : Result SwapError (Unit {0}) → Disk B → Type 0)
      → ((d : Disk B) → P d → Q (err e) d)
      → ((w : World B) (d : Disk B) → P d → Q (err e) (residue w d) × Lossy (residue w d))
      → ((d d' : Disk B) → P d → effect d ≡ some d' → Q (ok tt) d')
      → Triple P (operation e effect residue) Q
  unfolding operation
  operation_rule P e effect residue Q bad partial good w s p =
      operate_rule (w.verdict s.calls) e (record s { calls = s.calls + 1 }) (effect s.disk)
        (residue w s.disk) Q (bad s.disk p) (partial w s.disk p).0 (partial w s.disk p).1
        (λ d h. good s.disk d p h)

  consult_rule :
      {A : Type 0} (v : Verdict) (e : SwapError) (s : Run B) (r : Result SwapError A)
      (Q : Result SwapError A → Disk B → Type 0)
      → Q (err e) s.disk
      → Lossy s.disk
      → Q r s.disk
      → Ensures Q (consult v e s r)
  consult_rule succeeds e s r Q bad gone good = good
  consult_rule fails e s r Q bad gone good = bad
  consult_rule power_loss e s r Q bad gone good = gone

  pub query_rule :
      {A : Type 0} (P : Disk B → Type 0) (e : SwapError) (read : Disk B → Result SwapError A)
      (Q : Result SwapError A → Disk B → Type 0)
      → ((d : Disk B) → P d → Q (err e) d × Lossy d × Q (read d) d)
      → Triple P (query e read) Q
  unfolding query
  query_rule P e read Q h w s p =
      consult_rule (w.verdict s.calls) e (record s { calls = s.calls + 1 }) (read s.disk) Q
        (h s.disk p).0 (h s.disk p).1 (h s.disk p).2

  -- A directory is removed or left in ruins; where nothing stood, nothing happens.
  pub reset_rule :
      (place : Place) (P : Disk B → Type 0) (Q : Result SwapError (Unit {0}) → Disk B → Type 0)
      → ((d : Disk B) → P d → Lossy d × Q (err SwapError.not_removed) d)
      → ((d : Disk B) (b : B) → P d → P (put place (directory b) d))
      → ((d : Disk B) → P d → is_absent (slot place d) ≡ true → Q (ok tt) d)
      → ((d : Disk B) → P d → Q (ok tt) (put place absent d))
      → Triple P (reset place) Q
  unfolding reset
  reset_rule place P Q bad ruin nothing_there cleaned w s p =
      elim (Bool-cases (is_absent (slot place s.disk))) [
        | inl gone ↦ rw gone (nothing_there s.disk p gone)
        | inr stands ↦ rw stands (
            operation_rule P SwapError.not_removed (λ d. cleared place (slot place d) d)
              (λ w d. ruined place (slot place d) w d) Q (λ d h. (bad d h).1)
              (λ w d h. let t = ruined_rule w d (slot place d) h in ((bad _ t).1, (bad _ t).0))
              (λ d d' h e. cleared_rule d d' (slot place d) h e) w s p)
      ]
    where
      ruined_rule : (w : World B) (d : Disk B) (x : Slot B) → P d → P (ruined place x w d)
      ruined_rule w d absent h = h
      ruined_rule w d other h = h
      ruined_rule w d (directory b) h = ruin d w.rubble h

      cleared_rule : (d d' : Disk B) (x : Slot B) → P d → cleared place x d ≡ some d' → Q (ok tt) d'
      cleared_rule d d' absent h e = cc
      cleared_rule d d' other h e = cc
      cleared_rule d d' (directory b) h e =
          let same_disk : put place absent d ≡ d' = cc in
          subst (λ (t : Disk B). Q (ok tt) t) same_disk (cleaned d h)
