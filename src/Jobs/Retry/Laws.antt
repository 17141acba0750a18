-- ===== src/Jobs/Retry/Laws.antt =====
-- crates/pam-desktop-shell/src/scheduler.rs: how often a job is tried, and after which delays.
use mathlib.Core.List.{append_assoc, append-nil}
use native.Mathlib.Nat.{mul-le-mul}
use pam_desktop.Prelude.{
  ℕ, zero, suc, ◌+◌, ◌-◌, ◌*◌, ◌%◌, ◌^◌, ◌≤◌, ◌<◌, ◌≡◌, refl, ap, ◌⊎◌, sym, ◌∙◌, Bool-cases, inl,
  inr, arith, Bool, true, false, List, [], ◌∷◌, ◌++◌, ltb,
}
use pam_desktop.Protocol.Jobs.{BackgroundJobConfig, IsJob}
use pam_desktop.Jobs.Retry.{
  Answers, Action, start, back_off, fail_journal, finish, rest, Progress, returned, proceeds,
  backoff, attempts_from, cycle, then_finish,
}

-- The powers of two that a backoff of at most nine doublings can meet.
power-le : (n : ℕ) → n ≤ 9 → 2 ^ n ≤ 512
power-le zero h = omega arith
power-le (suc zero) h = omega arith
power-le (suc (suc zero)) h = omega arith
power-le (suc (suc (suc zero))) h = omega arith
power-le (suc (suc (suc (suc zero)))) h = omega arith
power-le (suc (suc (suc (suc (suc zero))))) h = omega arith
power-le (suc (suc (suc (suc (suc (suc zero)))))) h = omega arith
power-le (suc (suc (suc (suc (suc (suc (suc zero))))))) h = omega arith
power-le (suc (suc (suc (suc (suc (suc (suc (suc zero)))))))) h = omega arith
power-le (suc (suc (suc (suc (suc (suc (suc (suc (suc n))))))))) h =
    let last : n ≡ 0 = omega arith in rw last (omega arith)

-- For an accepted job neither the shift nor the product overflows: the delay after an attempt is the
-- configured backoff, doubled once for every attempt before it.
pub backoff_exact :
    (job : BackgroundJobConfig) (attempt : ℕ)
    → IsJob job
    → attempt ≤ job.maximum_attempts
    → backoff job attempt ≡ job.retry_backoff_ms * 2 ^ (attempt - 1)
unfolding backoff
backoff_exact job attempt v h =
    let high = v.attempts_high in
    let amount : (attempt - 1) % 64 ≡ attempt - 1 = omega arith in
    let small = power-le (attempt - 1) (omega arith) in
    let product : job.retry_backoff_ms * 2 ^ (attempt - 1) ≤ 86_400_000 * 512 =
      mul-le-mul v.backoff_high small in
    rw amount (omega (arith, product))

-- The numbers of the attempts that are started, in order.
unfoldable pub starts : List Action → List ℕ
starts [] = []
starts (start n ∷ actions) = n ∷ starts actions
starts (back_off d ∷ actions) = starts actions
starts (fail_journal ∷ actions) = starts actions
starts (finish ∷ actions) = starts actions
starts (rest d ∷ actions) = starts actions

unfoldable pub count_up : ℕ → ℕ → List ℕ
count_up i zero = []
count_up i (suc n) = i ∷ count_up (suc i) n

starts-append : (xs ys : List Action) → starts (xs ++ ys) ≡ starts xs ++ starts ys
unfolding starts
starts-append [] ys = refl
starts-append (start n ∷ xs) ys = ap (λ (l : List ℕ). n ∷ l) (starts-append xs ys)
starts-append (back_off d ∷ xs) ys = starts-append xs ys
starts-append (fail_journal ∷ xs) ys = starts-append xs ys
starts-append (finish ∷ xs) ys = starts-append xs ys
starts-append (rest d ∷ xs) ys = starts-append xs ys

-- At most `left` attempts, numbered in order.
pub record CountsUp (attempt left : ℕ) (numbers : List ℕ) : Type 0 where
  pub count : ℕ
  pub few : count ≤ left
  pub in_order : numbers ≡ count_up attempt count

none_counted : (attempt left : ℕ) → CountsUp attempt left []
unfolding count_up
none_counted attempt left = record { count = 0; few = omega arith; in_order = refl }

one_counted :
    (attempt left : ℕ) (numbers : List ℕ)
    → CountsUp (suc attempt) left numbers
    → CountsUp attempt (suc left) (attempt ∷ numbers)
unfolding count_up
one_counted attempt left numbers c =
    let few = c.few in
    record {
      count = suc c.count;
      few = omega arith;
      in_order = ap (λ (l : List ℕ). attempt ∷ l) c.in_order;
    }

starts-attempts_from :
    (job : BackgroundJobConfig) (world : ℕ → Answers) (left attempt : ℕ)
    → CountsUp attempt left (starts (attempts_from job world left attempt).0)
unfolding starts attempts_from
starts-attempts_from job world zero attempt = none_counted attempt 0
starts-attempts_from job world (suc left) attempt =
    let later = starts-attempts_from job world left (suc attempt) in
    let stop = one_counted attempt left [] (none_counted (suc attempt) left) in
    let go = one_counted attempt left _ later in
    elim (Bool-cases (world attempt).recorded) [
      | inr r ↦ rw r (none_counted attempt (suc left))
      | inl r ↦ elim (Bool-cases (world attempt).succeeds) [
        | inl s ↦ rw (r, s) stop
        | inr s ↦ elim (Bool-cases (ltb attempt job.maximum_attempts)) [
          | inr last ↦ rw (r, s, last) go
          | inl more ↦ elim (Bool-cases (world attempt).stops) [
            | inl w ↦ rw (r, s, more, w) stop
            | inr w ↦ rw (r, s, more, w) go
          ]
        ]
      ]
    ]

then_finish-starts :
    (job : BackgroundJobConfig) (recorded : Bool) (p : List Action × Progress)
    → starts (then_finish job recorded p).0 ≡ starts p.0
unfolding starts
then_finish-starts job recorded (actions, returned) = refl
then_finish-starts job true (actions, proceeds) =
    starts-append actions (finish ∷ rest job.interval_ms ∷ []) ∙ append-nil (starts actions)
then_finish-starts job false (actions, proceeds) =
    starts-append actions (fail_journal ∷ []) ∙ append-nil (starts actions)

-- Whatever the world answers, the attempts of a cycle are numbered 1, 2, 3 and so on without a gap,
-- and there are at most as many as the job allows.
pub cycle-starts :
    (job : BackgroundJobConfig) (world : ℕ → Answers) (recorded : Bool)
    → CountsUp 1 job.maximum_attempts (starts (cycle job world recorded).0)
unfolding cycle
cycle-starts job world recorded =
    rw (then_finish-starts job recorded (attempts_from job world job.maximum_attempts 1))
      (starts-attempts_from job world job.maximum_attempts 1)

-- Failed attempts `i`, `i + 1` and so on, `k` of them, each with the doubled delay after it.
unfoldable pub retries : BackgroundJobConfig → ℕ → ℕ → List Action
retries job i zero = []
retries job i (suc k) =
    start i ∷ back_off (job.retry_backoff_ms * 2 ^ (i - 1)) ∷ retries job (suc i) k

-- An attempt that is recorded and fails, with no stop in the backoff after it.
abbrev pub FailsOn : Answers → Type 0
FailsOn a = (a.recorded ≡ true) × (a.succeeds ≡ false) × (a.stops ≡ false)

abbrev after : List Action → List Action × Progress → List Action × Progress
after before (actions, p) = (before ++ actions, p)

after-none : (p : List Action × Progress) → after [] p ≡ p
after-none (actions, p) = refl

module _ (job : BackgroundJobConfig) (world : ℕ → Answers) (v : IsJob job) where
  attempts_from-fail :
      (k left i : ℕ)
      → k + i ≤ job.maximum_attempts
      → ((n : ℕ) → i ≤ n → n < k + i → FailsOn (world n))
      → attempts_from job world (k + left) i
        ≡ after (retries job i k) (attempts_from job world left (k + i))
  unfolding attempts_from retries
  attempts_from-fail zero left i h fails =
      let a : 0 + left ≡ left = omega arith in
      let b : 0 + i ≡ i = omega arith in rw (a, b) (sym (after-none _))
  attempts_from-fail (suc k) left i h fails =
      let now = fails i (omega arith) (omega arith) in
      let later =
        attempts_from-fail k left (suc i) (omega arith)
          (λ n a b. fails n (omega arith) (omega arith)) in
      let more : ltb i job.maximum_attempts ≡ true = ground arith in
      let delay = backoff_exact job i v (omega arith) in
      let place : k + suc i ≡ suc k + i = omega arith in
      let total : suc k + left ≡ suc (k + left) = omega arith in
      rw (total, now.0, now.1, more, now.2, delay, later, place)

  last_attempt :
      (l n : ℕ)
      → (world n).recorded ≡ true
      → ((world n).succeeds ≡ true) ⊎ (l ≡ 0)
      → n + l ≡ job.maximum_attempts
      → attempts_from job world (suc l) n ≡ (start n ∷ [], proceeds)
  unfolding attempts_from
  last_attempt l n r (inl s) h = rw (r, s) refl
  last_attempt l n r (inr none_left) h =
      let last : ltb n job.maximum_attempts ≡ false = ground arith in
      elim (Bool-cases (world n).succeeds) [
        | inl s ↦ rw (r, s) refl
        | inr s ↦ rw (none_left, r, s, last) refl
      ]

  -- The whole cycle of an accepted job, when the journal records every step and no stop interrupts
  -- it: attempts that fail are each followed by the configured backoff, doubled for every attempt
  -- before; the first attempt that succeeds, or the last that is allowed, ends the cycle, which is
  -- recorded before the thread rests for the interval.
  pub cycle_lem :
      (k : ℕ)
      → suc k ≤ job.maximum_attempts
      → ((n : ℕ) → 1 ≤ n → n < k + 1 → FailsOn (world n))
      → (world (k + 1)).recorded ≡ true
      → ((world (k + 1)).succeeds ≡ true) ⊎ (k + 1 ≡ job.maximum_attempts)
      → cycle job world true
        ≡ (retries job 1 k ++ start (k + 1) ∷ finish ∷ rest job.interval_ms ∷ [], proceeds)
  unfolding cycle
  cycle_lem k h fails r ends =
      let l = job.maximum_attempts - suc k in
      let split : job.maximum_attempts ≡ k + suc l = omega arith in
      let last_one : ((world (k + 1)).succeeds ≡ true) ⊎ (k + 1 ≡ job.maximum_attempts)
          → ((world (k + 1)).succeeds ≡ true) ⊎ (l ≡ 0) =
        λ e. elim e [ inl s ↦ inl s | inr m ↦ inr (omega arith) ] in
      let last = last_attempt l (k + 1) r (last_one ends) (omega arith) in
      let all_attempts : attempts_from job world (k + suc l) 1
          ≡ (retries job 1 k ++ start (k + 1) ∷ [], proceeds) =
        attempts_from-fail k (suc l) 1 (omega arith) fails ∙ ap (after (retries job 1 k)) last in
      let counted : attempts_from job world job.maximum_attempts 1
          ≡ (retries job 1 k ++ start (k + 1) ∷ [], proceeds) =
        ap (λ (n : ℕ). attempts_from job world n 1) split ∙ all_attempts in
      rw counted (
        ap (λ (a : List Action). (a, proceeds))
          (append_assoc (retries job 1 k) (start (k + 1) ∷ [])
            (finish ∷ rest job.interval_ms ∷ [])))
