-- ===== src/Updater/Download/Laws.antt =====
-- crates/pam-desktop-shell/src/updater.rs, `download_inner`: what a download that ends well has got.
use pam_desktop.Prelude.{
  ℕ, zero, suc, ◌+◌, ◌≤◌, ◌<◌, ◌≡◌, inl, inr, refl, sym, ap, subst, ◌∙◌, arith, false, ltb, List,
  [], ◌∷◌, ◌++◌, Option, none, some, nat_eq, list_eq, length, length-append, All, Bool-cases, ok,
}
use pam_desktop.Updater.Download.{
  Read, interrupted, piece, Download, u64_max, take, stopped, take_in, added, receive,
}

abbrev joined : List ℕ → Option (List ℕ) → Option (List ℕ)
joined bytes none = none
joined bytes (some rest) = some (bytes ++ rest)

-- What the reads give up to the first empty one, where every read and every write succeeds.
abbrev pub received : List Read → Option (List ℕ)
received [] = some []
received (interrupted ∷ reads) = none
received (piece [] failed ∷ reads) = some []
received (piece (b ∷ bytes) (some n) ∷ reads) = none
received (piece (b ∷ bytes) none ∷ reads) = joined (b ∷ bytes) (received reads)

length-take : (n : ℕ) (bytes : List ℕ) → length (take n bytes) ≤ length bytes
length-take zero bytes = omega arith
length-take (suc n) [] = omega arith
length-take (suc n) (b ∷ bytes) = omega (arith, length-take n bytes)

-- A download that keeps within a limit: the file, and each total that it reports.
abbrev pub IsWithin : {A : Type 0} → ℕ → Download A → Type 0
IsWithin limit d = (length d.written ≤ limit) × All (λ n. n ≤ limit) d.reported

All-append :
    (limit : ℕ) (xs : List ℕ) (n : ℕ)
    → All (λ n. n ≤ limit) xs
    → n ≤ limit
    → All (λ n. n ≤ limit) (xs ++ n ∷ [])
All-append limit [] n h k = (k, tt)
All-append limit (x ∷ xs) n h k = (h.0, All-append limit xs n h.1 k)

take_in-IsWithin :
    (limit : ℕ) (written reported bytes : List ℕ) (failed : Option ℕ) (total : ℕ)
    (rest : Download ℕ)
    → length written ≤ limit
    → All (λ n. n ≤ limit) reported
    → (ltb limit total ≡ false → (length written + length bytes ≤ limit) × IsWithin limit rest)
    → IsWithin limit (take_in limit written reported bytes failed total rest)
take_in-IsWithin limit written reported bytes (some n) total rest h k next =
    elim (Bool-cases (ltb limit total)) [
      | inl over ↦ rw over (h, k)
      | inr fits ↦
          let room = (next fits).0 in
          rw fits (omega (arith, length-append written (take n bytes), length-take n bytes), k)
    ]
take_in-IsWithin limit written reported bytes none total rest h k next =
    elim (Bool-cases (ltb limit total)) [
      | inl over ↦ rw over (h, k)
      | inr fits ↦ rw fits ((next fits).1)
    ]

pub receive-IsWithin :
    (limit total : ℕ) (written reported : List ℕ) (reads : List Read)
    → limit < u64_max
    → total ≡ length written
    → total ≤ limit
    → All (λ n. n ≤ limit) reported
    → IsWithin limit (receive limit total written reported reads)
receive-IsWithin limit total written reported [] small e h k = (omega arith, k)
receive-IsWithin limit total written reported (interrupted ∷ reads) small e h k = (omega arith, k)
receive-IsWithin limit total written reported (piece [] failed ∷ reads) small e h k =
    (omega arith, k)
receive-IsWithin limit total written reported (piece (b ∷ bytes) failed ∷ reads) small e h k =
    take_in-IsWithin limit written reported (b ∷ bytes) failed (added total (b ∷ bytes))
      (receive limit (added total (b ∷ bytes)) (written ++ b ∷ bytes)
        (reported ++ added total (b ∷ bytes) ∷ []) reads)
      (omega arith) k
      (λ fits.
        let room : added total (b ∷ bytes) ≤ limit = ground arith in
        let sum : added total (b ∷ bytes) ≡ length (written ++ b ∷ bytes) =
          omega (arith, length-append written (b ∷ bytes)) in
        (
          omega (arith, length-append written (b ∷ bytes)),
          receive-IsWithin limit (added total (b ∷ bytes)) (written ++ b ∷ bytes)
              (reported ++ added total (b ∷ bytes) ∷ []) reads small sum room
              (All-append limit reported (added total (b ∷ bytes)) k room),
        ))

append_nil : (xs : List ℕ) → xs ++ [] ≡ xs
append_nil [] = refl
append_nil (x ∷ xs) = ap (λ (l : List ℕ). x ∷ l) (append_nil xs)

append_assoc : (xs ys zs : List ℕ) → (xs ++ ys) ++ zs ≡ xs ++ (ys ++ zs)
append_assoc [] ys zs = refl
append_assoc (x ∷ xs) ys zs = ap (λ (l : List ℕ). x ∷ l) (append_assoc xs ys zs)

-- What a download that has read everything has written and counted.
abbrev pub Holds : List ℕ → ℕ → Download ℕ → List ℕ → Type 0
Holds written total d content =
    (d.outcome ≡ ok (total + length content)) × (d.written ≡ written ++ content)

Holds-nil :
    (written reported : List ℕ) (total : ℕ)
    → Holds written total (stopped written reported (ok total)) []
Holds-nil written reported total =
    let same_total : total ≡ total + 0 = omega arith in (ap ok same_total, sym (append_nil written))

Holds-joined :
    (written bytes content : List ℕ) (total sum : ℕ) (d : Download ℕ)
    → sum ≡ total + length bytes
    → Holds (written ++ bytes) sum d content
    → Holds written total d (bytes ++ content)
Holds-joined written bytes content total sum d e (o, w) =
    let same_total : sum + length content ≡ total + length (bytes ++ content) =
      omega (arith, length-append bytes content) in
    (o ∙ ap ok same_total, w ∙ append_assoc written bytes content)

joined-succeeds :
    (bytes content : List ℕ) (o : Option (List ℕ))
    → joined bytes o ≡ some content
    → (rest : List ℕ) × (o ≡ some rest) × (bytes ++ rest ≡ content)
joined-succeeds bytes content none h = cc
joined-succeeds bytes content (some rest) h = (rest, refl, ground arith)

pub receive_complete :
    (limit total : ℕ) (written reported : List ℕ) (reads : List Read) (content : List ℕ)
    → limit < u64_max
    → received reads ≡ some content
    → total + length content ≤ limit
    → Holds written total (receive limit total written reported reads) content
receive_complete limit total written reported [] content small e h =
    subst (λ (c : List ℕ). Holds written total (stopped written reported (ok total)) c)
      (let same_content : [] ≡ content = cc in same_content) (Holds-nil written reported total)
receive_complete limit total written reported (interrupted ∷ reads) content small e h = cc
receive_complete limit total written reported (piece [] failed ∷ reads) content small e h =
    subst (λ (c : List ℕ). Holds written total (stopped written reported (ok total)) c)
      (let same_content : [] ≡ content = cc in same_content) (Holds-nil written reported total)
receive_complete limit total written reported (piece (b ∷ bytes) (some n) ∷ reads) content small e
      h =
    cc
receive_complete limit total written reported (piece (b ∷ bytes) none ∷ reads) content small e h =
    let (rest, f, g) = joined-succeeds (b ∷ bytes) content (received reads) e in
    let parts : length content ≡ length (b ∷ bytes) + length rest =
      sym (ap length g) ∙ length-append (b ∷ bytes) rest in
    let sum : added total (b ∷ bytes) ≡ total + length (b ∷ bytes) = omega arith in
    let fits : ltb limit (added total (b ∷ bytes)) ≡ false = ground arith in
    subst
      (λ (c : List ℕ).
        Holds written total (receive limit total written reported (piece (b ∷ bytes) none ∷ reads))
          c)
      g
      (rw fits (
        Holds-joined written (b ∷ bytes) rest total (added total (b ∷ bytes))
          (receive limit (added total (b ∷ bytes)) (written ++ b ∷ bytes)
            (reported ++ added total (b ∷ bytes) ∷ []) reads)
          sum
          (receive_complete limit (added total (b ∷ bytes)) (written ++ b ∷ bytes)
            (reported ++ added total (b ∷ bytes) ∷ []) reads rest small f (omega arith))))

pub receive_sound :
    (limit total : ℕ) (written reported : List ℕ) (reads : List Read) (n : ℕ)
    → limit < u64_max
    → (receive limit total written reported reads).outcome ≡ ok n
    → (content : List ℕ) × (received reads ≡ some content)
      × Holds written total (receive limit total written reported reads) content
receive_sound limit total written reported [] n small h =
    ([], refl, Holds-nil written reported total)
receive_sound limit total written reported (interrupted ∷ reads) n small h = cc
receive_sound limit total written reported (piece [] failed ∷ reads) n small h =
    ([], refl, Holds-nil written reported total)
receive_sound limit total written reported (piece (b ∷ bytes) (some k) ∷ reads) n small h =
    ground arith
receive_sound limit total written reported (piece (b ∷ bytes) none ∷ reads) n small h =
    elim (Bool-cases (ltb limit (added total (b ∷ bytes)))) [
      | inl over ↦ ground arith
      | inr fits ↦
          let next =
            receive limit (added total (b ∷ bytes)) (written ++ b ∷ bytes)
              (reported ++ added total (b ∷ bytes) ∷ []) reads in
          let done : next.outcome ≡ ok n = ground arith in
          let (rest, f, holds) =
            receive_sound limit (added total (b ∷ bytes)) (written ++ b ∷ bytes)
              (reported ++ added total (b ∷ bytes) ∷ []) reads n small done in
          let sum : added total (b ∷ bytes) ≡ total + length (b ∷ bytes) = ground arith in
          (
            (b ∷ bytes) ++ rest,
            rw f refl,
            rw fits (
                Holds-joined written (b ∷ bytes) rest total (added total (b ∷ bytes)) next sum
                  holds),
          )
    ]
