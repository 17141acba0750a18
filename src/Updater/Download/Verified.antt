-- ===== src/Updater/Download/Verified.antt =====
-- crates/pam-desktop-shell/src/updater.rs, `download_inner`: exactly the signed archive is accepted.
use pam_desktop.Prelude.{
  ℕ, ◌+◌, ◌<◌, ◌≡◌, ◌↔◌, refl, sym, ap, ◌∙◌, arith, true, false, List, [], Option, none, some, Text,
  nat_eq, list_eq, list_same_iff, length, Result, err, ok, ◌>>=◌, >>=-succeeds,
}
use pam_desktop.Protocol.Updates.{UpdateArtifact}
use pam_desktop.Updater.Errors.{UpdateError}
use pam_desktop.Updater.State.{Candidate}
use pam_desktop.Updater.Download.{
  Transfer, u64_max, receive, announced_size, differs, concluded, after_reading, opened, read_into,
  download_inner,
}
use pam_desktop.Updater.Download.Laws.{
  received, IsWithin, receive_complete, receive_sound, receive-IsWithin,
}

-- The size that the server announces, where it announces one in a form that is read.
abbrev Announces : ℕ → Option ℕ → Type 0
Announces bytes none = Unit
Announces bytes (some n) = n ≡ bytes

-- The stage and the file are there, the server has answered, and the size it announces is the signed one.
abbrev pub IsOpened : Transfer → UpdateArtifact → Text → Type 0
IsOpened t a archive =
    (t.archive ≡ ok archive)
    × (t.answered ≡ true)
    × Announces a.bytes (announced_size t.content_length)
    × (t.created ≡ true)

differs_iff : (bytes : ℕ) (o : Option ℕ) → (differs bytes o ≡ false) ↔ Announces bytes o
differs_iff bytes none = (λ h. tt, λ h. refl)
differs_iff bytes (some n) = ground arith

opened_iff :
    (t : Transfer) (a : UpdateArtifact) (archive : Text)
    → (opened t a ≡ ok archive) ↔ IsOpened t a archive
opened_iff t a archive = ground (arith, differs_iff a.bytes (announced_size t.content_length))

module _ (sha256_hex : List ℕ → Text) where
  -- Everything that was read is the file, of the signed size and digest.
  abbrev pub IsReceived : Transfer → UpdateArtifact → List ℕ → Type 0
  IsReceived t a written =
      (received t.reads ≡ some written)
      × (length written ≡ a.bytes)
      × (sha256_hex written ≡ a.sha256)
      × (t.flushed ≡ true)

  concluded_iff :
      (t : Transfer) (a : UpdateArtifact) (written : List ℕ) (archive archive' : Text) (total : ℕ)
      → (concluded sha256_hex t a written archive total ≡ ok archive') ↔ (
          (t.flushed ≡ true)
          × (total ≡ a.bytes)
          × (sha256_hex written ≡ a.sha256)
          × (archive ≡ archive'))
  concluded_iff t a written archive archive' total =
      ground (arith, list_same_iff (sha256_hex written) a.sha256)

  after_reading_iff :
      (t : Transfer) (a : UpdateArtifact) (archive archive' : Text)
      → a.bytes < u64_max
      → ((after_reading sha256_hex t a archive (receive a.bytes 0 [] [] t.reads)).outcome
          ≡ ok archive')
        ↔ ((archive ≡ archive') × IsReceived t a (receive a.bytes 0 [] [] t.reads).written)
  after_reading_iff t a archive archive' small = (to, from)
    where
      to :
          (after_reading sha256_hex t a archive (receive a.bytes 0 [] [] t.reads)).outcome
            ≡ ok archive'
          → (archive ≡ archive') × IsReceived t a (receive a.bytes 0 [] [] t.reads).written
      to h =
          let d = receive a.bytes 0 [] [] t.reads in
          let (total, e, f) =
            >>=-succeeds d.outcome (concluded sha256_hex t a d.written archive) h in
          let (flushed, size, digest, same_archive) =
            (concluded_iff t a d.written archive archive' total).0 f in
          let (content, got, holds) = receive_sound a.bytes 0 [] [] t.reads total small e in
          let counted : ok total ≡ ok (0 + length content) = sym e ∙ holds.0 in
          let same_total : total ≡ 0 + length content = cc in
          let same_length : length d.written ≡ length content = ap length holds.1 in
          (same_archive, (got ∙ ap some (sym holds.1), omega arith, digest, flushed))

      from :
          (archive ≡ archive') × IsReceived t a (receive a.bytes 0 [] [] t.reads).written
          → (after_reading sha256_hex t a archive (receive a.bytes 0 [] [] t.reads)).outcome
            ≡ ok archive'
      from (same_archive, (got, size, digest, flushed)) =
          let d = receive a.bytes 0 [] [] t.reads in
          let holds = receive_complete a.bytes 0 [] [] t.reads d.written small got (omega arith) in
          let accepted =
            (concluded_iff t a d.written archive archive' (0 + length d.written)).1
              (flushed, omega arith, digest, same_archive) in
          ap (λ (o : Result UpdateError ℕ). o >>= concluded sha256_hex t a d.written archive)
            holds.0
          ∙ accepted

  -- For a signed size below the largest 64-bit number, a download ends well with an archive exactly
  -- when this is the staged path, the stage, the answer and the file were there and any size announced is
  -- the signed one, and every read and write succeeded, the file holds all that was read, and this has the
  -- signed size and digest.
  pub download_inner_iff :
      (t : Transfer) (candidate : Candidate) (archive : Text)
      → candidate.artifact.bytes < u64_max
      → ((download_inner sha256_hex t candidate).outcome ≡ ok archive) ↔ (
          IsOpened t candidate.artifact archive
          × IsReceived t candidate.artifact (download_inner sha256_hex t candidate).written)
  unfolding download_inner
  download_inner_iff t candidate archive small = go (opened t candidate.artifact) refl
    where
      go :
          (r : Result UpdateError Text)
          → opened t candidate.artifact ≡ r
          → ((read_into sha256_hex t candidate.artifact r).outcome ≡ ok archive) ↔ (
              IsOpened t candidate.artifact archive
              × IsReceived t candidate.artifact
                  (read_into sha256_hex t candidate.artifact r).written)
      go (err e) h = (λ p. cc, λ p. let o = (opened_iff t candidate.artifact archive).1 p.0 in cc)
      go (ok staged) h = (
        λ p.
            let (e, got) = (after_reading_iff t candidate.artifact staged archive small).0 p in
            ((opened_iff t candidate.artifact archive).0 (h ∙ ap ok e), got),
        λ p.
            let same_archive : ok staged ≡ ok archive =
              sym h ∙ (opened_iff t candidate.artifact archive).1 p.0 in
            (after_reading_iff t candidate.artifact staged archive small).1 (cc, p.1),
      )

  -- However a download ends, for a signed size below the largest 64-bit number, the file is never
  -- longer than the signed size, and no total that is reported is above it.
  pub download_inner-IsWithin :
      (t : Transfer) (candidate : Candidate)
      → candidate.artifact.bytes < u64_max
      → IsWithin candidate.artifact.bytes (download_inner sha256_hex t candidate)
  unfolding download_inner
  download_inner-IsWithin t candidate small = go (opened t candidate.artifact)
    where
      go :
          (r : Result UpdateError Text)
          → IsWithin candidate.artifact.bytes (read_into sha256_hex t candidate.artifact r)
      go (err e) = (omega arith, tt)
      go (ok staged) =
          receive-IsWithin candidate.artifact.bytes 0 [] [] t.reads small refl (omega arith) tt
