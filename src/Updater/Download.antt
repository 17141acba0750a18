-- ===== src/Updater/Download.antt =====
-- crates/pam-desktop-shell/src/updater.rs, `download_inner`: the archive is read in pieces, written and
-- hashed. What the network and the file system do is given; the digest of everything written is a
-- parameter.
pub mod Laws
pub mod Verified
use pam_desktop.Prelude.{
  ℕ, zero, suc, ◌+◌, ◌-◌, ◌^◌, min, Bool, true, false, not, ◌||◌, ◌==◌, ltb, List, [], ◌∷◌, ◌++◌,
  Option, none, some, Text, same, nat_eq, list_eq, length, if◌then◌else◌, Result, err, ok, ◌>>=◌,
  ◌>>◌, fail_if,
}
use pam_desktop.Protocol.Updates.{UpdateArtifact}
use pam_desktop.Updater.Errors.{UpdateError}
use pam_desktop.Updater.State.{Candidate}
use pam_desktop.Updater.Versions.{parse_u64}

-- A read that fails, or one that gives bytes; where writing these fails, so many of them are in the file.
pub data Read : Type 0 where
  interrupted : Read
  piece : List ℕ → Option ℕ → Read

-- `update_stage` and `archive_name` give the path; `content_length` is the header, where it is text.
pub record Transfer : Type 0 where
  pub archive : Result UpdateError Text
  pub answered : Bool
  pub content_length : Option Text
  pub created : Bool
  pub reads : List Read
  pub flushed : Bool

-- The file, the totals reported on the way, and how the download has ended.
pub record Download (A : Type 0) : Type 0 where
  pub written : List ℕ
  pub reported : List ℕ
  pub outcome : Result UpdateError A

abbrev pub u64_max : ℕ
u64_max = 2 ^ 64 - 1

abbrev pub take : ℕ → List ℕ → List ℕ
take zero bytes = []
take (suc n) [] = []
take (suc n) (b ∷ bytes) = b ∷ take n bytes

abbrev pub stopped : {A : Type 0} → List ℕ → List ℕ → Result UpdateError A → Download A
stopped written reported outcome = record {
  written = written;
  reported = reported;
  outcome = outcome;
}

-- One piece: the total that it makes, and what follows unless it is too much or cannot be written.
abbrev pub take_in : ℕ → List ℕ → List ℕ → List ℕ → Option ℕ → ℕ → Download ℕ → Download ℕ
take_in limit written reported bytes (some n) total rest =
    if ltb limit total
    then stopped written reported (err UpdateError.larger_than_signed)
    else stopped (written ++ take n bytes) reported (err UpdateError.not_written)
take_in limit written reported bytes none total rest =
    if ltb limit total then stopped written reported (err UpdateError.larger_than_signed) else rest

-- `total.saturating_add(read as u64)`.
abbrev pub added : ℕ → List ℕ → ℕ
added total bytes = min (total + length bytes) u64_max

abbrev pub receive : ℕ → ℕ → List ℕ → List ℕ → List Read → Download ℕ
receive limit total written reported [] = stopped written reported (ok total)
receive limit total written reported (interrupted ∷ reads) =
    stopped written reported (err UpdateError.interrupted)
receive limit total written reported (piece [] failed ∷ reads) = stopped written reported (ok total)
receive limit total written reported (piece (b ∷ bytes) failed ∷ reads) =
    let sum = added total (b ∷ bytes) in
    take_in limit written reported (b ∷ bytes) failed sum
      (receive limit sum (written ++ (b ∷ bytes)) (reported ++ (sum ∷ [])) reads)

abbrev pub announced_size : Option Text → Option ℕ
announced_size none = none
announced_size (some header) = parse_u64 header

abbrev pub differs : ℕ → Option ℕ → Bool
differs bytes none = false
differs bytes (some n) = not (n == bytes)

-- What comes before the file: the stage, the answer, and the size that it announces.
abbrev pub opened : Transfer → UpdateArtifact → Result UpdateError Text
opened t a = do
  archive ← t.archive
  fail_if (not t.answered) UpdateError.not_fetched
  fail_if (differs a.bytes (announced_size t.content_length)) UpdateError.unexpected_size
  fail_if (not t.created) UpdateError.no_file
  ok archive

module _ (sha256_hex : List ℕ → Text) where
  abbrev pub concluded : Transfer → UpdateArtifact → List ℕ → Text → ℕ → Result UpdateError Text
  concluded t a written archive total = do
    fail_if (not t.flushed) UpdateError.not_flushed
    fail_if (not (total == a.bytes) || not (same (sha256_hex written) a.sha256))
        UpdateError.mismatch
    ok archive

  abbrev pub after_reading : Transfer → UpdateArtifact → Text → Download ℕ → Download Text
  after_reading t a archive d = record {
    written = d.written;
    reported = d.reported;
    outcome = d.outcome >>= concluded t a d.written archive;
  }

  abbrev pub read_into : Transfer → UpdateArtifact → Result UpdateError Text → Download Text
  read_into t a (err e) = stopped [] [] (err e)
  read_into t a (ok archive) = after_reading t a archive (receive a.bytes 0 [] [] t.reads)

  unfoldable pub download_inner : Transfer → Candidate → Download Text
  download_inner t candidate = read_into t candidate.artifact (opened t candidate.artifact)
