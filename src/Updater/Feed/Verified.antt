-- ===== src/Updater/Feed/Verified.antt =====
-- crates/pam-desktop-shell/src/updater.rs, `check_inner`: what an update that it finds is known to be.
use pam_desktop.Prelude.{
  ℕ, ◌≡◌, refl, sym, ap, arith, Bool, true, false, not, List, [], ◌∷◌, ◌++◌, Option, none, some,
  Text, same, nat_eq, list_eq, list_same_iff, Result, err, ok, ◌>>=◌, ◌>>◌, >>=-succeeds, fail_if,
  Bool-cases, Accepts, All, ◌⊎◌, inl, inr, ◌∙◌,
}
use pam_desktop.Protocol.Error.{Error}
use pam_desktop.Protocol.Updates.{
  UpdateConfig, UpdateArtifact, UpdateRelease, SignedUpdateRelease, validate_signed_release,
}
use pam_desktop.Protocol.Updates.Accepted.{IsSignedRelease, validate_signed_release_iff}
use pam_desktop.Protocol.Codes.Updates.{UpdatePlatform}
use pam_desktop.Protocol.Url.{Build}
use pam_desktop.Updater.Errors.{UpdateError}
use pam_desktop.Updater.Hex.{decode_hex, encode_hex}
use pam_desktop.Updater.Hex.Laws.{decode_hex_iff}
use pam_desktop.Updater.State.{Candidate}
use pam_desktop.Updater.Versions.{version_is_newer}
use pam_desktop.Updater.Feed.{
  Services, Machine, max_feed_bytes, ok_or, checked_contract, current_platform, find, is_for,
  verify_signed_feed, candidate_of, pick, newer, check_inner,
}

ok_or-succeeds :
    {A : Type 0} (o : Option A) (e : UpdateError) (a : A) → ok_or o e ≡ ok a → o ≡ some a
ok_or-succeeds none e a h = cc
ok_or-succeeds (some b) e a h = cc

contract-succeeds : (r : Result Error (Unit {0})) → checked_contract r ≡ ok tt → Accepts r
contract-succeeds (ok a) h = refl
contract-succeeds (err e) h = cc

module _ {Key Signature : Type 0} (services : Services Key Signature) (build : Build) where
  -- A well-formed release whose signature, under the public key, verifies its canonical form.
  pub record IsSigned (feed : SignedUpdateRelease) (public_key : Text) : Type 0 where
    pub release : IsSignedRelease build feed
    pub key_bytes : List ℕ
    pub signature_bytes : List ℕ
    pub key : Key
    pub signature : Signature
    pub payload : List ℕ
    pub encodes_key : public_key ≡ encode_hex key_bytes
    pub encodes_signature : feed.signature ≡ encode_hex signature_bytes
    pub is_key : services.key_from_bytes key_bytes ≡ some key
    pub is_signature : services.signature_from_slice signature_bytes ≡ some signature
    pub is_payload : services.to_vec feed.release ≡ some payload
    pub verifies : services.verify_strict key payload signature ≡ true

  abbrev verdict : Key → List ℕ → Signature → Result UpdateError (Unit {0})
  verdict key payload signature =
      fail_if (not (services.verify_strict key payload signature)) UpdateError.not_verified

  abbrev with_payload : SignedUpdateRelease → Key → Signature → Result UpdateError (Unit {0})
  with_payload feed key signature =
      ok_or (services.to_vec feed.release) UpdateError.not_canonical >>= λ payload.
      verdict key payload signature

  abbrev with_signature : SignedUpdateRelease → List ℕ → Key → Result UpdateError (Unit {0})
  with_signature feed bytes key =
      ok_or (services.signature_from_slice bytes) UpdateError.invalid_signature
      >>= with_payload feed key

  abbrev with_key : SignedUpdateRelease → List ℕ → List ℕ → Result UpdateError (Unit {0})
  with_key feed key_bytes signature_bytes =
      ok_or (services.key_from_bytes key_bytes) UpdateError.invalid_key
      >>= with_signature feed signature_bytes

  verify_signed_feed-IsSigned :
      (feed : SignedUpdateRelease) (public_key : Text)
      → verify_signed_feed services build feed public_key ≡ ok tt
      → IsSigned feed public_key
  unfolding verify_signed_feed
  verify_signed_feed-IsSigned feed public_key h =
      let rest = decode_hex 32 public_key >>= λ key_bytes.
      decode_hex 64 feed.signature >>= with_key feed key_bytes in
      let (_, valid, p) =
        >>=-succeeds (checked_contract (validate_signed_release build feed)) (λ _. rest) h in
      let (key_bytes, e, q) =
        >>=-succeeds (decode_hex 32 public_key)
          (λ key_bytes. decode_hex 64 feed.signature >>= with_key feed key_bytes) p in
      let (signature_bytes, f, r) =
        >>=-succeeds (decode_hex 64 feed.signature) (with_key feed key_bytes) q in
      let (key, g, u) =
        >>=-succeeds (ok_or (services.key_from_bytes key_bytes) UpdateError.invalid_key)
          (with_signature feed signature_bytes) r in
      let (signature, i, v) =
        >>=-succeeds
          (ok_or (services.signature_from_slice signature_bytes) UpdateError.invalid_signature)
          (with_payload feed key) u in
      let (payload, j, w) =
        >>=-succeeds (ok_or (services.to_vec feed.release) UpdateError.not_canonical)
          (λ payload. verdict key payload signature) v in
      record {
        release =
            (validate_signed_release_iff build feed).0
              (contract-succeeds (validate_signed_release build feed) valid);
        key_bytes = key_bytes;
        signature_bytes = signature_bytes;
        key = key;
        signature = signature;
        payload = payload;
        encodes_key = ((decode_hex_iff 32 public_key key_bytes).0 e).2;
        encodes_signature = ((decode_hex_iff 64 feed.signature signature_bytes).0 f).2;
        is_key = ok_or-succeeds (services.key_from_bytes key_bytes) UpdateError.invalid_key key g;
        is_signature =
            ok_or-succeeds (services.signature_from_slice signature_bytes)
              UpdateError.invalid_signature signature i;
        is_payload =
            ok_or-succeeds (services.to_vec feed.release) UpdateError.not_canonical payload j;
        verifies = ground arith;
      }

  -- The first artifact of a list that passes a test.
  abbrev pub IsFirst : {A : Type 0} → (A → Bool) → A → List A → Type 0
  IsFirst {A = A} p a xs =
      (before : List A) × (after : List A) × (xs ≡ before ++ a ∷ after)
      × All (λ x. p x ≡ false) before
      × (p a ≡ true)

  find-IsFirst :
      {A : Type 0} (p : A → Bool) (xs : List A) (a : A) → find p xs ≡ some a → IsFirst p a xs
  find-IsFirst p [] a h = cc
  find-IsFirst p (x ∷ xs) a h = elim (Bool-cases (p x)) [
    | inl good ↦
        let same_item : x ≡ a = ground arith in
        ([], xs, ap (λ y. y ∷ xs) same_item, tt, ap p (sym same_item) ∙ good)
    | inr bad ↦
        let later : find p xs ≡ some a = ground arith in
        let (before, after, e, none_before, good) = find-IsFirst p xs a later in
        (x ∷ before, after, ap (λ ys. x ∷ ys) e, (bad, none_before), good)
  ]

  -- The update of a release that is newer: its first artifact for this machine.
  abbrev pub IsUpdate : Machine → Text → UpdateRelease → Option Candidate → Type 0
  IsUpdate machine current release found =
      (platform : UpdatePlatform) × (a : UpdateArtifact) × (found
        ≡ some (candidate_of services build release a))
      × (version_is_newer release.version current ≡ true)
      × (current_platform machine ≡ some platform)
      × IsFirst (is_for platform machine.arch) a release.artifacts

  -- What is known of a check that ends well: it has read a signed feed for this application and channel,
  -- and finds nothing exactly when the release is not newer.
  pub record IsChecked (machine : Machine) (application_id current : Text) (config : UpdateConfig)
      (found : Option Candidate) : Type 0 where
    pub bytes : List ℕ
    pub feed : SignedUpdateRelease
    pub fetched : services.fetch_small config.endpoint max_feed_bytes ≡ ok bytes
    pub decoded : services.from_slice bytes ≡ some feed
    pub signed : IsSigned feed config.public_key
    pub application : feed.release.application_id ≡ application_id
    pub channel : feed.release.channel ≡ config.channel
    pub outcome :
        ((found ≡ none) × (version_is_newer feed.release.version current ≡ false))
        ⊎ IsUpdate machine current feed.release found

  newer-IsUpdate :
      (machine : Machine) (current : Text) (release : UpdateRelease) (found : Option Candidate)
      → newer services build machine current release ≡ ok found
      → ((found ≡ none) × (version_is_newer release.version current ≡ false))
        ⊎ IsUpdate machine current release found
  newer-IsUpdate machine current release found h =
      elim (Bool-cases (version_is_newer release.version current)) [
        | inl fresh ↦
            let picked : pick services build machine release ≡ ok found = ground arith in
            let choose = λ (platform : UpdatePlatform). (do
              artifact ←
                  ok_or (find (is_for platform machine.arch) release.artifacts)
                    UpdateError.no_artifact
              ok (some (candidate_of services build release artifact))) in
            let (platform, e, p) =
              >>=-succeeds (ok_or (current_platform machine) UpdateError.no_target) choose picked in
            let (a, f, q) =
              >>=-succeeds
                (ok_or (find (is_for platform machine.arch) release.artifacts)
                  UpdateError.no_artifact)
                (λ artifact. ok (some (candidate_of services build release artifact))) p in
            let is_found : found ≡ some (candidate_of services build release a) = cc in
            inr (
              platform,
              a,
              is_found,
              fresh,
              ok_or-succeeds (current_platform machine) UpdateError.no_target platform e,
              find-IsFirst (is_for platform machine.arch) release.artifacts a (
                  ok_or-succeeds (find (is_for platform machine.arch) release.artifacts)
                    UpdateError.no_artifact a f),
            )
        | inr stale ↦ inl (ground arith, stale)
      ]

  past_guard :
      {A : Type 0} (b : Bool) (e : UpdateError) (m : Result UpdateError A) (a : A)
      → (fail_if (not b) e >> m) ≡ ok a
      → (b ≡ true) × (m ≡ ok a)
  past_guard true e m a h = (refl, h)
  past_guard false e m a h = cc

  -- A check that ends well has fetched a feed that decodes, whose release is well-formed, is signed by the
  -- configured key and is for this application and the configured channel; it finds nothing only if the
  -- release is not newer than the current version, and otherwise the release's first portable archive for
  -- this platform and architecture.
  pub check_inner-IsChecked :
      (machine : Machine) (application_id current : Text) (config : UpdateConfig)
      (found : Option Candidate)
      → check_inner services build machine application_id current config ≡ ok found
      → IsChecked machine application_id current config found
  unfolding check_inner
  check_inner-IsChecked machine application_id current config found h =
      let channels = λ (feed : SignedUpdateRelease). (do
        fail_if (not (same feed.release.channel config.channel)) UpdateError.other_channel
        newer services build machine current feed.release) in
      let identities = λ (feed : SignedUpdateRelease). (do
        fail_if (not (same feed.release.application_id application_id))
            UpdateError.other_application
        channels feed) in
      let examine = λ (feed : SignedUpdateRelease). (do
        verify_signed_feed services build feed config.public_key
        identities feed) in
      let decode =
        λ (bytes : List ℕ). ok_or (services.from_slice bytes) UpdateError.not_json >>= examine in
      let (bytes, fetched, p) =
        >>=-succeeds (services.fetch_small config.endpoint max_feed_bytes) decode h in
      let (feed, decoded, q) =
        >>=-succeeds (ok_or (services.from_slice bytes) UpdateError.not_json) examine p in
      let (_, verified, r) =
        >>=-succeeds (verify_signed_feed services build feed config.public_key)
          (λ _. identities feed) q in
      let (own, u) =
        past_guard (same feed.release.application_id application_id) UpdateError.other_application
          (channels feed) found r in
      let (configured, v) =
        past_guard (same feed.release.channel config.channel) UpdateError.other_channel
          (newer services build machine current feed.release) found u in
      record {
        bytes = bytes;
        feed = feed;
        fetched = fetched;
        decoded = ok_or-succeeds (services.from_slice bytes) UpdateError.not_json feed decoded;
        signed = verify_signed_feed-IsSigned feed config.public_key verified;
        application = (list_same_iff feed.release.application_id application_id).0 own;
        channel = (list_same_iff feed.release.channel config.channel).0 configured;
        outcome = newer-IsUpdate machine current feed.release found v;
      }
