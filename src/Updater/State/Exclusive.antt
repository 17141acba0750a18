-- ===== src/Updater/State/Exclusive.antt =====
-- crates/pam-desktop-shell/src/updater.rs, `begin`: one operation at a time.
use pam_desktop.Prelude.{
  ◌≡◌, refl, sym, ap, subst, arith, false, List, [], ◌∷◌, ◌++◌, Option, some, none, Text, ok, map,
  Bool-cases, ◌⊎◌, inl, inr, ◌∙◌,
}
use pam_desktop.Protocol.Codes.Updates.{UpdateState}
use pam_desktop.Protocol.Updates.{UpdateConfig}
use pam_desktop.Protocol.Manifest.{ApplicationManifest}
use pam_desktop.Updater.State.{
  Candidate, InternalState, prepare, is_running, configured_state, begin, fail, checked, progressed,
  downloaded,
}
use pam_desktop.Updater.State.Turns.{Task, Turn, Reached}

-- Which operation a task is in: `checking`, `downloading` or `applying`, or none of them.
abbrev pub operation_of : Task → Option UpdateState
operation_of Task.resting = none
operation_of (Task.chosen c) = none
operation_of (Task.picked archive c) = none
operation_of Task.checking = some UpdateState.checking
operation_of (Task.downloading c) = some UpdateState.downloading
operation_of (Task.applying archive c) = some UpdateState.applying
operation_of Task.relaunching = some UpdateState.applying

abbrev pub prepended : Option UpdateState → List UpdateState → List UpdateState
prepended none states = states
prepended (some state) states = state ∷ states

abbrev pub operations : List Task → List UpdateState
operations [] = []
operations (t ∷ tasks) = prepended (operation_of t) (operations tasks)

-- The operation that the snapshot shows.
abbrev pub shown : UpdateState → List UpdateState
shown UpdateState.checking = UpdateState.checking ∷ []
shown UpdateState.downloading = UpdateState.downloading ∷ []
shown UpdateState.applying = UpdateState.applying ∷ []
shown UpdateState.disabled = []
shown UpdateState.idle = []
shown UpdateState.available = []
shown UpdateState.ready = []
shown UpdateState.up_to_date = []
shown UpdateState.failed = []

abbrev Fits : List Task → InternalState → Type 0
Fits tasks s = operations tasks ≡ shown s.snapshot.state

not_running-shown : (x : UpdateState) → is_running x ≡ false → shown x ≡ []
not_running-shown UpdateState.checking h = cc
not_running-shown UpdateState.downloading h = cc
not_running-shown UpdateState.applying h = cc
not_running-shown UpdateState.disabled h = refl
not_running-shown UpdateState.idle h = refl
not_running-shown UpdateState.available h = refl
not_running-shown UpdateState.ready h = refl
not_running-shown UpdateState.up_to_date h = refl
not_running-shown UpdateState.failed h = refl

shown-single :
    (x k : UpdateState) (before after : List UpdateState)
    → (before ++ k ∷ after) ≡ shown x
    → (before ++ after) ≡ []
shown-single x k [] [] h = refl
shown-single x k [] (l ∷ after) h = ground arith
shown-single x k (b ∷ []) after h = ground arith
shown-single x k (b ∷ c ∷ before) after h = ground arith

begin_lem :
    (k : UpdateState) (s s' : InternalState)
    → begin k s ≡ ok s'
    → (shown s.snapshot.state ≡ []) × (s'.snapshot.state ≡ k)
unfolding begin
begin_lem k s s' h = elim (Bool-cases (is_running s.snapshot.state)) [
  | inl busy ↦ ground arith
  | inr free ↦ (not_running-shown s.snapshot.state free, ground arith)
]

-- What a turn does to the operation of its task and to the operation that the snapshot shows.
abbrev Steady : Option UpdateState → Option UpdateState → UpdateState → UpdateState → Type 0
Steady o o' x x' = (o ≡ o') × (shown x ≡ shown x')

abbrev Begins : Option UpdateState → Option UpdateState → UpdateState → UpdateState → Type 0
Begins o o' x x' =
    (k : UpdateState) × (o ≡ none) × (o' ≡ some k) × (shown x ≡ []) × (shown x' ≡ k ∷ [])

abbrev Ends : Option UpdateState → Option UpdateState → UpdateState → UpdateState → Type 0
Ends o o' x x' = (k : UpdateState) × (o ≡ some k) × (o' ≡ none) × (shown x' ≡ [])

abbrev Moves : Task → InternalState → Task → InternalState → Type 0
Moves t s t' s' =
    Steady (operation_of t) (operation_of t') s.snapshot.state s'.snapshot.state
    ⊎ Begins (operation_of t) (operation_of t') s.snapshot.state s'.snapshot.state
    ⊎ Ends (operation_of t) (operation_of t') s.snapshot.state s'.snapshot.state

begins :
    (k : UpdateState) (s s' : InternalState)
    → shown k ≡ k ∷ []
    → begin k s ≡ ok s'
    → Begins none (some k) s.snapshot.state s'.snapshot.state
begins k s s' single h =
    let (clear, now) = begin_lem k s s' h in (k, refl, refl, clear, rw now single)

checked-shown :
    (found : Option Candidate) (s : InternalState) → shown (checked found s).snapshot.state ≡ []
unfolding checked
checked-shown none s = refl
checked-shown (some c) s = refl

module _ (config : Option UpdateConfig) (bundle_root : Option Text) where
  Turn-Moves :
      (t : Task) (s : InternalState) (t' : Task) (s' : InternalState)
      → Turn config bundle_root t s t' s'
      → Moves t s t' s'
  unfolding fail progressed downloaded
  Turn-Moves _ _ _ _ (Turn.check c s s' e h) = inr (inl (begins UpdateState.checking s s' refl h))
  Turn-Moves _ _ _ _ (Turn.check_refused c e s f h) = inl (refl, refl)
  Turn-Moves _ _ _ _ (Turn.check_done found s) =
      inr (inr (UpdateState.checking, refl, refl, checked-shown found s))
  Turn-Moves _ _ _ _ (Turn.check_failed e s) = inr (inr (UpdateState.checking, refl, refl, refl))
  Turn-Moves _ _ _ _ (Turn.choose c s h) = inl (refl, refl)
  Turn-Moves _ _ _ _ (Turn.download c s s' h) =
      inr (inl (begins UpdateState.downloading s s' refl h))
  Turn-Moves _ _ _ _ (Turn.download_refused c e s h) = inl (refl, refl)
  Turn-Moves _ _ _ _ (Turn.report c total s) = inl (refl, refl)
  Turn-Moves _ _ _ _ (Turn.download_done c archive s) =
      inr (inr (UpdateState.downloading, refl, refl, refl))
  Turn-Moves _ _ _ _ (Turn.download_failed c e s) =
      inr (inr (UpdateState.downloading, refl, refl, refl))
  Turn-Moves _ _ _ _ (Turn.pick archive c s h) = inl (refl, refl)
  Turn-Moves _ _ _ _ (Turn.install root archive c s s' e h) =
      inr (inl (begins UpdateState.applying s s' refl h))
  Turn-Moves _ _ _ _ (Turn.install_refused archive c s) = inl (refl, refl)
  Turn-Moves _ _ _ _ (Turn.launched archive c s) = inl (refl, refl)
  Turn-Moves _ _ _ _ (Turn.launch_failed archive c e s) =
      inr (inr (UpdateState.applying, refl, refl, refl))

  prepended-append :
      (o : Option UpdateState) (ys zs : List UpdateState)
      → prepended o (ys ++ zs) ≡ prepended o ys ++ zs
  prepended-append none ys zs = refl
  prepended-append (some k) ys zs = refl

  operations-append :
      (before after : List Task) (t : Task)
      → operations (before ++ t ∷ after)
        ≡ operations before ++ prepended (operation_of t) (operations after)
  operations-append [] after t = refl
  operations-append (b ∷ before) after t =
      ap (prepended (operation_of b)) (operations-append before after t)
      ∙ prepended-append (operation_of b) (operations before)
          (prepended (operation_of t) (operations after))

  append_nil : (xs ys : List UpdateState) → (xs ++ ys) ≡ [] → (xs ≡ []) × (ys ≡ [])
  append_nil [] ys h = (refl, h)
  append_nil (x ∷ xs) ys h = cc

  moved :
      (o o' : Option UpdateState) (x x' : UpdateState) (before after : List UpdateState)
      → Steady o o' x x' ⊎ Begins o o' x x' ⊎ Ends o o' x x'
      → (before ++ prepended o after) ≡ shown x
      → (before ++ prepended o' after) ≡ shown x'
  moved o o' x x' before after (inl (e, f)) h = rw (← e) (h ∙ f)
  moved o o' x x' before after (inr (inl (k, e, f, clear, now))) h =
      let idle : (before ++ prepended none after) ≡ [] =
        subst (λ (o : Option UpdateState). (before ++ prepended o after) ≡ []) e (h ∙ clear) in
      let (p, q) = append_nil before after idle in rw f (rw p (rw q (sym now)))
  moved o o' x x' before after (inr (inr (k, e, f, clear))) h =
      let busy : (before ++ prepended (some k) after) ≡ shown x =
        subst (λ (o : Option UpdateState). (before ++ prepended o after) ≡ shown x) e h in
      rw f (shown-single x k before after busy ∙ sym clear)

  resting : (tasks : List Task) → operations (map (λ t. Task.resting) tasks) ≡ []
  resting [] = refl
  resting (t ∷ tasks) = resting tasks

  prepare-shown : (manifest : ApplicationManifest) → shown (prepare manifest).snapshot.state ≡ []
  unfolding prepare
  prepare-shown manifest = go manifest.updates
    where
      go : (o : Option UpdateConfig) → shown (configured_state o) ≡ []
      go none = refl
      go (some c) = refl

  -- In whatever order tasks take their turns on an updater, the operations they are in are exactly the
  -- one that the snapshot shows: none, or a single one.
  pub Reached-shown :
      (manifest : ApplicationManifest) (tasks : List Task) (s : InternalState)
      → Reached config bundle_root (prepare manifest) tasks s
      → operations tasks ≡ shown s.snapshot.state
  Reached-shown manifest _ _ (Reached.started tasks e) =
      (ap operations e ∙ resting tasks) ∙ sym (prepare-shown manifest)
  Reached-shown manifest _ _ (Reached.turned before after t t' s s' r turn) =
      let held = Reached-shown manifest (before ++ t ∷ after) s r in
      operations-append before after t'
      ∙ moved (operation_of t) (operation_of t') s.snapshot.state s'.snapshot.state
          (operations before) (operations after) (Turn-Moves t s t' s' turn)
          (sym (operations-append before after t) ∙ held)
