-- ===== src/Lifecycle/Retirements.antt =====
-- projection/lifecycle/handle.go `Retire`: the events of a retirement against the checks of the fold.
use estoria.Prelude.{
  ◌≡◌, refl, sym, inl, inr, true, false, ◌&&◌, ◌||◌, Option, none, some, List, [], ◌∷◌, arith, ◌==◌,
  Option-cases, Result-cases, length, is_empty, lt64, Text, text_eq, text_eq_iff, ok,
}
use estoria.EventStore.{Time}
use estoria.Projection.{id_eq_iff, validate_id-eq_none}
use estoria.Lifecycle.Retirement.{
  Cutover, RetirementOverride, WitnessReceipt, is_override, cutover_eq, invalid_receipts,
  receipts_mismatch, slices_equal_iff,
}
use estoria.Lifecycle.State.{
  State, validate_previous, validate_live_by_phase, phase_promoted, phase_retiring,
  is_after_promotion,
}
use estoria.Lifecycle.Events.{
  DomainEvent, retire_started, previous_retired, retire_fault, retire_witness_fault, retired_fault,
}
use estoria.Lifecycle.Poison.{fault}
use estoria.Lifecycle.Sound.{InFlight}
use estoria.Lifecycle.Cutovers.{zero_version}
use estoria.Lifecycle.Commands.Retire.{
  Witness, missing_witnesses, resolve_witnesses, attest_one, attest, vouch, RetireOption,
  nil_retire_option, with_retirement_override, RetireConfig, apply_retire_options, RetireStep,
  complete, reserve, required_witnesses,
}

-- The receipts are those of the required witnesses, in their order, each for the cutover.
Attested : List WitnessReceipt → List Text → Cutover → Type 0
Attested receipts ids c = (length receipts ≡ length ids) × (receipts_mismatch receipts ids c ≡ none)

attest_one-ok :
    (w : Option Witness) (id name : Text) (c : Cutover) (r : WitnessReceipt)
    → attest_one w id name c ≡ ok r
    → (r.witness ≡ id) × (cutover_eq r.cutover c ≡ true)
attest_one-ok none id name c r h = absurd (ground arith)
attest_one-ok (some w) id name c r h = elim (Option-cases (w name)) [
  | inl failed ↦ absurd (ground (arith, failed, h))
  | inr (applied, seen) ↦ ground (arith, seen, h)
]

attest-Attested :
    (registered : Text → Option Witness) (ids : List Text) (name : Text) (c : Cutover)
    (receipts : List WitnessReceipt)
    → attest registered ids name c ≡ ok receipts
    → Attested receipts ids c
unfolding Attested attest receipts_mismatch
attest-Attested registered [] name c receipts h = ground (arith, h)
attest-Attested registered (id ∷ ids) name c receipts h =
    elim (Result-cases (attest_one (registered id) id name c)) [
      | inr (e, failed) ↦ absurd (ground (arith, failed, h))
      | inl (r, done) ↦ elim (Result-cases (attest registered ids name c)) [
        | inr (e, failed) ↦ absurd (ground (arith, done, failed, h))
        | inl (rest, all) ↦
            let one = attest_one-ok (registered id) id name c r done in
            let more = attest-Attested registered ids name c rest all in
            let own : text_eq r.witness id ≡ true = (text_eq_iff r.witness id).1 one.0 in
            let shape : r ∷ rest ≡ receipts = ground (arith, done, all, h) in
            rw (sym shape) (ground (arith, more.0), ground (arith, own, one.1, more.1))
      ]
    ]

live_cutover : State → Cutover
live_cutover s = record { live = s.live; revision = s.cutover_revision }

vouch-Attested :
    (registered : Text → Option Witness) (required : List Text) (s : State)
    (receipts : List WitnessReceipt)
    → vouch registered required s ≡ ok receipts
    → invalid_receipts receipts required (live_cutover s) ≡ none
unfolding vouch Attested invalid_receipts live_cutover
vouch-Attested registered required s receipts h =
    elim (Option-cases (resolve_witnesses registered required)) [
      | inr (e, failed) ↦ absurd (ground (arith, failed, h))
      | inl found ↦
          let a =
            attest-Attested registered required s.name (live_cutover s) receipts
              (ground (arith, found, h)) in
          ground (arith, a.0, a.1)
    ]

-- An override is none at all, or has both its words.
unfoldable pub IsAudited : RetirementOverride → Type 0
IsAudited o = (is_override o && (is_empty o.actor || is_empty o.reason)) ≡ false

pub options-IsAudited :
    (opts : List RetireOption) (c d : RetireConfig)
    → IsAudited c.override
    → apply_retire_options opts c ≡ ok d
    → IsAudited d.override
unfolding IsAudited apply_retire_options
options-IsAudited [] c d whole h = ground (arith, whole, h)
options-IsAudited (nil_retire_option ∷ opts) c d whole h = absurd (ground arith)
options-IsAudited (with_retirement_override actor reason ∷ opts) c d whole h =
    options-IsAudited opts _ d (ground (arith, whole)) h

-- The events of a step of a retirement.
unfoldable pub events_of : RetireStep → List DomainEvent
events_of (complete events) = events
events_of (reserve events) = events

vouch-none :
    (registered : Text → Option Witness) (s : State) (receipts : List WitnessReceipt)
    → vouch registered [] s ≡ ok receipts
    → is_empty receipts ≡ true
unfolding vouch resolve_witnesses missing_witnesses attest
vouch-none registered s receipts h = ground (arith, h)

pub reserve-fault :
    (registered : Text → Option Witness) (now : Time) (o : RetirementOverride) (s : State)
    (required : List Text) (receipts : List WitnessReceipt)
    → IsAudited o
    → (s.attempt.phase == phase_promoted) ≡ true
    → (s.attempt.previous.version == 0) ≡ false
    → required_witnesses o s ≡ ok required
    → vouch registered required s ≡ ok receipts
    → fault
        (retire_started (record {
          retiring = s.attempt.previous;
          policy_generation = s.retirement_policy.generation;
          witnesses = required;
          receipts = receipts;
          override = o;
          at = now;
        }))
        s
      ≡ none
unfolding IsAudited fault retire_fault retire_witness_fault required_witnesses live_cutover
reserve-fault registered now o s required receipts audited there old asked vouched = ground (
  arith,
  audited,
  there,
  old,
  asked,
  zero_version s.attempt.previous,
  (id_eq_iff s.attempt.previous s.attempt.previous).1 refl,
  vouch-Attested registered required s receipts vouched,
  slices_equal_iff required s.retirement_policy.witnesses,
  vouch-none registered s receipts,
  vouched,
)

pub complete-fault :
    (registered : Text → Option Witness) (s : State) (receipts : List WitnessReceipt)
    → (s.attempt.phase == phase_retiring) ≡ true
    → InFlight s
    → vouch registered s.attempt.retiring_witnesses s ≡ ok receipts
    → fault (previous_retired (record { retired = s.attempt.previous; receipts = receipts })) s
      ≡ none
unfolding fault retired_fault live_cutover validate_live_by_phase
complete-fault registered s receipts retiring f vouched = ground (
  arith,
  retiring,
  f.live_by_phase,
  (id_eq_iff s.attempt.previous s.attempt.previous).1 refl,
  vouch-Attested registered s.attempt.retiring_witnesses s receipts vouched,
)

pub first-fault :
    (s : State)
    → is_after_promotion s.attempt.phase ≡ true
    → (s.attempt.previous.version == 0) ≡ true
    → InFlight s
    → fault (previous_retired (record { retired = s.attempt.previous; receipts = [] })) s ≡ none
unfolding fault retired_fault validate_live_by_phase validate_previous lt64
first-fault s after first f = ground (
  arith,
  after,
  first,
  f.live_by_phase,
  f.good_previous,
  validate_id-eq_none s.attempt.previous,
  (id_eq_iff s.attempt.previous s.attempt.previous).1 refl,
)
