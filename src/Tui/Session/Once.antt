-- ===== src/Tui/Session/Once.antt =====
-- Reporting the same event to a session of cli/tui/session.go again has no effect.
use atum.Base.{
  Bool, true, false, some, List, [], ◌∷◌, ◌++◌, Text, str_eq_refl, if◌then◌else◌, ◌≡◌, refl, sym,
  ap, subst, ◌∙◌, Bool-cases, inl, inr, lookup, lookup-put_self, arith,
}
use atum.Tui.Resources.{
  State, Event, pending, running, complete, failed, has, with_elem, without_elem,
}
use atum.Tui.Session.{
  Signature, Report, Session, is_state, same_signature, key_of, phase_name, signature_of,
  bounded_detail, without_prefix, touched, or_zero, queue, queue_if, show, accepted, report_bounded,
  report,
}

is_state_refl : (s : State) → is_state s s ≡ true
unfolding is_state
is_state_refl pending = refl
is_state_refl running = refl
is_state_refl complete = refl
is_state_refl failed = refl

same_signature_refl : (s : Signature) → same_signature s s ≡ true
unfolding same_signature
same_signature_refl s = ground (arith, is_state_refl s.state, str_eq_refl s.detail)

with_elem_twice : (x : Text) (s : List Text) → with_elem x (with_elem x s) ≡ with_elem x s
unfolding with_elem has
with_elem_twice x s = ground (arith, str_eq_refl x)

without_elem_twice :
    (x : Text) (s : List Text) → without_elem x (without_elem x s) ≡ without_elem x s
unfolding without_elem
without_elem_twice x [] = refl
without_elem_twice x (y ∷ s) = ground (arith, without_elem_twice x s)

without_prefix_twice :
    (p : Text) (s : List Text) → without_prefix p (without_prefix p s) ≡ without_prefix p s
unfolding without_prefix
without_prefix_twice p [] = refl
without_prefix_twice p (y ∷ s) = ground (arith, without_prefix_twice p s)

touched_twice : (e : Event) (active : List Text) → touched e (touched e active) ≡ touched e active
unfolding touched
touched_twice e active = ground (
  arith,
  without_prefix_twice (phase_name e.phase ++ b'/' ∷ []) active,
  with_elem_twice (key_of e) active,
  without_elem_twice (key_of e) active,
)

module _ (key : Text) (signature : Signature) (r : Report) (s : Session) where
  accepted_open : (accepted key signature r s).closed ≡ s.closed
  unfolding accepted show queue_if queue
  accepted_open = ground arith

  accepted_active : (accepted key signature r s).active_events ≡ s.active_events
  unfolding accepted show queue_if queue
  accepted_active = ground arith

  accepted_last : lookup key (accepted key signature r s).last_events ≡ some signature
  unfolding accepted show queue_if queue
  accepted_last = ground (arith, lookup-put_self key signature s.last_events)

if_of_true {ℓ} : {A : Type ℓ} (b : Bool) (x y : A) → b ≡ true → (if b then x else y) ≡ x
if_of_true true x y h = refl
if_of_true false x y h = cc

if_of_false {ℓ} : {A : Type ℓ} (b : Bool) (x y : A) → b ≡ false → (if b then x else y) ≡ y
if_of_false true x y h = cc
if_of_false false x y h = refl

-- What a report does once its signature is the last of its key.
report_again :
    (r : Report) (t : Session)
    → t.closed ≡ false
    → same_signature (or_zero (lookup (key_of r.event) t.last_events)) (signature_of r.event) ≡ true
    → t.active_events ≡ touched r.event t.active_events
    → report_bounded r t ≡ t
unfolding report_bounded
report_again r t open_t same active =
    if_of_false t.closed _ _ open_t
    ∙ if_of_true
        (same_signature (or_zero (lookup (key_of r.event) t.last_events)) (signature_of r.event)) _
        _ same
    ∙ ap (λ x. record t { active_events = x }) (sym active)

report_bounded_twice :
    (r : Report) (s : Session) → report_bounded r (report_bounded r s) ≡ report_bounded r s
unfolding report_bounded
report_bounded_twice r s = elim (Bool-cases s.closed) [
  | inl shut ↦ ap (report_bounded r) (if_of_true s.closed _ _ shut)
  | inr on ↦ elim (Bool-cases (same_signature (or_zero (lookup key s.last_events)) signature)) [
    | inl same ↦
        settled touching
          (if_of_false s.closed _ _ on
            ∙ if_of_true (same_signature (or_zero (lookup key s.last_events)) signature) _ _ same)
          (report_again r touching on same (sym (touched_twice r.event s.active_events)))
    | inr new ↦
        settled (accepted key signature r touching)
          (if_of_false s.closed _ _ on
            ∙ if_of_false (same_signature (or_zero (lookup key s.last_events)) signature) _ _ new)
          (report_again r (accepted key signature r touching)
            (accepted_open key signature r touching ∙ on)
            (ap (λ o. same_signature (or_zero o) signature) (accepted_last key signature r touching)
              ∙ same_signature_refl signature)
            (accepted_active key signature r touching
              ∙ sym (
                  ap (touched r.event) (accepted_active key signature r touching)
                  ∙ touched_twice r.event s.active_events)))
  ]
]
  where
    key : Text
    key = key_of r.event

    signature : Signature
    signature = signature_of r.event

    touching : Session
    touching = record s { active_events = touched r.event s.active_events }

    settled :
        (t : Session)
        → report_bounded r s ≡ t
        → report_bounded r t ≡ t
        → report_bounded r (report_bounded r s) ≡ report_bounded r s
    settled t e h = subst (λ x. report_bounded r x ≡ x) (sym e) h

-- An event that is reported twice in a row has the same effect as one that is reported once:
-- nothing is queued, logged or shown again, and the active events stay.
pub report-report :
    (valid : Text → Bool) (r : Report) (s : Session)
    → report valid r (report valid r s) ≡ report valid r s
unfolding report
report-report valid r s =
    report_bounded_twice
      (record r { event = record r.event { detail = bounded_detail valid r.event.detail } }) s
