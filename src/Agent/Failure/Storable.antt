-- ===== src/Agent/Failure/Storable.antt =====
-- A failure can be stored whatever the message of its cause: the repository never refuses it.
use oppa.Common.{
  ℕ, ◌≤◌, ◌≡◌, refl, Bool, true, false, not, [], ◌∷◌, ◌++◌, ok, arith, map, ◌==◌, Bool-cases, inl,
  inr,
}
use oppa.Common.Text.{Text, text, is_control, is_whitespace, is_empty, trim_start, trim_end, trim}
use oppa.Storage.Schema.{validate_key, validate_error}
use oppa.Agent.Sanitize.{truncate_utf8, sanitize_message, space_for_control, max_message_bytes}
use oppa.Agent.Sanitize.Controls.{truncate-nonempty, sanitize_message-IsShown}
use oppa.Agent.Sanitize.Bounds.{truncate_utf8_bounds}
use oppa.Agent.Failure
use oppa.Agent.Failure.{JobFailure, stored_error, recovery_aware_failure}

-- The text starts with a character that is not white space.
abbrev pub starts_visibly : Text → Bool
starts_visibly [] = false
starts_visibly (c ∷ s) = not (is_whitespace c)

starts_visibly-trim : (s : Text) → is_empty (trim s) ≡ false → starts_visibly (trim s) ≡ true
unfolding trim is_empty trim_start trim_end
starts_visibly-trim [] h = cc
starts_visibly-trim (c ∷ s) h = ground (arith, starts_visibly-trim s)

trim-nonempty : (s : Text) → starts_visibly s ≡ true → is_empty (trim s) ≡ false
unfolding trim is_empty trim_start trim_end
trim-nonempty [] h = cc
trim-nonempty (c ∷ s) h = ground arith

visible_nonempty : (s : Text) → starts_visibly s ≡ true → is_empty s ≡ false
unfolding is_empty
visible_nonempty [] h = cc
visible_nonempty (c ∷ s) h = refl

starts_visibly-prefix :
    (first rest s : Text)
    → s ≡ first ++ rest
    → is_empty first ≡ false
    → starts_visibly s ≡ true
    → starts_visibly first ≡ true
unfolding is_empty
starts_visibly-prefix [] rest s e h k = cc
starts_visibly-prefix (c ∷ first) rest s e h k = rw e at k

starts_visibly-truncate :
    (s : Text) (n : ℕ) → 4 ≤ n → starts_visibly s ≡ true → starts_visibly (truncate_utf8 s n) ≡ true
starts_visibly-truncate s n room h =
    let (_, rest, e, _) = truncate_utf8_bounds s n in
    starts_visibly-prefix (truncate_utf8 s n) rest s e
      (truncate-nonempty s n room (visible_nonempty s h)) h

starts_visibly-sanitize_message : (value : Text) → starts_visibly (sanitize_message value) ≡ true
unfolding sanitize_message is_empty is_whitespace
starts_visibly-sanitize_message value =
    let trimmed = trim (map space_for_control value) in
    elim (Bool-cases (is_empty trimmed)) [
      | inl nothing ↦ rw nothing refl
      | inr something ↦ rw something (
          starts_visibly-truncate trimmed max_message_bytes (omega arith)
            (starts_visibly-trim (map space_for_control value) something))
    ]

-- The repository's check of a failure passes at any time.
abbrev pub IsStorable : JobFailure → Type 0
IsStorable failure = (occurred_at : ℕ) → validate_error (stored_error failure occurred_at) ≡ ok tt

pub new-IsStorable :
    (code message : Text) (retryable : Bool)
    → validate_key code 64 ≡ ok tt
    → IsStorable (Failure.new code message retryable)
unfolding Failure.new validate_error
new-IsStorable code message retryable h occurred_at =
    let (short, _, _) = sanitize_message-IsShown message in
    let visible =
      trim-nonempty (sanitize_message message) (starts_visibly-sanitize_message message) in
    rw (h, visible) (ground (arith, short))

-- A failure keeps its storability when an earlier recovery makes it uncertain.
pub recovery_aware_failure-IsStorable :
    (recovery_count : ℕ) (failure : JobFailure)
    → IsStorable failure
    → IsStorable (recovery_aware_failure recovery_count failure)
unfolding recovery_aware_failure validate_key is_whitespace is_empty trim is_control
recovery_aware_failure-IsStorable recovery_count failure h occurred_at =
    elim (Bool-cases (recovery_count == 0)) [
      | inl first ↦ rw first (h occurred_at)
      | inr again ↦ rw again (
          new-IsStorable (text "job.recovery_uncertain")
            (text "an interrupted submission may already have reached its backend; replay failed: "
              ++ failure.message)
            false refl occurred_at)
    ]
