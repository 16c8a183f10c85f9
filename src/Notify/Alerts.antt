-- ===== src/Notify/Alerts.antt =====
-- notify/health.py: `AlertTracker` and `_eval_breach`, the state machine of one kind of alert. Times
-- are seconds; the texts of the messages are values of any type.
pub mod Spacing
use Prim.Native.String.{◌++◌ as str_append}
use oc_piloci.Prelude.{
  ℕ, ◌+◌, ◌*◌, Option, none, some, List, [], ◌∷◌, ◌++◌, Bool, true, false, ◌&&◌, String, leb,
  if◌then◌else◌,
}

pub data Status : Type 0 where
  normal alerted : Status

pub data Severity : Type 0 where
  warning info : Severity

pub record AlertTracker : Type 0 where
  pub state : Status
  pub consecutive_breaches : ℕ
  pub last_fired_at : Option ℕ

-- A tracker as it is made.
abbrev pub fresh : AlertTracker
fresh = record { state = normal; consecutive_breaches = 0; last_fired_at = none }

pub record FiredAlert (M : Type 0) : Type 0 where
  pub kind : String
  pub severity : Severity
  pub message : M

abbrev pub is_normal : Status → Bool
is_normal normal = true
is_normal alerted = false

-- `tracker.last_fired_at is None or (now - tracker.last_fired_at) >= timedelta(minutes=…)`
abbrev pub cooldown_ok : Option ℕ → ℕ → ℕ → Bool
cooldown_ok none cooldown_min now = true
cooldown_ok (some last) cooldown_min now = leb (last + cooldown_min * 60) now

-- What the check of one kind is called with.
pub record Check : Type 0 where
  pub consecutive_required : ℕ
  pub cooldown_min : ℕ
  pub kind : String

-- `f"{kind}_recovered"`
abbrev pub recovered : String → String
recovered kind = str_append kind "_recovered"

module _ {M : Type 0} (c : Check) where
  -- On a breach.
  abbrev breach : AlertTracker → ℕ → M → AlertTracker × List (FiredAlert M)
  breach tracker now fire_message =
      if is_normal tracker.state
        && leb c.consecutive_required tracker.consecutive_breaches
        && cooldown_ok tracker.last_fired_at c.cooldown_min now
      then (
        record tracker { state = alerted; last_fired_at = some now },
        record { kind = c.kind; severity = warning; message = fire_message } ∷ [],
      )
      else (tracker, [])

  pub eval_breach : AlertTracker → Bool → ℕ → M → M → AlertTracker × List (FiredAlert M)
  eval_breach tracker breached now fire_message recover_message =
      if breached
      then breach (record tracker { consecutive_breaches = tracker.consecutive_breaches + 1 }) now
          fire_message
      else if is_normal tracker.state
      then (record tracker { consecutive_breaches = 0 }, [])
      else (
        record tracker { consecutive_breaches = 0; state = normal },
        record { kind = recovered c.kind; severity = info; message = recover_message } ∷ [],
      )
