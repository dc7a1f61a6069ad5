-- ===== src/NodeAgent/ClockTrust.antt =====
-- apps/node-agent/src/clock-trust.ts. What is read of the output's line stands for the line: a text
-- of seconds is the signed number of nanoseconds that it gives, if it gives one, without rounding
-- and overflow of floating-point numbers; times are in half nanoseconds where they are halved.
pub mod Verdict
use vpnplatform.Base.{
  ℕ, ◌+◌, ◌*◌, ◌≤◌, ◌≡◌, ◌↔◌, Bool, true, false, ◌&&◌, ◌||◌, not, Option, none, some, arith, ltb,
  ◌==◌, if◌then◌else◌, refl, inl, inr, Bool-cases, Option-cases, ==→eq,
}

abbrev pub clock_trust_threshold_ms : ℕ
clock_trust_threshold_ms = 30000

abbrev pub chronyc_tracking_csv_field_count : ℕ
chronyc_tracking_csv_field_count = 14

pub data LeapStatus : Type 0 where
  normal insert_second delete_second other_leap : LeapStatus

pub data ClockTrustReason : Type 0 where
  trusted threshold_exceeded unsynchronized local_reference missing_executable : ClockTrustReason
  timeout non_zero_exit malformed_output invalid_uncertainty probe_failed : ClockTrustReason

-- The estimate is in half nanoseconds.
pub record ClockTrustAssessment : Type 0 where
  pub synchronized : Bool
  pub estimated_absolute_error : Option ℕ
  pub is_trusted : Bool
  pub reason : ClockTrustReason

pub record Seconds : Type 0 where
  pub negative : Bool
  pub nanoseconds : ℕ

-- The fields of the line: their number, and what those that are read hold.
pub record TrackingFields : Type 0 where
  pub count : ℕ
  pub is_local_reference : Bool
  pub system_time_offset : Option Seconds
  pub root_delay : Option Seconds
  pub root_dispersion : Option Seconds
  pub leap_status : LeapStatus

-- The output: nothing or more than a line, or one line.
pub data TrackingOutput : Type 0 where
  not_a_line : TrackingOutput
  line : TrackingFields → TrackingOutput

abbrev pub untrusted_clock : ClockTrustReason → Bool → Option ℕ → ClockTrustAssessment
untrusted_clock reason synchronized error = record {
  synchronized = synchronized;
  estimated_absolute_error = error;
  is_trusted = false;
  reason = reason;
}

abbrev pub is_synchronized : LeapStatus → Bool
is_synchronized other_leap = false
is_synchronized _ = true

-- -0 is not less than 0.
abbrev pub below_zero : Seconds → Bool
below_zero s = s.negative && not (s.nanoseconds == 0)

abbrev pub half_nanoseconds_per_ms : ℕ
half_nanoseconds_per_ms = 2000000

abbrev pub judge : TrackingFields → ℕ → ClockTrustAssessment
judge f error =
    let synchronized = is_synchronized f.leap_status in
    if f.is_local_reference
    then untrusted_clock local_reference synchronized (some error)
    else if not synchronized
    then untrusted_clock unsynchronized false (some error)
    else if ltb (clock_trust_threshold_ms * half_nanoseconds_per_ms) error
    then untrusted_clock threshold_exceeded true (some error)
    else record {
      synchronized = true;
      estimated_absolute_error = some error;
      is_trusted = true;
      reason = trusted;
    }

abbrev pub evaluate_uncertainty :
    TrackingFields → Option Seconds → Option Seconds → Option Seconds → ClockTrustAssessment
evaluate_uncertainty f (some offset) (some delay) (some dispersion) =
    if below_zero delay || below_zero dispersion
    then untrusted_clock invalid_uncertainty false none
    else judge f (2 * offset.nanoseconds + 2 * dispersion.nanoseconds + delay.nanoseconds)
evaluate_uncertainty f _ _ _ = untrusted_clock invalid_uncertainty false none

abbrev pub evaluate_chrony_tracking_csv : TrackingOutput → ClockTrustAssessment
evaluate_chrony_tracking_csv not_a_line = untrusted_clock malformed_output false none
evaluate_chrony_tracking_csv (line f) =
    if f.count == chronyc_tracking_csv_field_count
    then evaluate_uncertainty f f.system_time_offset f.root_delay f.root_dispersion
    else untrusted_clock malformed_output false none

pub data FailureCode : Type 0 where
  no_code etimedout enoent maxbuffer other_text : FailureCode
  number : ℕ → FailureCode

pub data FailureSignal : Type 0 where
  no_signal sigterm sigkill other_signal : FailureSignal

-- What the executor throws, if it is an Error: `status` is `none` where it is no number.
pub record ChronyProbeFailure : Type 0 where
  pub killed : Bool
  pub signal : FailureSignal
  pub code : FailureCode
  pub status : Option ℕ

pub data Thrown : Type 0 where
  not_an_error : Thrown
  an_error : ChronyProbeFailure → Thrown

abbrev pub is_kill : FailureSignal → Bool
is_kill sigterm = true
is_kill sigkill = true
is_kill _ = false

abbrev pub is_etimedout : FailureCode → Bool
is_etimedout etimedout = true
is_etimedout _ = false

abbrev pub non_zero : Option ℕ → Bool
non_zero none = false
non_zero (some n) = not (n == 0)

abbrev pub classify_code : FailureCode → Option ℕ → ClockTrustReason
classify_code enoent status = missing_executable
classify_code maxbuffer status = malformed_output
classify_code (number n) status =
    if non_zero status || not (n == 0) then non_zero_exit else probe_failed
classify_code _ status = if non_zero status then non_zero_exit else probe_failed

abbrev pub classify_chrony_execution_failure : Thrown → ClockTrustReason
classify_chrony_execution_failure not_an_error = probe_failed
classify_chrony_execution_failure (an_error e) =
    if e.killed || is_kill e.signal || is_etimedout e.code
    then timeout
    else classify_code e.code e.status

-- The executor: it throws, or resolves with a status and an output.
pub data Execution : Type 0 where
  throws : Thrown → Execution
  resolves : (status : ℕ) → TrackingOutput → Execution

unfoldable pub assess : Execution → ClockTrustAssessment
assess (throws e) = untrusted_clock (classify_chrony_execution_failure e) false none
assess (resolves status output) =
    if status == 0
    then evaluate_chrony_tracking_csv output
    else untrusted_clock non_zero_exit false none

abbrev pub is_trusted_reason : ClockTrustReason → Bool
is_trusted_reason trusted = true
is_trusted_reason _ = false
