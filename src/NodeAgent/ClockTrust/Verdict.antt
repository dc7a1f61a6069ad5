-- ===== src/NodeAgent/ClockTrust/Verdict.antt =====
-- When the clock is trusted.
use vpnplatform.Base.{
  ℕ, ◌+◌, ◌*◌, ◌≤◌, ◌≡◌, ◌↔◌, true, false, ◌||◌, Option, none, some, arith, ◌==◌, refl, inl, inr,
  Bool-cases, ==→eq,
}
use vpnplatform.NodeAgent.ClockTrust.{
  TrackingFields, Seconds, not_a_line, line, is_synchronized, below_zero, judge,
  evaluate_uncertainty, evaluate_chrony_tracking_csv, not_an_error, an_error, Execution, throws,
  resolves, assess, is_trusted_reason,
}

-- The verdict on the fields, once the three times are read.
judge_lem :
    (f : TrackingFields) (error : ℕ)
    → ((judge f error).is_trusted ≡ is_trusted_reason (judge f error).reason)
      × (((judge f error).is_trusted ≡ true) ↔ (
          (is_synchronized f.leap_status ≡ true)
          × (f.is_local_reference ≡ false)
          × (error ≤ 30 * 2000000000)))
judge_lem f error = ground arith

-- What makes the clock trusted.
pub record Trusted (run : Execution) : Type 0 where
  pub fields : TrackingFields
  pub offset : Seconds
  pub delay : Seconds
  pub dispersion : Seconds
  pub ran : run ≡ resolves 0 (line fields)
  pub complete : fields.count ≡ 14
  pub offset_read : fields.system_time_offset ≡ some offset
  pub delay_read : fields.root_delay ≡ some delay
  pub dispersion_read : fields.root_dispersion ≡ some dispersion
  pub not_negative : (below_zero delay ≡ false) × (below_zero dispersion ≡ false)
  pub synchronized : is_synchronized fields.leap_status ≡ true
  pub remote : fields.is_local_reference ≡ false
  pub small :
      2 * offset.nanoseconds + 2 * dispersion.nanoseconds + delay.nanoseconds ≤ 30 * 2000000000

trusted_reason : (run : Execution) → (assess run).is_trusted ≡ is_trusted_reason (assess run).reason
unfolding assess
trusted_reason (throws not_an_error) = refl
trusted_reason (throws (an_error e)) = ground arith
trusted_reason (resolves status not_a_line) = ground arith
trusted_reason (resolves status (line f)) = ground arith

uncertainty-Trusted :
    (f : TrackingFields) (offset delay dispersion : Option Seconds)
    → f.count ≡ 14
    → f.system_time_offset ≡ offset
    → f.root_delay ≡ delay
    → f.root_dispersion ≡ dispersion
    → (evaluate_uncertainty f offset delay dispersion).is_trusted ≡ true
    → Trusted (resolves 0 (line f))
uncertainty-Trusted f none delay dispersion n o d p h = absurd (cc)
uncertainty-Trusted f (some a) none dispersion n o d p h = absurd (cc)
uncertainty-Trusted f (some a) (some b) none n o d p h = absurd (cc)
uncertainty-Trusted f (some a) (some b) (some c) n o d p h =
    let error = 2 * a.nanoseconds + 2 * c.nanoseconds + b.nanoseconds in
    elim (Bool-cases (below_zero b || below_zero c)) [
      | inl y ↦ absurd (ground (arith, y, h))
      | inr m ↦
          let judged : (judge f error).is_trusted ≡ true = ground (arith, m, h) in
          let (synchronized, remote, small) = (judge_lem f error).1.0 judged in
          record {
            fields = f;
            offset = a;
            delay = b;
            dispersion = c;
            ran = refl;
            complete = n;
            offset_read = o;
            delay_read = d;
            dispersion_read = p;
            not_negative = ground (arith, m);
            synchronized = synchronized;
            remote = remote;
            small = small;
          }
    ]

Trusted-of :
    (f : TrackingFields)
    → (evaluate_chrony_tracking_csv (line f)).is_trusted ≡ true
    → Trusted (resolves 0 (line f))
Trusted-of f h = elim (Bool-cases (f.count == 14)) [
  | inl y ↦
      uncertainty-Trusted f f.system_time_offset f.root_delay f.root_dispersion (==→eq f.count 14 y)
        refl refl refl (ground (arith, y, h))
  | inr n ↦ absurd (ground (arith, n, h))
]

Trusted-assess : (run : Execution) → Trusted run → (assess run).is_trusted ≡ true
unfolding assess
Trusted-assess run t =
    let f = t.fields in
    rw (t.ran, t.complete, t.offset_read, t.delay_read, t.dispersion_read)
      (rw (t.not_negative.0, t.not_negative.1)
        ((judge_lem f
            (2 * t.offset.nanoseconds + 2 * t.dispersion.nanoseconds + t.delay.nanoseconds)).1.1
          (t.synchronized, t.remote, t.small)))

assess-Trusted : (run : Execution) → (assess run).is_trusted ≡ true → Trusted run
unfolding assess
assess-Trusted (throws not_an_error) h = absurd (cc)
assess-Trusted (throws (an_error e)) h = absurd (cc)
assess-Trusted (resolves status not_a_line) h = ground arith
assess-Trusted (resolves status (line f)) h = elim (Bool-cases (status == 0)) [
  | inl y ↦ rw (==→eq status 0 y) (Trusted-of f (ground (arith, y, h)))
  | inr n ↦ ground arith
]

-- The clock is trusted exactly if the probe exits with 0 and prints one line of 14 fields, with
-- three times that can be read, a root delay and dispersion that are not negative, a
-- synchronized leap status, a reference that is not the local clock, and an estimated error of at
-- most 30 seconds. In every other case, each error of the probe included, it is not trusted, and
-- the reason says so.
pub assess-Trusted_iff :
    (run : Execution)
    → ((assess run).is_trusted ≡ is_trusted_reason (assess run).reason)
      × (((assess run).is_trusted ≡ true) ↔ Trusted run)
unfolding assess
assess-Trusted_iff run = (trusted_reason run, (assess-Trusted run, Trusted-assess run))
