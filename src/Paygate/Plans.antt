-- ===== src/Paygate/Plans.antt =====
-- apps/paygate/src/chaos.ts: the ranges of a plan.
use project_atrium.Base.{ℕ, ◌≤◌, ◌<◌, ◌≡◌, refl, true, Bool-cases, inl, inr, List, [], ◌∷◌, arith}
use project_atrium.Paygate.Types.{TimingBranch, race_on_response, delayed, normal, ChaosPlan}
use project_atrium.Paygate.Rng.{word, mulberry32, make_rng, is_below}
use project_atrium.Paygate.Chaos.{
  first_delay, timing_of, clock_skew, plan_from, plan_for, plan_label,
}

-- The delay of a timing branch.
abbrev pub IsDelay : TimingBranch → ℕ → Type 0
IsDelay race_on_response d = d ≡ 0
IsDelay delayed d = (60000 ≤ d) × (d ≤ 90000)
IsDelay normal d = (20 ≤ d) × (d ≤ 400)

pub record IsInRange (plan : ChaosPlan) : Type 0 where
  pub delay : IsDelay plan.timing plan.first_delay_ms
  pub gap : (30 ≤ plan.duplicate_gap_ms) × (plan.duplicate_gap_ms ≤ 900)
  pub skew : plan.clock_skew_seconds ≤ 30

mulberry32-le : (a : ℕ) → (mulberry32 a).0 < word
unfolding mulberry32
mulberry32-le a = omega arith

first_delay-IsDelay : (t : TimingBranch) (a : ℕ) → IsDelay t (first_delay t a).0
unfolding first_delay
first_delay-IsDelay race_on_response a = refl
first_delay-IsDelay delayed a = (omega arith, omega (arith, mulberry32-le a))
first_delay-IsDelay normal a = (omega arith, omega (arith, mulberry32-le a))

clock_skew-le : (a : ℕ) → clock_skew a ≤ 30
unfolding clock_skew
clock_skew-le a = elim (Bool-cases (is_below (mulberry32 a).0 35)) [
  | inl falls ↦ rw falls (omega (arith, mulberry32-le (mulberry32 a).1))
  | inr not_so ↦ rw not_so (omega arith)
]

plan_from-IsInRange : (a : ℕ) → IsInRange (plan_from a)
unfolding plan_from
plan_from-IsInRange a =
    let b = (mulberry32 a).1 in
    let c = (mulberry32 b).1 in
    let d = (mulberry32 c).1 in
    let e = (first_delay (timing_of (mulberry32 b).0) d).1 in
    record {
      delay = first_delay-IsDelay (timing_of (mulberry32 b).0) d;
      gap = (omega arith, omega (arith, mulberry32-le e));
      skew = clock_skew-le (mulberry32 e).1;
    }

-- With chaos on, whatever the seed and the key: a race is delivered with no delay, a late webhook
-- after 60 to 90 seconds and any other after 20 to 400 milliseconds, a duplicate follows after 30
-- to 900 milliseconds, and the skew is at most 30 seconds.
plan_for-IsInRange :
    (key seed : List ℕ) → IsInRange (plan_for key (record { chaos = true; seed = seed }))
unfolding plan_for
plan_for-IsInRange key seed = plan_from-IsInRange (make_rng (seed ∷ key ∷ plan_label ∷ []))
