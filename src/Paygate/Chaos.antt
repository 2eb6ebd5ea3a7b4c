-- ===== src/Paygate/Chaos.antt =====
-- apps/paygate/src/chaos.ts: the plan of a charge or refund.
--
-- A rate is a number of percent. No multiple of 2 ^ -32 lies between a rate of the source and the
-- double next to it, so the comparisons are those of the source.
use project_atrium.Base.{ℕ, Bool, true, false, List, [], ◌∷◌, if◌then◌else◌}
use project_atrium.Paygate.Types.{TimingBranch, race_on_response, delayed, normal, ChaosPlan}
use project_atrium.Paygate.Rng.{mulberry32, make_rng, int_of, is_below}

-- The settings that the plan depends on.
pub record ChaosConfig : Type 0 where
  pub chaos : Bool
  pub seed : List ℕ

-- `NO_CHAOS`
abbrev pub no_chaos : ChaosPlan
no_chaos = record {
  enabled = false;
  transient_failure = false;
  timing = normal;
  duplicate_delivery = false;
  first_delay_ms = 0;
  duplicate_gap_ms = 0;
  clock_skew_seconds = 0;
}

-- The branch of one uniform draw: 25 % race, 5 % late.
abbrev pub timing_of : ℕ → TimingBranch
timing_of u = if is_below u 25 then race_on_response else if is_below u 30 then delayed else normal

-- The first delay, with the state that is left: a race draws no number.
unfoldable pub first_delay : TimingBranch → ℕ → ℕ × ℕ
unfolding mulberry32
first_delay race_on_response a = (0, a)
first_delay delayed a = let (n, b) = mulberry32 a in (int_of n 60000 90000, b)
first_delay normal a = let (n, b) = mulberry32 a in (int_of n 20 400, b)

-- The skew: a coin of 35 %, and a second draw where it falls.
unfoldable pub clock_skew : ℕ → ℕ
unfolding mulberry32
clock_skew a =
    let (coin, b) = mulberry32 a in if is_below coin 35 then int_of (mulberry32 b).0 1 30 else 0

-- The plan that the draws after a state give.
unfoldable pub plan_from : ℕ → ChaosPlan
unfolding mulberry32 first_delay clock_skew
plan_from a =
    let (fails, b) = mulberry32 a in
    let (u, c) = mulberry32 b in
    let (twice, d) = mulberry32 c in
    let (delay, e) = first_delay (timing_of u) d in
    let (gap, f) = mulberry32 e in
    record {
      enabled = true;
      transient_failure = is_below fails 10;
      timing = timing_of u;
      duplicate_delivery = is_below twice 30;
      first_delay_ms = delay;
      duplicate_gap_ms = int_of gap 30 900;
      clock_skew_seconds = clock_skew f;
    }

-- `'plan'`
abbrev pub plan_label : List ℕ
plan_label = 112 ∷ 108 ∷ 97 ∷ 110 ∷ []

-- `planFor`
unfoldable pub plan_for : List ℕ → ChaosConfig → ChaosPlan
unfolding make_rng plan_from
plan_for key cfg =
    if cfg.chaos then plan_from (make_rng (cfg.seed ∷ key ∷ plan_label ∷ [])) else no_chaos

-- `corruptSignatureFor`, for the label `signature:<attempt>`
unfoldable pub corrupt_signature_for : List ℕ → List ℕ → ChaosConfig → Bool
unfolding make_rng mulberry32
corrupt_signature_for key label cfg =
    if cfg.chaos then is_below (mulberry32 (make_rng (cfg.seed ∷ key ∷ label ∷ []))).0 2 else false
