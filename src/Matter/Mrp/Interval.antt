-- ===== src/Matter/Mrp/Interval.antt =====
-- The time between two sendings, plugins/matter/src/mrp.rs: `interval`.
use stulp.Prelude.{ℕ, ◌-◌, ◌/◌}
use stulp.Matter.Mrp.{backoff, mul_sat}

-- The time before the jitter is added.
abbrev margin : ℕ → ℕ → ℕ
margin base attempt = backoff (attempt - 1) (mul_sat base 1100 / 1000)
