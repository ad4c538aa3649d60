-- ===== src/Helper/Backoff.antt =====
-- helper/internal/sync/backoff.go and the defaults of helper/internal/config/config.go. Durations
-- are nanoseconds; the product with the multiplier, in float64, is the field `scale`. The mutex is
-- left out: each method holds it from start to end.
pub mod Growth
use ats_proxy_manager.Prelude.{ℕ, ◌*◌, List, [], ◌∷◌, zero, suc, ltb, if◌then◌else◌}

pub record BackoffConfig : Type 0 where
  pub initial_interval : ℕ
  pub max_interval : ℕ
  pub scale : ℕ → ℕ

pub record Backoff : Type 0 where
  pub cfg : BackoffConfig
  pub current : ℕ

abbrev pub second : ℕ
second = 1000000000

-- `DefaultBackoff`, whose multiplier is 2.0.
unfoldable pub default_backoff : (ℕ → ℕ) → BackoffConfig
default_backoff scale = record {
  initial_interval = 30 * second;
  max_interval = 180 * second;
  scale = scale;
}

unfoldable pub new_backoff : BackoffConfig → Backoff
new_backoff cfg = record { cfg = cfg; current = cfg.initial_interval }

-- `Next`: the interval to wait, and the state afterwards.
unfoldable pub next : Backoff → ℕ × Backoff
next b = (
  b.current,
  record b {
    current =
        if ltb b.cfg.max_interval (b.cfg.scale b.current)
        then b.cfg.max_interval
        else b.cfg.scale b.current;
  },
)

unfoldable pub reset : Backoff → Backoff
reset b = record b { current = b.cfg.initial_interval }

-- The state after n calls of `Next`.
unfoldable pub after_calls : ℕ → Backoff → Backoff
unfolding next
after_calls zero b = b
after_calls (suc n) b = let (wait, b') = next b in after_calls n b'
