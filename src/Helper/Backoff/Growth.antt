-- ===== src/Helper/Backoff/Growth.antt =====
-- The waits of helper/internal/sync/backoff.go.
use ats_proxy_manager.Prelude.{
  ℕ, zero, suc, ◌*◌, ◌≤◌, ltb, if◌then◌else◌, ◌≡◌, refl, ◌∙◌, ap, arith,
}
use ats_proxy_manager.Helper.Backoff.{
  Backoff, second, default_backoff, new_backoff, next, reset, after_calls,
}

-- 30 s, doubled n times, and never more than three minutes: 30 s, 60 s, 120 s, 180 s, 180 s, ...
unfoldable pub schedule : ℕ → ℕ
schedule zero = 30 * second
schedule (suc n) = let d = schedule n in if ltb (180 * second) (2 * d) then 180 * second else 2 * d

schedule_max : (n : ℕ) → schedule n ≤ 180 * second
unfolding schedule
schedule_max zero = omega arith
schedule_max (suc n) = ground (arith, schedule_max n)

-- One more call at the end.
calls_suc : (n : ℕ) (b : Backoff) → after_calls (suc n) b ≡ (next (after_calls n b)).1
unfolding after_calls next
calls_suc zero b = refl
calls_suc (suc n) b = calls_suc n (next b).1

-- One call from a duration of the schedule.
next-schedule :
    (scale : ℕ → ℕ)
    → ((d : ℕ) → d ≤ 180 * second → scale d ≡ 2 * d)
    → (n : ℕ)
    → (next (record { cfg = default_backoff scale; current = schedule n })).1
      ≡ record { cfg = default_backoff scale; current = schedule (suc n) }
unfolding next default_backoff schedule
next-schedule scale doubles n =
    ap
      (λ d. record {
        cfg = default_backoff scale;
        current = if ltb (180 * second) d then 180 * second else d;
      })
      (doubles (schedule n) (schedule_max n))

after_calls-state :
    (scale : ℕ → ℕ)
    → ((d : ℕ) → d ≤ 180 * second → scale d ≡ 2 * d)
    → (n : ℕ)
    → after_calls n (new_backoff (default_backoff scale))
      ≡ record { cfg = default_backoff scale; current = schedule n }
unfolding after_calls new_backoff default_backoff schedule
after_calls-state scale doubles zero = refl
after_calls-state scale doubles (suc n) =
    calls_suc n (new_backoff (default_backoff scale))
    ∙ ap (λ b. (next b).1) (after_calls-state scale doubles n)
    ∙ next-schedule scale doubles n

-- Where the product doubles every duration up to three minutes, as that with 2.0 does, the wait
-- after n calls of `Next` from the default configuration is 30 s doubled n times, cut off at three
-- minutes; and `Reset` then leads back to the start.
pub after_calls-schedule :
    (scale : ℕ → ℕ)
    → ((d : ℕ) → d ≤ 180 * second → scale d ≡ 2 * d)
    → (n : ℕ)
    → ((next (after_calls n (new_backoff (default_backoff scale)))).0 ≡ schedule n)
      × (reset (after_calls n (new_backoff (default_backoff scale)))
          ≡ new_backoff (default_backoff scale))
unfolding next reset new_backoff
after_calls-schedule scale doubles n = (
  ap (λ (b : Backoff). b.current) (after_calls-state scale doubles n),
  ap reset (after_calls-state scale doubles n),
)
