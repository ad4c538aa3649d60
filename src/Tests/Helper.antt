-- ===== src/Tests/Helper.antt =====
-- The default backoff with an exact product.
use ats_proxy_manager.Prelude.{ℕ, ◌*◌, ◌≡◌, refl}
use ats_proxy_manager.Helper.Backoff.{
  second, default_backoff, new_backoff, next, reset, after_calls,
}
use ats_proxy_manager.Helper.Backoff.Growth.{schedule, after_calls-schedule}

abbrev double : ℕ → ℕ
double d = 2 * d

third_wait : schedule 2 ≡ 120 * second
unfolding schedule
third_wait = refl

later_wait : schedule 7 ≡ 180 * second
unfolding schedule
later_wait = refl

after_calls-schedule_example :
    ((next (after_calls 3 (new_backoff (default_backoff double)))).0 ≡ schedule 3)
    × (reset (after_calls 3 (new_backoff (default_backoff double)))
        ≡ new_backoff (default_backoff double))
after_calls-schedule_example = after_calls-schedule double (λ d h. refl) 3
