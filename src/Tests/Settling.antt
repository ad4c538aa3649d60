-- ===== src/Tests/Settling.antt =====
-- The story's config is the active one, with a stored hash, and the helper asks twice.
use ats_proxy_manager.Prelude.{
  ℕ, Bool, true, false, Option, none, some, [], ◌≡◌, refl, codes, Str, is_empty,
}
use ats_proxy_manager.Store.{World, Result, ok, err, get_now, idle}
use ats_proxy_manager.Repository.ConfigRepo
use ats_proxy_manager.Service.SyncService.{
  ConfigResponse, get_config, answer_for, fresh_answer, is_current, stored_or_new_hash,
  text_or_empty, unchanged_answer,
}
use ats_proxy_manager.Laws.Serving.{active_for}
use ats_proxy_manager.Laws.Settling.{told, get_config_settles}
use ats_proxy_manager.Tests.Samples.{sample}
use ats_proxy_manager.Tests.Story.{story, blank, or_else, or_else_found}
use ats_proxy_manager.Domain.Models.{Config}
use ats_proxy_manager.Invariant.Lifecycle.{is_set}

served_config : Config
served_config = or_else (active_for (codes "h") story) blank

serves_one : is_set (active_for (codes "h") story) ≡ true
unfolding story
serves_one = refl

serving : active_for (codes "h") story ≡ some served_config
unfolding served_config
serving = or_else_found (active_for (codes "h") story) blank serves_one

abbrev stored_hash : Str
stored_hash = text_or_empty served_config.config_hash

has_hash : is_empty stored_hash ≡ false
unfolding story served_config
has_hash = refl

not_empty_some : (o : Option Str) → is_empty (text_or_empty o) ≡ false → o ≡ some (text_or_empty o)
not_empty_some none h = cc h
not_empty_some (some s) h = refl

abbrev world_at : ℕ → World
world_at now = record { db = story; faults = []; now = now; tx = idle }

abbrev is_answer : Result ConfigResponse × World → Bool
is_answer (ok a, w) = true
is_answer (err e, w) = false

abbrev answer_of : Result ConfigResponse × World → ConfigResponse
answer_of (ok a, w) = a
answer_of (err e, w) = record {
  unchanged = true;
  hash = [];
  config = none;
  capture_logs = false;
  capture_until = none;
}

outcome : (o : Result ConfigResponse × World) → is_answer o ≡ true → o ≡ (ok (answer_of o), o.1)
outcome (ok a, w) h = refl
outcome (err e, w) h = cc h

first_run : Result ConfigResponse × World
first_run = get_config sample (codes "h") [] (world_at 50)

second_run : Result ConfigResponse × World
unfolding first_run
second_run = get_config sample (codes "h") (told [] (answer_of first_run)) (world_at 90)

first_ok : is_answer first_run ≡ true
unfolding first_run story get_config answer_for fresh_answer ConfigRepo.get_active_for_proxy
    is_current stored_or_new_hash get_now
first_ok = refl

second_ok : is_answer second_run ≡ true
unfolding second_run story get_config answer_for fresh_answer ConfigRepo.get_active_for_proxy
    is_current stored_or_new_hash get_now unchanged_answer
second_ok = refl

get_config_settles_example : (answer_of second_run).unchanged ≡ true
unfolding first_run second_run
get_config_settles_example =
    get_config_settles sample (codes "h") served_config stored_hash [] (world_at 50) first_run.1
      (world_at 90) second_run.1 (answer_of first_run) (answer_of second_run)
      (not_empty_some served_config.config_hash has_hash) has_hash serving serving
      (outcome first_run first_ok) (outcome second_run second_ok)
