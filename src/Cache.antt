-- ===== src/Cache.antt =====
-- app/cache.py: the shared cache. The Redis server and its client library are the environment's
-- answers; every one of them may be an exception.
pub mod Laws
use dunning_agent.Prelude.{ℕ, String, Bool, true, false, not, if◌then◌else◌, List, [], ◌∷◌}
use dunning_agent.Prelude.Text.{strip}
use dunning_agent.Model.{Settings}
use dunning_agent.World.{
  World, RedisMemo, unbuilt, built, unavailable, Request, Env, Result, ok, err, Exec, pure, ask,
  attempt, set_memo, get_memo, ◌>>=◌, ◌>>◌,
}

abbrev pub is_empty : List ℕ → Bool
is_empty [] = true
is_empty (_ ∷ _) = false

abbrev build : Result (Unit {0}) → Exec Bool
build (ok _) = do set_memo built; pure true
build (err _) = do set_memo unavailable; pure false

-- `_redis`: true where it returns a client.
unfoldable pub redis : Env → Settings → Exec Bool
redis env settings = do
  memo ← get_memo
  elim memo [
    | unavailable ↦ pure false
    | built ↦ pure true
    | unbuilt ↦
        if is_empty (strip settings.redis_url)
        then (do set_memo unavailable; pure false)
        else (do outcome ← attempt (ask Request.build_redis env.on_build_redis); build outcome)
  ]

abbrev answer_or : Bool → Result Bool → Bool
answer_or default (ok b) = b
answer_or default (err _) = default

unfoldable pub claim : Env → Settings → String → ℕ → Exec Bool
claim env settings key ttl_seconds = do
  client ← redis env settings
  if not client then pure true else do
    answer ← attempt (ask (Request.redis_set key ttl_seconds) (env.on_redis_set key ttl_seconds))
    pure (answer_or true answer)

unfoldable pub seen : Env → Settings → String → ℕ → Exec Bool
seen env settings key ttl_seconds = do
  claimed ← claim env settings key ttl_seconds
  pure (not claimed)

unfoldable pub forget : Env → Settings → String → Exec (Unit {0})
forget env settings key = do
  client ← redis env settings
  if not client
      then pure tt
      else do attempt (ask (Request.redis_delete key) (env.on_redis_delete key)); pure tt

unfoldable pub seen_only : Env → Settings → String → Exec Bool
seen_only env settings key = do
  client ← redis env settings
  if not client then pure false else do
    answer ← attempt (ask (Request.redis_exists key) (env.on_redis_exists key))
    pure (answer_or false answer)
