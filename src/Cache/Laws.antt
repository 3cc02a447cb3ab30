-- ===== src/Cache/Laws.antt =====
-- app/cache.py with Redis absent or failing.
use dunning_agent.Prelude.{String, true, false, ℕ, ◌≡◌, arith, List}
use dunning_agent.Model.{Settings}
use dunning_agent.World.{World, Request, Env, ok, err, Exn}
use dunning_agent.World.Returns.{Returned}
use dunning_agent.Cache.{redis, claim, seen, forget, seen_only}

-- The Redis server fails on every command.
pub record IsDown (env : Env) : Type 0 where
  pub set_fails :
      (key : String) (ttl : ℕ) (sent : List Request)
      → (e : Exn) × (env.on_redis_set key ttl sent ≡ err e)
  pub exists_fails :
      (key : String) (sent : List Request) → (e : Exn) × (env.on_redis_exists key sent ≡ err e)

module _ (env : Env) (settings : Settings) where
  redis_total : (w : World) → Returned (redis env settings w).0
  unfolding redis
  redis_total w = ground arith

  redis-db : (w : World) → (redis env settings w).1.db ≡ w.db
  unfolding redis
  redis-db w = ground arith

  pub claim_total : (key : String) (ttl : ℕ) (w : World) → Returned (claim env settings key ttl w).0
  unfolding claim
  claim_total key ttl w = ground (arith, redis_total w)

  pub claim-db : (key : String) (ttl : ℕ) (w : World) → (claim env settings key ttl w).1.db ≡ w.db
  unfolding claim
  claim-db key ttl w = ground (arith, redis_total w, redis-db w)

  -- The cache never raises, and never touches the database.
  pub cache_total :
      (key : String) (ttl : ℕ) (w : World)
      → Returned (seen env settings key ttl w).0
        × Returned (seen_only env settings key w).0
        × Returned (forget env settings key w).0
        × ((seen env settings key ttl w).1.db ≡ w.db)
        × ((seen_only env settings key w).1.db ≡ w.db)
        × ((forget env settings key w).1.db ≡ w.db)
  unfolding seen claim forget seen_only
  cache_total key ttl w = ground (arith, redis_total w, redis-db w)

  -- With Redis down, whatever was memoised, no key counts as seen and every claim is granted.
  down_fails_open :
      (key : String) (ttl : ℕ) (w : World)
      → IsDown env
      → ((claim env settings key ttl w).0 ≡ ok true)
        × ((seen env settings key ttl w).0 ≡ ok false)
        × ((seen_only env settings key w).0 ≡ ok false)
  unfolding claim seen seen_only
  down_fails_open key ttl w down =
      let w' = (redis env settings w).1 in
      ground (
        arith,
        redis_total w,
        (down.set_fails key ttl w'.sent).1,
        (down.exists_fails key w'.sent).1,
      )
