-- ===== src/Env/Laws.antt =====
-- What the theorems rest on of the world outside: documented behaviour of Redis commands, as
-- hypotheses.
use game_backend.Base.{
  ℕ, ◌+◌, ◌≡◌, ◌≢◌, leb_ℤ, length, contains, String, none, some, List, [], ◌∷◌, ℤ, str_eq, Dict,
  lookup, erase, update, IsUnique, if◌then◌else◌,
}
use game_backend.Env.{RedisOps}

-- The entries above a score.
unfoldable pub above : ℤ → Dict ℤ → Dict ℤ
above hi [] = []
above hi ((p, e) ∷ d) = if leb_ℤ e hi then above hi d else (p, e) ∷ above hi d

-- `HSET` and `HDEL` on a key of another type fail and change nothing, so they never touch a sorted
-- set; `SET` and `DEL` touch the key that they name, whatever its type.
pub record RedisLaws {S : Type 0} (r : RedisOps S) : Type 0 where
  pub get-set :
      (j k v : String) (ttl : ℕ) (s : S)
      → r.get j (r.set k v ttl s) ≡ (if str_eq j k then some v else r.get j s)
  pub get-hset : (j k : String) (m : Dict String) (s : S) → r.get j (r.hset k m s) ≡ r.get j s
  pub get-expire : (j k : String) (ttl : ℕ) (s : S) → r.get j (r.expire k ttl s) ≡ r.get j s
  pub get-delete :
      (j k : String) (s : S) → r.get j (r.delete k s) ≡ (if str_eq j k then none else r.get j s)
  pub hgetall-hset :
      (j k f : String) (m : Dict String) (s : S)
      → lookup f (r.hgetall j (r.hset k m s))
        ≡ (if str_eq j k then lookup f (update (r.hgetall k s) m) else lookup f (r.hgetall j s))
  pub hgetall-expire :
      (j k : String) (ttl : ℕ) (s : S) → r.hgetall j (r.expire k ttl s) ≡ r.hgetall j s
  pub hgetall-zrem :
      (j k : String) (ps : List String) (s : S) → r.hgetall j (r.zrem k ps s) ≡ r.hgetall j s
  pub hgetall-set :
      (j k v : String) (ttl : ℕ) (s : S) → j ≢ k → r.hgetall j (r.set k v ttl s) ≡ r.hgetall j s
  pub zrange_unique : (k : String) (s : S) → IsUnique (r.zrange k s)
  pub zrange-zadd :
      (k p q : String) (e : ℤ) (s : S)
      → lookup q (r.zrange k (r.zadd k p e s))
        ≡ (if str_eq q p then some e else lookup q (r.zrange k s))
  pub zrange-zrem_one :
      (k p : String) (s : S) → r.zrange k (r.zrem k (p ∷ []) s) ≡ erase p (r.zrange k s)
  pub zrange-zrem_two :
      (k p q : String) (s : S)
      → r.zrange k (r.zrem k (p ∷ q ∷ []) s) ≡ erase q (erase p (r.zrange k s))
  pub zrange-hset :
      (j k : String) (m : Dict String) (s : S) → r.zrange j (r.hset k m s) ≡ r.zrange j s
  pub zrange-hdel :
      (j k : String) (fs : List String) (s : S) → r.zrange j (r.hdel k fs s) ≡ r.zrange j s
  pub zrange-expire :
      (j k : String) (ttl : ℕ) (s : S) → r.zrange j (r.expire k ttl s) ≡ r.zrange j s
  pub zrange-set :
      (j k v : String) (ttl : ℕ) (s : S) → j ≢ k → r.zrange j (r.set k v ttl s) ≡ r.zrange j s
  pub zrange-zremrangebyscore :
      (k : String) (hi : ℤ) (s : S)
      → r.zrange k (r.zremrangebyscore k hi s) ≡ above hi (r.zrange k s)
  pub zcard_lem : (k : String) (s : S) → r.zcard k s ≡ length (r.zrange k s)
  pub zcard-zadd :
      (k p : String) (e : ℤ) (s : S)
      → r.zcard k (r.zadd k p e s)
        ≡ (if contains p (r.zrange k s) then r.zcard k s else r.zcard k s + 1)
