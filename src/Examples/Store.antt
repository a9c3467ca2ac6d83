-- ===== src/Examples/Store.antt =====
-- A small Redis: three functions from keys to values, without expiry. It keeps the laws that the
-- theorems rest on.
use game_backend.Base.{
  leb_ℤ, contains, ◌+◌, ◌≡◌, ℕ, suc, refl, String, Option, none, some, List, [], ◌∷◌, arith, ℤ,
  length, str_eq, str_eq_iff, Dict, lookup, insert, erase, update, is_some, IsUnique, lookup-insert,
  lookup-erase, if◌then◌else◌, Bool-cases, inl, inr,
}
use game_backend.Env.{RedisOps}
use game_backend.Env.Laws.{RedisLaws, above}

abbrev ZSet : Type 0
ZSet = (d : Dict ℤ) × IsUnique d

pub record Store : Type 0 where
  pub texts : String → Option String
  pub hashes : String → Dict String
  pub zsets : String → ZSet

abbrev at_key : {A : Type 0} → String → A → (String → A) → String → A
at_key k v f j = if str_eq j k then v else f j

pub insert-IsUnique : (p : String) (e : ℤ) (d : Dict ℤ) → IsUnique d → IsUnique (insert p e d)
unfolding insert lookup
insert-IsUnique p e [] u = (refl, tt)
insert-IsUnique p e ((j, w) ∷ d) u = elim (Bool-cases (str_eq p j)) [
  | inl same ↦ rw (same, insert) u
  | inr other ↦
      rw (other, insert)
        (
          ground (arith, other, u.0, lookup-insert {V = ℤ} p j e d, str_eq_iff p j, str_eq_iff j p),
          insert-IsUnique p e d u.1,
        )
]

pub erase-IsUnique : (p : String) (d : Dict ℤ) → IsUnique d → IsUnique (erase p d)
unfolding erase
erase-IsUnique p [] u = tt
erase-IsUnique p ((j, w) ∷ d) u = elim (Bool-cases (str_eq p j)) [
  | inl same ↦ rw (same, erase) (erase-IsUnique p d u.1)
  | inr other ↦
      rw (other, erase) (ground (arith, u.0, lookup-erase {V = ℤ} p j d), erase-IsUnique p d u.1)
]

above_absent : (p : String) (hi : ℤ) (d : Dict ℤ) → lookup p d ≡ none → lookup p (above hi d) ≡ none
unfolding lookup above
above_absent p hi [] h = refl
above_absent p hi ((j, e) ∷ d) h = ground (arith, h, above_absent p hi d)

pub above-IsUnique : (hi : ℤ) (d : Dict ℤ) → IsUnique d → IsUnique (above hi d)
unfolding above
above-IsUnique hi [] u = tt
above-IsUnique hi ((j, e) ∷ d) u = elim (Bool-cases (leb_ℤ e hi)) [
  | inl low ↦ rw (low, above) (above-IsUnique hi d u.1)
  | inr high ↦ rw (high, above) (ground (arith, u.0, above_absent j hi d), above-IsUnique hi d u.1)
]

length-insert :
    (p : String) (e : ℤ) (d : Dict ℤ)
    → length (insert p e d) ≡ (if contains p d then length d else length d + 1)
unfolding insert lookup
length-insert p e [] = refl
length-insert p e ((j, w) ∷ d) = ground (arith, length-insert p e d)

abbrev remove : List String → ZSet → ZSet
remove [] z = z
remove (p ∷ ps) z = remove ps (erase p z.0, erase-IsUnique p z.0 z.1)

abbrev drop_fields : List String → Dict String → Dict String
drop_fields [] d = d
drop_fields (f ∷ fs) d = drop_fields fs (erase f d)

abbrev rank_from : ℕ → String → Dict ℤ → Option ℕ
rank_from n p [] = none
rank_from n p ((q, e) ∷ d) = if str_eq p q then some n else rank_from (suc n) p d

abbrev pub redis : RedisOps Store
redis = record {
  get = λ k s. s.texts k;
  set = λ k v ttl s. record s { texts = at_key k (some v) s.texts };
  delete = λ k s. record {
    texts = at_key k none s.texts;
    hashes = at_key k [] s.hashes;
    zsets = at_key k ([], tt) s.zsets;
  };
  has_key = λ k s. is_some (s.texts k);
  expire = λ k ttl s. s;
  hgetall = λ k s. s.hashes k;
  hset = λ k m s. record s { hashes = at_key k (update (s.hashes k) m) s.hashes };
  hdel = λ k fs s. record s { hashes = at_key k (drop_fields fs (s.hashes k)) s.hashes };
  zadd = λ k p e s. record s {
    zsets =
        at_key k (insert p e (s.zsets k).0, insert-IsUnique p e (s.zsets k).0 (s.zsets k).1)
          s.zsets;
  };
  zremrangebyscore = λ k hi s. record s {
    zsets =
        at_key k (above hi (s.zsets k).0, above-IsUnique hi (s.zsets k).0 (s.zsets k).1) s.zsets;
  };
  zrem = λ k ps s. record s { zsets = at_key k (remove ps (s.zsets k)) s.zsets };
  zrange = λ k s. (s.zsets k).0;
  zrank = λ k p s. rank_from 0 p (s.zsets k).0;
  zcard = λ k s. length (s.zsets k).0;
}

pub redis-laws : RedisLaws redis
redis-laws = record {
  get-set = λ j k v ttl s. refl;
  get-hset = λ j k m s. refl;
  get-expire = λ j k ttl s. refl;
  get-delete = λ j k s. refl;
  hgetall-hset = λ j k f m s. ground arith;
  hgetall-expire = λ j k ttl s. refl;
  hgetall-zrem = λ j k ps s. refl;
  hgetall-set = λ j k v ttl s h. refl;
  zrange_unique = λ k s. (s.zsets k).1;
  zrange-zadd =
      λ k p q e s. ground (arith, str_eq_iff k k, lookup-insert {V = ℤ} p q e (s.zsets k).0);
  zrange-zrem_one = λ k p s. ground (arith, str_eq_iff k k);
  zrange-zrem_two = λ k p q s. ground (arith, str_eq_iff k k);
  zrange-hset = λ j k m s. refl;
  zrange-hdel = λ j k fs s. refl;
  zrange-expire = λ j k ttl s. refl;
  zrange-set = λ j k v ttl s h. refl;
  zrange-zremrangebyscore = λ k hi s. ground (arith, str_eq_iff k k);
  zcard_lem = λ k s. refl;
  zcard-zadd = λ k p e s. ground (arith, str_eq_iff k k, length-insert p e (s.zsets k).0);
}
