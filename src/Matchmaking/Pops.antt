-- ===== src/Matchmaking/Pops.antt =====
-- One run of the matchmaking script (app/core/matchmaking.py): whom it takes out of the queue.
use game_backend.Base.{
  ℕ, ◌*◌, ◌≡◌, ◌∙◌, refl, subst, ◌≢◌, inl, inr, String, Option, none, some, List, [], ◌∷◌, arith, ℤ,
  pos, ◌≤ℤ◌, ◌*ℤ◌, length, ltb, Dict, lookup, erase, IsUnique, str_eq_iff, Result, ok, raise,
  Bool-cases, Result-cases,
}
use game_backend.Constants.{matchmaking_queue}
use game_backend.Env.{Env, ticks_per_sec}
use game_backend.Env.Laws.{RedisLaws}
use game_backend.Matchmaking.{
  Candidate, Pair, min_ℤ, distance, acceptable, find_pair, tolerance_at, join_time, candidates,
  pop_pair, pop_found, run_script,
}
use game_backend.Matchmaking.Pairs.{In, Picks, find_pair_sound}

-- The script's players are the queue's members, in its order, and no tolerance is above the cap.
abbrev Lists : ℕ → Dict ℤ → List Candidate → Type 0
Lists top [] [] = Unit
Lists top ((p, e) ∷ m) (c ∷ cs) =
    (c.pid ≡ p) × (c.elo ≡ e) × (c.tolerance ≤ℤ pos (top * ticks_per_sec)) × Lists top m cs
Lists top _ _ = ⊥

In-queue :
    (top : ℕ) (c : Candidate) (m : Dict ℤ) (cs : List Candidate)
    → IsUnique m
    → Lists top m cs
    → In c cs
    → (lookup c.pid m ≡ some c.elo) × (c.tolerance ≤ℤ pos (top * ticks_per_sec))
unfolding lookup
In-queue top c [] [] u l i = absurd i
In-queue top c [] (x ∷ cs) u l i = absurd l
In-queue top c (e ∷ m) [] u l i = absurd i
In-queue top c ((p, e) ∷ m) (x ∷ cs) u l (inl here) =
    (ground (arith, here, l.0, l.1, str_eq_iff c.pid p), ground (arith, here, l.2))
In-queue top c ((p, e) ∷ m) (x ∷ cs) u l (inr there) =
    let r = In-queue top c m cs u.1 l.3 there in (ground (arith, r.0, u.0, str_eq_iff c.pid p), r.1)

Picks-queue :
    (top : ℕ) (a b : Candidate) (m : Dict ℤ) (cs : List Candidate)
    → IsUnique m
    → Lists top m cs
    → Picks a b cs
    → (a.pid ≢ b.pid)
      × (lookup a.pid m ≡ some a.elo)
      × (lookup b.pid m ≡ some b.elo)
      × (a.tolerance ≤ℤ pos (top * ticks_per_sec))
unfolding lookup
Picks-queue top a b [] [] u l i = absurd i
Picks-queue top a b [] (x ∷ cs) u l i = absurd l
Picks-queue top a b (e ∷ m) [] u l i = absurd i
Picks-queue top a b ((p, e) ∷ m) (x ∷ cs) u l (inl here) =
    let r = In-queue top b m cs u.1 l.3 here.1 in
    (
      λ same. ground (arith, same, r.0, u.0, here.0, l.0),
      ground (arith, here.0, l.0, l.1, str_eq_iff a.pid p),
      ground (arith, r.0, u.0, str_eq_iff b.pid p),
      ground (arith, here.0, l.2),
    )
Picks-queue top a b ((p, e) ∷ m) (x ∷ cs) u l (inr there) =
    let r = Picks-queue top a b m cs u.1 l.3 there in
    (
      r.0,
      ground (arith, r.1, u.0, str_eq_iff a.pid p),
      ground (arith, r.2, u.0, str_eq_iff b.pid p),
      r.3,
    )

min_ℤ_le : (a b : ℤ) → min_ℤ a b ≤ℤ b
unfolding min_ℤ
min_ℤ_le a b = ground arith

module _ {S F : Type 0} (env : Env S F) where
  open env use {redis, settings, texts}

  candidates-Lists :
      (now : ℕ) (m : Dict ℤ) (s : S) (cs : List Candidate)
      → candidates env now m s ≡ ok cs
      → Lists settings.elo_tolerance_max m cs
  unfolding candidates tolerance_at
  candidates-Lists now [] s [] h = tt
  candidates-Lists now [] s (c ∷ cs) h = absurd (ground (arith, h))
  candidates-Lists now ((p, e) ∷ m) s cs h = elim (Result-cases (join_time env now p s)) [
    | inl (er, bad) ↦ absurd (ground (arith, h, bad))
    | inr (t, good) ↦ elim (Result-cases (candidates env now m s)) [
      | inl (er, bad) ↦ absurd (ground (arith, h, good, bad))
      | inr (rest, ok_rest) ↦
          let c : Candidate = record { pid = p; elo = e; tolerance = tolerance_at env now t } in
          let here : c ∷ rest ≡ cs = ground (arith, h, good, ok_rest) in
          subst (Lists settings.elo_tolerance_max ((p, e) ∷ m)) here
            (refl, refl, min_ℤ_le _ _, candidates-Lists now m s rest ok_rest)
    ]
  ]

  -- What a run that pops a pair did: the two are different players, both were queued with these
  -- ratings, the ratings are close enough, and exactly these two left the queue.
  abbrev pub IsPopped : Pair → S → S → Type 0
  IsPopped m s s' =
      let queue = redis.zrange matchmaking_queue s in
      (m.player_a ≢ m.player_b)
      × (lookup m.player_a queue ≡ some m.elo_a)
      × (lookup m.player_b queue ≡ some m.elo_b)
      × (distance m.elo_a m.elo_b *ℤ pos ticks_per_sec
          ≤ℤ pos (settings.elo_tolerance_max * ticks_per_sec))
      × (redis.zrange matchmaking_queue s' ≡ erase m.player_b (erase m.player_a queue))

  pop_pair_lem :
      (laws : RedisLaws redis) (a b : String) (s : S)
      → redis.zrange matchmaking_queue (pop_pair env a b s)
        ≡ erase b (erase a (redis.zrange matchmaking_queue s))
  unfolding pop_pair
  pop_pair_lem laws a b s = laws.zrange-hdel _ _ _ _ ∙ laws.zrange-zrem_two _ _ _ _

  pop_found-IsPopped :
      (laws : RedisLaws redis) (s : S) (cs : List Candidate) (o : Option (Candidate × Candidate))
      (m : Pair)
      → Lists settings.elo_tolerance_max (redis.zrange matchmaking_queue s) cs
      → find_pair cs ≡ o
      → (pop_found env o s).0 ≡ some m
      → IsPopped m s (pop_found env o s).1
  unfolding pop_found acceptable
  pop_found-IsPopped laws s cs none m l found h = absurd (ground (arith, h))
  pop_found-IsPopped laws s cs (some (a, b)) m l found h =
      let r = find_pair_sound a b cs found in
      let q =
        Picks-queue settings.elo_tolerance_max a b (redis.zrange matchmaking_queue s) cs
          (laws.zrange_unique _ _) l r.0 in
      let popped : record { player_a = a.pid; elo_a = a.elo; player_b = b.pid; elo_b = b.elo } ≡ m =
        ground (arith, h) in
      subst (λ x. IsPopped x s (pop_pair env a.pid b.pid s)) popped
        (q.0, q.1, q.2, ground (arith, r.1, q.3), pop_pair_lem laws a.pid b.pid s)

  -- How a run ended.
  abbrev pub Ran : S → Result (Option Pair) → S → Type 0
  Ran s (ok (some m)) s' = IsPopped m s s'
  Ran s (ok none) s' = s' ≡ s
  Ran s (raise e) s' = s' ≡ s

  -- One run of the script, at any time and on any store. If it answers with a pair, the two are
  -- different players, both were queued with the ratings it reports, the ratings differ by at
  -- most the largest tolerance, and the queue afterwards is the queue before without these two.
  -- If it answers with no pair, or stops on a join time that is no number, the store is
  -- unchanged.
  pub run_script-Ran :
      (laws : RedisLaws redis) (now : ℕ) (s : S)
      → Ran s (run_script env now s).0 (run_script env now s).1
  unfolding run_script
  run_script-Ran laws now s =
      elim (Bool-cases (ltb (length (redis.zrange matchmaking_queue s)) 2)) [
        | inl few ↦ rw (few, run_script) refl
        | inr many ↦ elim (Result-cases (candidates env now (redis.zrange matchmaking_queue s) s)) [
          | inl (er, bad) ↦ rw (many, run_script) (rw bad refl)
          | inr (cs, good) ↦
              rw (many, run_script)
                (rw good (
                  searched cs (candidates-Lists now (redis.zrange matchmaking_queue s) s cs good)
                    (find_pair cs) refl))
        ]
      ]
    where
      searched :
          (cs : List Candidate)
          → Lists settings.elo_tolerance_max (redis.zrange matchmaking_queue s) cs
          → (o : Option (Candidate × Candidate)) → find_pair cs ≡ o
          → Ran s (ok (pop_found env o s).0) (pop_found env o s).1
      searched cs l none found = unfold pop_found in refl
      searched cs l (some (a, b)) found =
          unfold pop_found in
          (pop_found-IsPopped laws s cs (some (a, b)) _ l found (unfold pop_found in refl))
