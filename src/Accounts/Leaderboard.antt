-- ===== src/Accounts/Leaderboard.antt =====
-- The pages of the leaderboard (`get_leaderboard` of app/api/rest_routes.py).
use native.Mathlib.Nat.{mul-le-mul}
use game_backend.Base.{
  ℕ, zero, suc, ◌+◌, ◌*◌, ◌≤◌, ◌<◌, ◌≡◌, refl, ap, subst, true, some, List, [], ◌∷◌, ℤ, pos, negsuc,
  ◌+ℤ◌, ◌-ℤ◌, ◌*ℤ◌, ◌≤ℤ◌, leb_ℤ, ltb_ℤ, arith, inl, inr, Bool-cases, ◌||◌, length, get_elem?, All,
  take, drop, ok, ◌&&◌, pure,
}
use game_backend.Database.{Player, Session, Tables}
use game_backend.Database.Transactions.{>>=_run}
use game_backend.Players.{get_leaderboard, order_by_desc, active_players, page_rows, fits_limit}
use game_backend.Players.Ranks.{
  count, count-order_by_desc, order_by_desc-IsDescending, count_above, count_at_least,
}
use game_backend.Accounts.{
  Web, LeaderboardEntry, LeaderboardResponse, entry, entries, clamp_page, clamp_size, leaderboard,
  leaderboard_page,
}

get_elem?-take :
    {A : Type 0} (k : ℕ) (xs : List A) (j : ℕ) (x : A)
    → get_elem? (take k xs) j ≡ some x
    → get_elem? xs j ≡ some x
get_elem?-take zero xs j x h = cc
get_elem?-take (suc k) [] j x h = cc
get_elem?-take (suc k) (y ∷ ys) zero x h = h
get_elem?-take (suc k) (y ∷ ys) (suc j) x h = get_elem?-take k ys j x h

get_elem?-page_rows :
    {A : Type 0} (n k : ℕ) (xs : List A) (j : ℕ) (x : A)
    → get_elem? (page_rows n k xs) j ≡ some x
    → get_elem? xs (n + j) ≡ some x
get_elem?-page_rows zero k xs j x h =
    subst (λ i. get_elem? xs i ≡ some x) (omega arith) (get_elem?-take k xs j x h)
get_elem?-page_rows (suc n) zero [] j x h = cc
get_elem?-page_rows (suc n) (suc k) [] j x h = cc
get_elem?-page_rows (suc n) k (y ∷ ys) j x h =
    subst (λ i. get_elem? (y ∷ ys) i ≡ some x) {x = suc (n + j)} (omega arith)
      (get_elem?-page_rows n k ys j x h)

-- What holds of the item at every index holds of all.
All_of_get_elem? :
    {A : Type 0} (P : A → Type 0) (xs : List A)
    → ((i : ℕ) (x : A) → get_elem? xs i ≡ some x → P x)
    → All P xs
All_of_get_elem? P [] h = tt
All_of_get_elem? P (x ∷ xs) h = (h 0 x refl, All_of_get_elem? P xs (λ i y e. h (suc i) y e))

length-take : {A : Type 0} (k : ℕ) (xs : List A) → length (take k xs) ≤ k
length-take zero xs = omega arith
length-take (suc k) [] = omega arith
length-take (suc k) (x ∷ xs) = omega (arith, length-take k xs)

sub_one : (a : ℕ) → pos (suc a) -ℤ pos 1 ≡ pos a
unfolding ◌-ℤ◌
sub_one a = ground arith

mul_pos : (a b : ℕ) → pos a *ℤ pos b ≡ pos (a * b)
unfolding ◌*ℤ◌
mul_pos a b = ground arith

add_pos : (a b : ℕ) → pos a +ℤ pos b ≡ pos (a + b)
unfolding ◌+ℤ◌
add_pos a b = ground arith

get_leaderboard_lem :
    (a b : ℕ) (s : Session)
    → a < 1000000000000000
    → b ≤ 100
    → get_leaderboard (pos (suc a)) (pos b) s ≡ (
      ok (
        page_rows (a * b) b (order_by_desc (λ p. p.elo_rating) (active_players s.rows)),
        length (active_players s.rows),
      ),
      s,
    )
unfolding get_leaderboard
get_leaderboard_lem a b s la lb =
    rw (sub_one a, mul_pos a b, get_leaderboard) (rw (fits a b la lb, get_leaderboard) refl)
  where
    fits :
        (a b : ℕ)
        → a < 1000000000000000
        → b ≤ 100
        → (fits_limit (pos (a * b)) && fits_limit (pos b)) ≡ true
    fits a b la lb = ground (
      arith,
      mul-le-mul {n₁ = a} {m₁ = b} {n₂ = 1000000000000000} {m₂ = 100} (omega (arith, la)) lb,
      lb,
    )

module _ {Token F : Type 0} (web : Web Token F) where
  clamp_page_lem :
      (page : ℤ)
      → page ≤ℤ pos 1000000000000000
      → (a : ℕ) × (clamp_page web page ≡ pos (suc a)) × (a < 1000000000000000)
  unfolding clamp_page
  clamp_page_lem (pos zero) h = (0, refl, omega arith)
  clamp_page_lem (pos (suc a)) h = (a, ground arith, omega (arith, h))
  clamp_page_lem (negsuc n) h = (0, ground arith, omega arith)

  clamp_size_lem : (n : ℤ) → (b : ℕ) × (clamp_size web n ≡ pos b) × (b ≤ 100)
  unfolding clamp_size
  clamp_size_lem (pos n) = elim (Bool-cases (ltb_ℤ (pos n) (pos 1) || ltb_ℤ (pos 100) (pos n))) [
    | inl e ↦ (50, rw e refl, omega arith)
    | inr e ↦ (n, rw e refl, ground (arith, e))
  ]
  clamp_size_lem (negsuc n) = (50, ground arith, omega arith)

  length-entries :
      (page n : ℤ) (i : ℕ) (ps : List Player) → length (entries web page n i ps) ≡ length ps
  unfolding entries
  length-entries page n i [] = refl
  length-entries page n i (p ∷ ps) = ap suc (length-entries page n (suc i) ps)

  get_elem?-entries :
      (page n : ℤ) (i j : ℕ) (ps : List Player) (e : LeaderboardEntry F)
      → get_elem? (entries web page n i ps) j ≡ some e
      → (p : Player) × (get_elem? ps j ≡ some p)
        × (entry web ((page -ℤ pos 1) *ℤ n +ℤ pos (i + j) +ℤ pos 1) p ≡ e)
  unfolding entries
  get_elem?-entries page n i j [] e h = absurd (ground (arith, h))
  get_elem?-entries page n i zero (p ∷ ps) e h = (
    p,
    refl,
    subst (λ k. entry web ((page -ℤ pos 1) *ℤ n +ℤ pos k +ℤ pos 1) p ≡ e) (omega arith) (inj h),
  )
    where
      inj : {a b : LeaderboardEntry F} → some a ≡ some b → a ≡ b
      inj h = cc
  get_elem?-entries page n i (suc j) (p ∷ ps) e h =
      let (q, hq, he) = get_elem?-entries page n (suc i) j ps e h in
      (
        q,
        hq,
        subst (λ k. entry web ((page -ℤ pos 1) *ℤ n +ℤ pos k +ℤ pos 1) q ≡ e) (omega arith) he,
      )

  -- The entry's rank counts the active players with a greater rating, and no more than those with
  -- as great a one.
  abbrev pub IsRanked : Tables → LeaderboardEntry F → Type 0
  IsRanked t e =
      (k : ℕ) × (e.rank ≡ pos (suc k))
      × (count (λ p. ltb_ℤ e.elo_rating p.elo_rating) (active_players t) ≤ k)
      × (k < count (λ p. leb_ℤ e.elo_rating p.elo_rating) (active_players t))

  ranked :
      (t : Tables) (a b j : ℕ) (e : LeaderboardEntry F)
      → get_elem?
          (entries web
            (pos (suc a))
            (pos b)
            0
            (page_rows (a * b) b (order_by_desc (λ p. p.elo_rating) (active_players t))))
          j
        ≡ some e
      → IsRanked t e
  ranked t a b j e h =
      let xs = order_by_desc (λ (p : Player). p.elo_rating) (active_players t) in
      let (p, hp, he) = get_elem?-entries (pos (suc a)) (pos b) 0 j (page_rows (a * b) b xs) e h in
      let at = get_elem?-page_rows (a * b) b xs j p hp in
      let d = order_by_desc-IsDescending (λ (q : Player). q.elo_rating) (active_players t) in
      subst (IsRanked t) he (
        a * b + j,
        rw (sub_one a, mul_pos a b, add_pos (a * b) (0 + j), add_pos (a * b + (0 + j)) 1)
            (ap pos (omega arith)),
        subst (λ n. n ≤ a * b + j)
            (count-order_by_desc (λ q. q.elo_rating) (λ q. ltb_ℤ p.elo_rating q.elo_rating)
              (active_players t))
            (count_above (λ q. q.elo_rating) xs (a * b + j) p d at),
        subst (λ n. a * b + j < n)
            (count-order_by_desc (λ q. q.elo_rating) (λ q. leb_ℤ p.elo_rating q.elo_rating)
              (active_players t))
            (count_at_least (λ q. q.elo_rating) xs (a * b + j) p d at),
      )

  -- For every page up to 10^15 and every page size, the leaderboard is answered, with at most 100
  -- entries. Each entry has a rank k + 1 such that at most k active players have a higher rating
  -- than the entry, and more than k have at least its rating.
  pub leaderboard-IsRanked :
      (page n : ℤ) (s : Session)
      → page ≤ℤ pos 1000000000000000
      → (r : LeaderboardResponse F) × ((leaderboard web page n s).0 ≡ ok r)
        × (length r.entries ≤ 100)
        × All (IsRanked s.rows) r.entries
  unfolding leaderboard get_leaderboard
  leaderboard-IsRanked page n s h =
      let (a, ha, la) = clamp_page_lem page h in
      let (b, hb, lb) = clamp_size_lem n in
      let xs =
        page_rows (a * b) b
          (order_by_desc (λ (p : Player). p.elo_rating) (active_players s.rows)) in
      (
        leaderboard_page web (pos (suc a)) (pos b) (xs, length (active_players s.rows)),
        rw (ha, hb, leaderboard)
            (ap (λ x. x.0)
              (>>=_run (get_leaderboard (pos (suc a)) (pos b))
                (λ f. pure (leaderboard_page web (pos (suc a)) (pos b) f)) s
                (xs, length (active_players s.rows))
                (ap (λ x. x.0) (get_leaderboard_lem a b s la lb)))),
        rw (length-entries (pos (suc a)) (pos b) 0 xs) (
            omega (
              arith,
              lb,
              length-take b (
                  drop (a * b)
                    (order_by_desc (λ (p : Player). p.elo_rating) (active_players s.rows))),
            )),
        All_of_get_elem? (IsRanked s.rows) _ (λ i e g. ranked s.rows a b i e g),
      )
