-- ===== src/Players/Kept.antt =====
-- The players' queries keep the tables sound (`PlayerRepository` of
-- app/persistence/repositories.py).
use game_backend.Base.{
  ℕ, ◌+◌, ◌≡◌, refl, ◌⊎◌, String, Bool, true, false, ℤ, arith, str_eq_iff, ◌==◌, gets,
}
use game_backend.Database.{Uuid, Player, Outside, now, new_uuid, insert_player}
use game_backend.Database.Soundness.{
  IsBalanced, Keeps, Keeps->>=, Keeps->>, insert_player-Keeps, update_players-IsSound,
}
use game_backend.Players.{
  create, update_login_timestamp, update_elo, write_elo, credit, count_result, stamp_login,
  get_by_id, get_by_username, new_player,
}

pub now-Keeps : (out : Outside) → Keeps (now out)
unfolding now
now-Keeps out s h = h

pub new_uuid-Keeps : (out : Outside) → Keeps (new_uuid out)
unfolding new_uuid
new_uuid-Keeps out s h = h

-- The texts that `record_result` passes.
abbrev pub IsResult : String → Type 0
IsResult r = (r ≡ "win") ⊎ (r ≡ "loss") ⊎ (r ≡ "draw")

-- A result's count leaves the keys, the rating and the number of games.
pub count_result_lem :
    (r : String) (p : Player)
    → ((count_result r p).id ≡ p.id)
      × ((count_result r p).username ≡ p.username)
      × ((count_result r p).email ≡ p.email)
      × ((count_result r p).elo_rating ≡ p.elo_rating)
      × ((count_result r p).games_played ≡ p.games_played)
unfolding count_result
count_result_lem r p = ground arith

pub counted_one :
    (r : String) (p : Player)
    → IsResult r
    → (count_result r p).games_won + (count_result r p).games_lost + (count_result r p).games_drawn
      ≡ p.games_won + p.games_lost + p.games_drawn + 1
unfolding count_result
counted_one r p h = ground (arith, h, str_eq_iff r "win", str_eq_iff r "loss", str_eq_iff r "draw")

pub credit-IsBalanced :
    (e : ℤ) (r : String) (time : ℕ) (p : Player)
    → IsResult r
    → IsBalanced p
    → IsBalanced (credit e r time p)
credit-IsBalanced e r time p h b =
    let q = record p { elo_rating = e; games_played = p.games_played + 1; updated_at = time } in
    ground (arith, b, counted_one r q h, count_result_lem r q)

write_elo-Keeps :
    (fits : Bool) (u : Uuid) (e : ℤ) (r : String) (time : ℕ)
    → IsResult r
    → Keeps (write_elo fits u (credit e r time))
write_elo-Keeps false u e r time c s h = h
write_elo-Keeps true u e r time c s h =
    let f = λ (p : Player). record p {
      elo_rating = e;
      games_played = p.games_played + 1;
      updated_at = time;
    } in
    update_players-IsSound (λ x. x.id == u) (credit e r time) s.rows
      (λ x. (count_result_lem r (f x)).0) (λ x. (count_result_lem r (f x)).1)
      (λ x. (count_result_lem r (f x)).2) (λ x b. credit-IsBalanced e r time x c b) h

module _ (out : Outside) where
  pub create-Keeps : (name email hash : String) → Keeps (create out name email hash)
  unfolding create
  create-Keeps name email hash = Keeps->>= (new_uuid out) _ (new_uuid-Keeps out) (λ u.
      Keeps->>= (now out) _ (now-Keeps out) (λ time.
        Keeps->> (insert_player (new_player u name email hash time)) _
          (insert_player-Keeps (new_player u name email hash time) refl) (λ s h. h)))

  pub update_login_timestamp-Keeps : (u : Uuid) → Keeps (update_login_timestamp out u)
  unfolding update_login_timestamp
  update_login_timestamp-Keeps u = Keeps->>= (now out) _ (now-Keeps out) (λ at.
      Keeps->>= (now out) _ (now-Keeps out) (λ time s h.
        update_players-IsSound (λ x. x.id == u) (stamp_login at time) s.rows (λ x. refl) (λ x. refl)
          (λ x. refl) (λ x b. b) h))

  pub update_elo-Keeps : (u : Uuid) (e : ℤ) (r : String) → IsResult r → Keeps (update_elo out u e r)
  unfolding update_elo
  update_elo-Keeps u e r c = Keeps->>= (now out) _ (now-Keeps out) (λ time.
      Keeps->>= (gets (λ s. s.rows.players)) _ (λ s h. h) (λ rows. write_elo-Keeps _ u e r time c))

-- The reads change nothing.
pub get_by_username-Keeps : (name : String) → Keeps (get_by_username name)
unfolding get_by_username
get_by_username-Keeps name s h = h

pub get_by_id-Keeps : (u : Uuid) → Keeps (get_by_id u)
unfolding get_by_id
get_by_id-Keeps u s h = h
