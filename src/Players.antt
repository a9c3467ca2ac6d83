-- ===== src/Players.antt =====
-- The players' queries: `PlayerRepository` of app/persistence/repositories.py.
pub mod Kept
pub mod Ranks
use game_backend.Base.{
  ℕ, ◌+◌, String, Bool, true, false, ◌&&◌, Option, none, some, List, [], ◌∷◌, ℤ, pos, pos_part,
  ◌-ℤ◌, ◌*ℤ◌, leb_ℤ, ◌==◌, str_eq, length, take, drop, data_error, ok, raise, Action, pure, fail,
  gets, modify, if◌then◌else◌,
}
use game_backend.Database.{
  ◌>>=◌, ◌>>◌, Uuid, Player, Tables, Session, Outside, fits_integer, where_rows, update_rows,
  scalar_one_or_none, insert_player, now, new_uuid,
}

-- A player with the columns' defaults.
abbrev pub new_player : Uuid → String → String → String → ℕ → Player
new_player u username email password_hash time = record {
  id = u;
  username = username;
  email = email;
  password_hash = password_hash;
  elo_rating = pos 1000;
  games_played = 0;
  games_won = 0;
  games_lost = 0;
  games_drawn = 0;
  is_active = true;
  is_banned = false;
  created_at = time;
  updated_at = time;
  last_login_at = none;
}

-- `get_by_id`
unfoldable pub get_by_id : Uuid → Action Session (Option Player)
get_by_id u s = (scalar_one_or_none (where_rows (λ p. p.id == u) s.rows.players), s)

-- `get_by_username`
unfoldable pub get_by_username : String → Action Session (Option Player)
get_by_username name s =
    (scalar_one_or_none (where_rows (λ p. str_eq p.username name) s.rows.players), s)

-- The players' rows, updated.
abbrev pub set_players : (Uuid → Bool) → (Player → Player) → Session → Session
set_players p f s = record s {
  rows = record s.rows { players = update_rows (λ x. p x.id) f s.rows.players };
}

abbrev pub stamp_login : ℕ → ℕ → Player → Player
stamp_login at time p = record p { last_login_at = some at; updated_at = time }

-- The counter that a result counts in.
unfoldable pub count_result : String → Player → Player
count_result result p =
    if str_eq result "win"
    then record p { games_won = p.games_won + 1 }
    else if str_eq result "loss"
    then record p { games_lost = p.games_lost + 1 }
    else if str_eq result "draw"
    then record p { games_drawn = p.games_drawn + 1 }
    else p

-- The row that `update_elo` writes, at a time.
abbrev pub credit : ℤ → String → ℕ → Player → Player
credit new_elo result time p =
    count_result result
      (record p { elo_rating = new_elo; games_played = p.games_played + 1; updated_at = time })

-- The counters of a row are integers that their columns hold.
unfoldable pub counters_fit : Player → Bool
counters_fit p =
    fits_integer (pos p.games_played)
    && fits_integer (pos p.games_won)
    && fits_integer (pos p.games_lost)
    && fits_integer (pos p.games_drawn)

-- Every row that passes the test has counters that fit after the update.
unfoldable pub all_fit : (Player → Bool) → (Player → Player) → List Player → Bool
all_fit p f [] = true
all_fit p f (x ∷ xs) = (if p x then counters_fit (f x) else true) && all_fit p f xs

-- The update of a player's row, if it fits.
abbrev pub write_elo : Bool → Uuid → (Player → Player) → Action Session (Unit {0})
write_elo fits u f = if fits then modify (set_players (λ i. i == u) f) else fail data_error

module _ (out : Outside) where
  -- `PlayerRepository.create`; the server's clock dates the row.
  unfoldable pub create : String → String → String → Action Session Player
  create username email password_hash = do
    u ← new_uuid out
    time ← now out
    insert_player (new_player u username email password_hash time)
    pure (new_player u username email password_hash time)

  -- `update_login_timestamp`
  unfoldable pub update_login_timestamp : Uuid → Action Session (Unit {0})
  update_login_timestamp u = do
    at ← now out
    time ← now out
    modify (set_players (λ i. i == u) (stamp_login at time))

  -- `update_elo`
  unfoldable pub update_elo : Uuid → ℤ → String → Action Session (Unit {0})
  update_elo u new_elo result = do
    time ← now out
    rows ← gets (λ s. s.rows.players)
    write_elo (fits_integer new_elo && all_fit (λ x. x.id == u) (credit new_elo result time) rows) u
        (credit new_elo result time)

-- `ORDER BY key DESC`. PostgreSQL leaves the order of equal rows open; here they keep the order of
-- the table.
module _ {A : Type 0} (key : A → ℤ) where
  unfoldable pub put_desc : A → List A → List A
  put_desc x [] = x ∷ []
  put_desc x (y ∷ ys) =
      let rest = put_desc x ys in if leb_ℤ (key y) (key x) then x ∷ y ∷ ys else y ∷ rest

  unfoldable pub order_by_desc : List A → List A
  order_by_desc [] = []
  order_by_desc (x ∷ xs) = put_desc x (order_by_desc xs)

-- `OFFSET n LIMIT k`
abbrev pub page_rows {ℓ} : {A : Type ℓ} → ℕ → ℕ → List A → List A
page_rows n k xs = take k (drop n xs)

abbrev pub active_players : Tables → List Player
active_players t = where_rows (λ p. p.is_active) t.players

-- What an `OFFSET` or a `LIMIT` may be.
abbrev pub fits_limit : ℤ → Bool
fits_limit n = leb_ℤ (pos 0) n && leb_ℤ n (pos 9223372036854775807)

-- `PlayerRepository.get_leaderboard`
unfoldable pub get_leaderboard : ℤ → ℤ → Action Session (List Player × ℕ)
get_leaderboard page page_size s =
    let offset = (page -ℤ pos 1) *ℤ page_size in
    let actives = active_players s.rows in
    if fits_limit offset && fits_limit page_size
    then (
      ok (
        page_rows (pos_part offset) (pos_part page_size)
            (order_by_desc (λ p. p.elo_rating) actives),
        length actives,
      ),
      s,
    )
    else (raise data_error, s)
