-- ===== src/Database.antt =====
-- The tables of app/models/database.py, their constraints, and the session of SQLAlchemy that the
-- repositories work on (app/persistence/database.py). The tables are lists of rows. A session sees
-- its own writes; a commit stores them, and what a session leaves uncommitted is lost. Sessions
-- run one after the other. A database that cannot be reached is not modelled. What the outside
-- answers (the clock, `uuid4`, texts of UUIDs) is a parameter.
pub mod Rows
pub mod Soundness
pub mod Transactions
use Prim.Native.String.{count}
use game_backend.Base.{
  ℕ, ◌+◌, String, Bool, false, not, ◌&&◌, ◌||◌, Option, none, some, List, [], ◌∷◌, ◌++◌, ℤ, pos,
  negsuc, leb_ℤ, leb, ◌==◌, str_eq, integrity_error, data_error, multiple_results_found, Result, ok,
  raise, Action, if◌then◌else◌,
}
use game_backend.Schemas.{ClientState}

-- A `uuid.UUID`, as its number.
abbrev pub Uuid : Type 0
Uuid = ℕ

pub record Player : Type 0 where
  pub id : Uuid
  pub username : String
  pub email : String
  pub password_hash : String
  pub elo_rating : ℤ
  pub games_played : ℕ
  pub games_won : ℕ
  pub games_lost : ℕ
  pub games_drawn : ℕ
  pub is_active : Bool
  pub is_banned : Bool
  pub created_at : ℕ
  pub updated_at : ℕ
  pub last_login_at : Option ℕ

-- `game_log` is never written.
pub record Match : Type 0 where
  pub id : Uuid
  pub room_id : String
  pub status : String
  pub winner_id : Option Uuid
  pub total_turns : ℕ
  pub duration_seconds : Option ℤ
  pub final_state : Option ClientState
  pub created_at : ℕ
  pub started_at : Option ℕ
  pub ended_at : Option ℕ

pub record MatchParticipant : Type 0 where
  pub id : Uuid
  pub match_id : Uuid
  pub player_id : Uuid
  pub result : Option String
  pub elo_before : ℤ
  pub elo_after : Option ℤ
  pub elo_delta : Option ℤ

pub record Tables : Type 0 where
  pub players : List Player
  pub matches : List Match
  pub participants : List MatchParticipant

-- `saved` is what is committed, `rows` what the session sees. `queries` counts the questions to
-- the outside.
pub record Session : Type 0 where
  pub saved : Tables
  pub rows : Tables
  pub queries : ℕ

-- The n-th question is answered by the n-th answer. `parse_uuid` is `uuid.UUID(text)`, which may
-- raise a `ValueError`; `uuid_text` is `str(id)`.
pub record Outside : Type 0 where
  pub now : ℕ → ℕ
  pub uuid4 : ℕ → Uuid
  pub parse_uuid : String → Option Uuid
  pub uuid_text : Uuid → String

-- Calls of a session in a row. They stay shut, so that what holds of the parts is put together.
infixl 5 ◌>>=◌ ◌>>◌
unfoldable pub ◌>>=◌ : {A B : Type 0} → Action Session A → (A → Action Session B) → Action Session B
◌>>=◌ m f s = let r = m s in elim r.0 [ ok a ↦ f a r.1 | raise e ↦ (raise e, r.1) ]

abbrev pub ◌>>◌ : {A B : Type 0} → Action Session A → Action Session B → Action Session B
m >> k = m >>= λ _. k

-- What an `INTEGER` column holds.
unfoldable pub fits_integer : ℤ → Bool
fits_integer n = leb_ℤ (negsuc 2147483647) n && leb_ℤ n (pos 2147483647)

-- What a `VARCHAR(n)` column holds.
unfoldable pub fits_varchar : ℕ → String → Bool
fits_varchar n s = leb (count s) n

-- Some row passes the test.
abbrev pub any_row {ℓ} : {A : Type ℓ} → (A → Bool) → List A → Bool
any_row p [] = false
any_row p (x ∷ xs) = p x || any_row p xs

-- `WHERE`
abbrev pub where_rows {ℓ} : {A : Type ℓ} → (A → Bool) → List A → List A
where_rows p [] = []
where_rows p (x ∷ xs) = let rest = where_rows p xs in if p x then x ∷ rest else rest

-- `UPDATE ... WHERE`
abbrev pub update_rows {ℓ} : {A : Type ℓ} → (A → Bool) → (A → A) → List A → List A
update_rows p f [] = []
update_rows p f (x ∷ xs) = (if p x then f x else x) ∷ update_rows p f xs

-- `scalar_one_or_none`
unfoldable pub scalar_one_or_none {ℓ} : {A : Type ℓ} → List A → Result (Option A)
scalar_one_or_none [] = ok none
scalar_one_or_none (x ∷ []) = ok (some x)
scalar_one_or_none (x ∷ y ∷ xs) = raise multiple_results_found

abbrev pub player_fits : Player → Bool
player_fits p =
    fits_varchar 50 p.username
    && fits_varchar 255 p.email
    && fits_varchar 255 p.password_hash
    && fits_integer p.elo_rating
    && fits_integer (pos p.games_played)
    && fits_integer (pos p.games_won)
    && fits_integer (pos p.games_lost)
    && fits_integer (pos p.games_drawn)

abbrev pub has_player : Uuid → Tables → Bool
has_player u t = any_row (λ p. p.id == u) t.players

abbrev pub has_match : Uuid → Tables → Bool
has_match u t = any_row (λ m. m.id == u) t.matches

-- The rows share a key.
abbrev pub same_player : Player → Player → Bool
same_player q p = q.id == p.id || str_eq q.username p.username || str_eq q.email p.email

-- The constraints of `players`: the primary key, the unique names and addresses, the columns.
unfoldable pub insert_player : Player → Action Session (Unit {0})
insert_player p s =
    if player_fits p
    then if any_row (λ q. same_player q p) s.rows.players
      then (raise integrity_error, s)
      else (ok tt, record s { rows = record s.rows { players = s.rows.players ++ p ∷ [] } })
    else (raise data_error, s)

unfoldable pub insert_match : Match → Action Session (Unit {0})
insert_match m s =
    if fits_varchar 64 m.room_id
    then if has_match m.id s.rows
      then (raise integrity_error, s)
      else (ok tt, record s { rows = record s.rows { matches = s.rows.matches ++ m ∷ [] } })
    else (raise data_error, s)

-- The row has the other's key, or is about the same player and match.
abbrev pub same_participant : MatchParticipant → MatchParticipant → Bool
same_participant q mp = q.id == mp.id || (q.player_id == mp.player_id && q.match_id == mp.match_id)

-- Both foreign keys, the primary key, and the unique index on player and match.
unfoldable pub insert_participant : MatchParticipant → Action Session (Unit {0})
insert_participant mp s =
    if fits_integer mp.elo_before
    then if has_match mp.match_id s.rows
        && has_player mp.player_id s.rows
        && not (any_row (λ q. same_participant q mp) s.rows.participants)
      then (
        ok tt,
        record s { rows = record s.rows { participants = s.rows.participants ++ mp ∷ [] } },
      )
      else (raise integrity_error, s)
    else (raise data_error, s)

-- `commit` and `rollback`
unfoldable pub commit : Session → Session
commit s = record s { saved = s.rows }

unfoldable pub rollback : Session → Session
rollback s = record s { rows = s.saved }

-- A clock reading and a `uuid4`.
unfoldable pub now : Outside → Action Session ℕ
now out s = (ok (out.now s.queries), record s { queries = s.queries + 1 })

unfoldable pub new_uuid : Outside → Action Session Uuid
new_uuid out s = (ok (out.uuid4 s.queries), record s { queries = s.queries + 1 })

-- A new session on the tables.
abbrev pub open_session : Tables → ℕ → Session
open_session t n = record { saved = t; rows = t; queries = n }

-- `get_db_session` around a handler: a commit after it, a rollback where it raises. The handler's
-- own commits stay. What is left is what is stored.
unfoldable pub with_session : {A : Type 0} → Action Session A → Action Session A
with_session body s =
    let r = body s in elim r.0 [ ok a ↦ (ok a, commit r.1) | raise e ↦ (raise e, rollback r.1) ]
