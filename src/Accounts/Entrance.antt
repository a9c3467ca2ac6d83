-- ===== src/Accounts/Entrance.antt =====
-- Registration and login (app/api/rest_routes.py): every answer, and that they fit together.
use game_backend.Base.{
  ℕ, ◌+◌, ◌≡◌, refl, ◌∙◌, ap, sym, subst, inl, inr, String, Bool, true, false, Option, none, some,
  [], ◌∷◌, ◌++◌, arith, Bool-cases, str_eq, str_eq_iff, http_exception, integrity_error, data_error,
  Result, ok, raise, pure, modify,
}
use game_backend.Auth.{create_access_token}
use game_backend.Database.{
  ◌>>=◌, ◌>>◌, Player, Session, Tables, any_row, commit, rollback, open_session, player_fits,
  same_player, insert_player, now, new_uuid, with_session,
}
use game_backend.Database.Rows.{first_row, scalar_one_or_none_lem}
use game_backend.Database.Soundness.{IsSound}
use game_backend.Database.Transactions.{>>=_run}
use game_backend.Players.{new_player, create, get_by_username}
use game_backend.Accounts.{
  PlayerRegisterRequest, PlayerLoginResponse, Web, is_valid, hash_password, with_token,
  register_new, register_player,
}

-- The player of a name.
abbrev pub named : String → Tables → Option Player
named name t = first_row (λ p. str_eq p.username name) t.players

pub get_by_username_lem :
    (name : String) (s : Session)
    → IsSound s.rows
    → get_by_username name s ≡ (ok (named name s.rows), s)
unfolding get_by_username
get_by_username_lem name s h =
    rw
      (scalar_one_or_none_lem same_player (λ p. str_eq p.username name) s.rows.players
        (λ x y a b. ground (
          arith,
          str_eq_iff x.username name,
          str_eq_iff y.username name,
          str_eq_iff x.username y.username,
          a,
          b,
        ))
        h.players)
      refl

-- What an insertion does.
abbrev pub inserted : Player → Session → Bool → Bool → Result (Unit {0}) × Session
inserted p s false taken = (raise data_error, s)
inserted p s true true = (raise integrity_error, s)
inserted p s true false =
    (ok tt, record s { rows = record s.rows { players = s.rows.players ++ p ∷ [] } })

pub insert_player_lem :
    (p : Player) (s : Session)
    → insert_player p s
      ≡ inserted p s (player_fits p) (any_row (λ q. same_player q p) s.rows.players)
unfolding insert_player
insert_player_lem p s = elim (Bool-cases (player_fits p)) [
  | inr e ↦ rw e refl
  | inl e ↦ elim (Bool-cases (any_row (λ q. same_player q p) s.rows.players)) [
    | inl d ↦ rw (e, d) refl
    | inr d ↦ rw (e, d) refl
  ]
]

module _ {Token F : Type 0} (web : Web Token F) where
  open web use {db}

  -- The row that a registration adds, on a session's n-th question.
  abbrev pub registered : PlayerRegisterRequest → ℕ → Player
  registered r n =
      new_player (db.uuid4 (n + 1)) r.username r.email (web.hash n r.password) (db.now (n + 1 + 1))

  abbrev pub answer : Player → ℕ → PlayerLoginResponse Token
  answer p n = record {
    access_token = create_access_token web.jwt (db.uuid_text p.id) [] (db.now n);
    player_id = db.uuid_text p.id;
    username = p.username;
    elo_rating = p.elo_rating;
  }

  abbrev pub with_player : Player → Tables → Tables
  with_player p t = record t { players = t.players ++ p ∷ [] }

  -- What `/register` answers and leaves stored: on whether the body is valid, who has the name,
  -- whether the row fits its columns, and whether a key of it is taken.
  abbrev pub RegistersOn :
      PlayerRegisterRequest
      → ℕ
      → Tables
      → Bool
      → Option Player
      → Bool
      → Bool
      → Result (PlayerLoginResponse Token)
      → Tables
      → Type 0
  RegistersOn r n t false o fits taken a t' = (a ≡ raise (http_exception 422)) × (t' ≡ t)
  RegistersOn r n t true (some p) fits taken a t' = (a ≡ raise (http_exception 409)) × (t' ≡ t)
  RegistersOn r n t true none false taken a t' = (a ≡ raise data_error) × (t' ≡ t)
  RegistersOn r n t true none true true a t' = (a ≡ raise integrity_error) × (t' ≡ t)
  RegistersOn r n t true none true false a t' =
      (a ≡ ok (answer (registered r n) (n + 1 + 1 + 1))) × (t' ≡ with_player (registered r n) t)

  abbrev pub Registers :
      PlayerRegisterRequest → ℕ → Tables → Result (PlayerLoginResponse Token) → Tables → Type 0
  Registers r n t =
      RegistersOn r n t (is_valid r) (named r.username t) (player_fits (registered r n))
        (any_row (λ q. same_player q (registered r n)) t.players)

  -- The handler on a name that nobody has.
  abbrev after_insert :
      PlayerRegisterRequest → Session → Bool → Bool → Result (PlayerLoginResponse Token) × Session
  after_insert r s false taken = (raise data_error, record s { queries = s.queries + 1 + 1 + 1 })
  after_insert r s true true = (raise integrity_error, record s { queries = s.queries + 1 + 1 + 1 })
  after_insert r s true false =
      let p = registered r s.queries in
      let t = with_player p s.rows in
      (
        ok (answer p (s.queries + 1 + 1 + 1)),
        record { saved = t; rows = t; queries = s.queries + 1 + 1 + 1 + 1 },
      )

  -- The handler after the insertion, which may have raised.
  abbrev after_create :
      Player → Result (Unit {0}) × Session → Result (PlayerLoginResponse Token) × Session
  after_create p x =
      (((λ _. x) >> pure p) >>= (λ player. modify commit >> with_token web player)) x.1

  register_fresh :
      (r : PlayerRegisterRequest) (s : Session)
      → register_new web r none s
        ≡ after_insert r s
            (player_fits (registered r s.queries))
            (any_row (λ q. same_player q (registered r s.queries)) s.rows.players)
  unfolding register_new hash_password create now new_uuid ◌>>=◌ commit with_token
  register_fresh r s =
      let p = registered r s.queries in
      let s' = record s { queries = s.queries + 1 + 1 + 1 } in
      let taken = any_row (λ q. same_player q p) s.rows.players in
      subst (λ x. after_create p x ≡ after_insert r s (player_fits p) taken)
        (sym (insert_player_lem p s')) (cases r s (player_fits p) taken)
    where
      cases :
          (r : PlayerRegisterRequest) (s : Session) (fits taken : Bool)
          → after_create (registered r s.queries) (
              inserted
                (registered r s.queries)
                (record s { queries = s.queries + 1 + 1 + 1 })
                fits
                taken)
            ≡ after_insert r s fits taken
      cases r s false taken = refl
      cases r s true true = refl
      cases r s true false = refl

  -- The handler's run, by the same cases.
  abbrev run_of :
      PlayerRegisterRequest
      → Session
      → Bool
      → Option Player
      → Bool
      → Bool
      → Result (PlayerLoginResponse Token) × Session
  run_of r s false o fits taken = (raise (http_exception 422), s)
  run_of r s true (some p) fits taken = (raise (http_exception 409), s)
  run_of r s true none fits taken = after_insert r s fits taken

  register_new_lem :
      (r : PlayerRegisterRequest) (s : Session) (o : Option Player)
      → register_new web r o s
        ≡ run_of r s true o
            (player_fits (registered r s.queries))
            (any_row (λ q. same_player q (registered r s.queries)) s.rows.players)
  unfolding register_new
  register_new_lem r s none = register_fresh r s
  register_new_lem r s (some p) = refl

  register_player_lem :
      (r : PlayerRegisterRequest) (s : Session)
      → IsSound s.rows
      → register_player web r s
        ≡ run_of r s
            (is_valid r)
            (named r.username s.rows)
            (player_fits (registered r s.queries))
            (any_row (λ q. same_player q (registered r s.queries)) s.rows.players)
  unfolding register_player get_by_username
  register_player_lem r s h = elim (Bool-cases (is_valid r)) [
    | inr v ↦ rw (v, register_player) refl
    | inl v ↦
        rw (v, register_player)
          (>>=_run (get_by_username r.username) (register_new web r) s (named r.username s.rows)
              (ap (λ x. x.0) (get_by_username_lem r.username s h))
            ∙ register_new_lem r s (named r.username s.rows))
  ]

  ended :
      (r : PlayerRegisterRequest) (t : Tables) (n : ℕ) (valid : Bool) (o : Option Player)
      (fits taken : Bool)
      → (let x =
            with_session (λ _. run_of r (open_session t n) valid o fits taken) (open_session t n) in
          RegistersOn r n t valid o fits taken x.0 x.1.saved)
  unfolding with_session commit rollback
  ended r t n false o fits taken = (refl, refl)
  ended r t n true (some p) fits taken = (refl, refl)
  ended r t n true none false taken = (refl, refl)
  ended r t n true none true true = (refl, refl)
  ended r t n true none true false = (refl, refl)

  -- What a registration on sound tables answers and stores, on each branch: 422 for a request
  -- that the schema refuses, 409 for a username that is taken, a data error for a row that does
  -- not fit its columns, an integrity error for an identifier or email that is taken, each with
  -- the tables unchanged; and else a token for the new player, whose row is then stored after the
  -- others.
  pub register_player-Registers :
      (r : PlayerRegisterRequest) (t : Tables) (n : ℕ)
      → IsSound t
      → Registers r n t
          (with_session (register_player web r) (open_session t n)).0
          (with_session (register_player web r) (open_session t n)).1.saved
  unfolding with_session
  register_player-Registers r t n h =
      subst
        (λ y.
          Registers r n t (with_session (λ _. y) (open_session t n)).0
            (with_session (λ _. y) (open_session t n)).1.saved)
        (sym (register_player_lem r (open_session t n) h))
        (ended r t n (is_valid r) (named r.username t) (player_fits (registered r n))
          (any_row (λ q. same_player q (registered r n)) t.players))
