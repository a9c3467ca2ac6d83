-- ===== src/Matches/Storing.antt =====
-- A game of two known players is stored (`_persist_result` of app/core/game_engine.py): the calls
-- of its session return.
use game_backend.Base.{
  ℕ, suc, ◌+◌, ◌≤◌, ◌≡◌, refl, ◌∙◌, ap, sym, subst, String, Bool, true, false, Option, some, List,
  [], ◌∷◌, ℤ, pos, arith, Dict, length, All, ◌==◌, ok, lift, if◌then◌else◌,
}
use game_backend.Database.{◌>>=◌, Uuid, Player, Session, Outside, update_rows, fits_integer, now}
use game_backend.Database.Soundness.{IsBalanced}
use game_backend.Database.Transactions.{>>=_run}
use game_backend.Players.{update_elo, credit, counters_fit, all_fit}
use game_backend.Players.Kept.{IsResult, credit-IsBalanced, count_result_lem}
use game_backend.Matches.{result_text, uuid_of, set_participant, record_changes}
use game_backend.Matches.Kept.{result_text-IsResult}

-- The player's counters can take `k` more games.
abbrev pub HasRoom : ℕ → Player → Type 0
HasRoom k p = (p.games_played + k ≤ 2147483647) × IsBalanced p

fits_below : (n : ℕ) → n ≤ 2147483647 → fits_integer (pos n) ≡ true
unfolding fits_integer
fits_below n h = ground (arith, h)

credit-HasRoom :
    (e : ℤ) (r : String) (time k : ℕ) (p : Player)
    → IsResult r
    → HasRoom (suc k) p
    → HasRoom k (credit e r time p)
credit-HasRoom e r time k p h room =
    let q = record p { elo_rating = e; games_played = p.games_played + 1; updated_at = time } in
    (ground (arith, room.0, count_result_lem r q), credit-IsBalanced e r time p h room.1)

HasRoom-fits : (k : ℕ) (p : Player) → HasRoom k p → counters_fit p ≡ true
unfolding counters_fit
HasRoom-fits k p h = ground (
  arith,
  fits_below p.games_played (omega (arith, h.0)),
  fits_below p.games_won (omega (arith, h.0, h.1)),
  fits_below p.games_lost (omega (arith, h.0, h.1)),
  fits_below p.games_drawn (omega (arith, h.0, h.1)),
)

all_fit_lem :
    (u : Uuid) (e : ℤ) (r : String) (time k : ℕ) (ps : List Player)
    → IsResult r
    → All (HasRoom (suc k)) ps
    → all_fit (λ p. p.id == u) (credit e r time) ps ≡ true
unfolding all_fit
all_fit_lem u e r time k [] h room = refl
all_fit_lem u e r time k (p ∷ ps) h room = ground (
  arith,
  HasRoom-fits k (credit e r time p) (credit-HasRoom e r time k p h room.0),
  all_fit_lem u e r time k ps h room.1,
)

credited-HasRoom :
    (u : Uuid) (e : ℤ) (r : String) (time k : ℕ) (ps : List Player)
    → IsResult r
    → All (HasRoom (suc k)) ps
    → All (HasRoom k) (update_rows (λ p. p.id == u) (credit e r time) ps)
credited-HasRoom u e r time k [] h room = tt
credited-HasRoom u e r time k (p ∷ ps) h room =
    (one (p.id == u), credited-HasRoom u e r time k ps h room.1)
  where
    one : (b : Bool) → HasRoom k (if b then credit e r time p else p)
    one true = credit-HasRoom e r time k p h room.0
    one false = (omega (arith, room.0.0), room.0.1)

module _ (out : Outside) where
  -- A rating change that the tables can take.
  abbrev pub IsGood : String × (ℤ × ℤ) → Type 0
  IsGood (pid, (e, d)) =
      ((i : Uuid) × (out.parse_uuid pid ≡ some i))
      × (fits_integer e ≡ true)
      × (fits_integer d ≡ true)

  update_elo_run :
      (u : Uuid) (e : ℤ) (r : String) (k : ℕ) (s : Session)
      → IsResult r
      → fits_integer e ≡ true
      → All (HasRoom (suc k)) s.rows.players
      → ((update_elo out u e r s).0 ≡ ok tt)
        × All (HasRoom k) (update_elo out u e r s).1.rows.players
  unfolding update_elo now ◌>>=◌
  update_elo_run u e r k s h f room =
      rw (f, all_fit_lem u e r (out.now s.queries) k s.rows.players h room, update_elo)
        (refl, credited-HasRoom u e r (out.now s.queries) k s.rows.players h room)

  set_participant_run :
      (u i : Uuid) (r : String) (e d : ℤ) (s : Session)
      → fits_integer e ≡ true
      → fits_integer d ≡ true
      → ((set_participant out u i r e d s).0 ≡ ok tt)
        × ((set_participant out u i r e d s).1.rows.players ≡ s.rows.players)
  unfolding set_participant
  set_participant_run u i r e d s fe fd = rw (fe, fd) (refl, refl)

  pub record_changes_run :
      (u : Uuid) (w : Option String) (changes : Dict (ℤ × ℤ)) (s : Session)
      → All IsGood changes
      → All (HasRoom (length changes)) s.rows.players
      → (record_changes out u w changes s).0 ≡ ok tt
  unfolding record_changes
  record_changes_run u w [] s good room = refl
  record_changes_run u w ((pid, (e, d)) ∷ changes) s good room =
      let ((i, hi), fe, fd) = good.0 in
      let r = result_text w pid in
      let s1 = (set_participant out u i r e d s).1 in
      let q = set_participant_run u i r e d s fe fd in
      let (h2, room2) =
        update_elo_run i e r (length changes) s1 (result_text-IsResult w pid) fe
          (subst (All (HasRoom (suc (length changes)))) (sym q.1) room) in
      ap (λ x. x.0)
        (>>=_run (lift (uuid_of out pid)) _ s i (rw (hi, uuid_of) refl)
          ∙ >>=_run (set_participant out u i r e d) _ s tt q.0
          ∙ >>=_run (update_elo out i e r) _ s1 tt h2)
      ∙ record_changes_run u w changes (update_elo out i e r s1).1 good.1 room2
