-- ===== src/Database/Transactions.antt =====
-- What a call of a session stores: nothing before its commit; and what a call that returns has
-- done on its way.
use game_backend.Base.{◌≡◌, refl, ◌∙◌, arith, Result-cases, inl, inr, Error, ok, raise, Action}
use game_backend.Database.{
  ◌>>=◌, ◌>>◌, Outside, Session, Player, Match, MatchParticipant, insert_player, insert_match,
  insert_participant, now, new_uuid,
}

-- A call that commits nothing.
abbrev pub Leaves : {A : Type 0} → Action Session A → Type 0
Leaves m = (s : Session) → (m s).1.saved ≡ s.saved

pub Leaves->>= :
    {A B : Type 0} (m : Action Session A) (f : A → Action Session B)
    → Leaves m
    → ((a : A) → Leaves (f a))
    → Leaves (m >>= f)
unfolding ◌>>=◌
Leaves->>= m f lm lf s = elim (Result-cases (m s).0) [
  | inl (e, r) ↦ rw (r, ◌>>=◌) (lm s)
  | inr (a, r) ↦ rw (r, ◌>>=◌) (lf a (m s).1 ∙ lm s)
]

pub Leaves->> :
    {A B : Type 0} (m : Action Session A) (k : Action Session B)
    → Leaves m
    → Leaves k
    → Leaves (m >> k)
Leaves->> m k lm lk = Leaves->>= m (λ _. k) lm (λ _. lk)

pub insert_player-Leaves : (p : Player) → Leaves (insert_player p)
unfolding insert_player
insert_player-Leaves p s = ground arith

pub insert_match-Leaves : (m : Match) → Leaves (insert_match m)
unfolding insert_match
insert_match-Leaves m s = ground arith

pub insert_participant-Leaves : (mp : MatchParticipant) → Leaves (insert_participant mp)
unfolding insert_participant
insert_participant-Leaves mp s = ground arith

pub now-Leaves : (out : Outside) → Leaves (now out)
unfolding now
now-Leaves out s = refl

pub new_uuid-Leaves : (out : Outside) → Leaves (new_uuid out)
unfolding new_uuid
new_uuid-Leaves out s = refl

-- A run that returns has run its first part to an answer, and the rest from there.
pub >>=_inv :
    {A B : Type 0} (m : Action Session A) (f : A → Action Session B) (s : Session) {b : B}
    → ((m >>= f) s).0 ≡ ok b
    → (a : A) × ((m s).0 ≡ ok a) × ((f a (m s).1).0 ≡ ok b) × (((m >>= f) s).1 ≡ (f a (m s).1).1)
unfolding ◌>>=◌
>>=_inv m f s h = elim (Result-cases (m s).0) [
  | inl (e, r) ↦ absurd (ground (arith, h, r))
  | inr (a, r) ↦ (a, r, ground (arith, h, r), rw (r, ◌>>=◌) refl)
]

-- A run whose first part returns goes on from there.
pub >>=_run :
    {A B : Type 0} (m : Action Session A) (f : A → Action Session B) (s : Session) (a : A)
    → (m s).0 ≡ ok a
    → (m >>= f) s ≡ f a (m s).1
unfolding ◌>>=◌
>>=_run m f s a r = rw (r, ◌>>=◌) refl

-- A run whose first part raises ends there.
pub >>=_fail :
    {A B : Type 0} (m : Action Session A) (f : A → Action Session B) (s : Session) (e : Error)
    → (m s).0 ≡ raise e
    → (m >>= f) s ≡ (raise e, (m s).1)
unfolding ◌>>=◌
>>=_fail m f s e r = rw (r, ◌>>=◌) refl
