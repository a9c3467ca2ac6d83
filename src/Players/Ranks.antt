-- ===== src/Players/Ranks.antt =====
-- The order of the leaderboard (`get_leaderboard` of app/persistence/repositories.py).
use game_backend.Base.{
  ℕ, zero, suc, ◌≤◌, ◌<◌, ◌≡◌, refl, ◌∙◌, ap, subst, Bool, true, some, List, [], ◌∷◌, ℤ, leb_ℤ,
  ltb_ℤ, arith, Bool-cases, inl, inr, get_elem?, All, All-get_elem?, if◌then◌else◌,
}
use game_backend.Players.{order_by_desc, put_desc}

-- The number of items that pass a test.
abbrev pub count {ℓ} : {A : Type ℓ} → (A → Bool) → List A → ℕ
count p [] = 0
count p (x ∷ xs) = if p x then suc (count p xs) else count p xs

some_inj : {A : Type 0} {a b : A} → some a ≡ some b → a ≡ b
some_inj e = cc

module _ {A : Type 0} (key : A → ℤ) where
  -- No item's key is above its predecessor's.
  abbrev pub IsDescending : List A → Type 0
  IsDescending [] = Unit
  IsDescending (x ∷ xs) = All (λ y. leb_ℤ (key y) (key x) ≡ true) xs × IsDescending xs

  count-put_desc :
      (p : A → Bool) (x : A) (xs : List A) → count p (put_desc key x xs) ≡ count p (x ∷ xs)
  unfolding put_desc
  count-put_desc p x [] = refl
  count-put_desc p x (y ∷ ys) = ground (arith, count-put_desc p x ys)

  pub count-order_by_desc :
      (p : A → Bool) (xs : List A) → count p (order_by_desc key xs) ≡ count p xs
  unfolding order_by_desc
  count-order_by_desc p [] = refl
  count-order_by_desc p (x ∷ xs) =
      count-put_desc p x (order_by_desc key xs)
      ∙ ap (λ n. if p x then suc n else n) (count-order_by_desc p xs)

  All-put_desc : (P : A → Type 0) (x : A) (xs : List A) → P x → All P xs → All P (put_desc key x xs)
  unfolding put_desc
  All-put_desc P x [] h hs = (h, tt)
  All-put_desc P x (y ∷ ys) h hs = elim (Bool-cases (leb_ℤ (key y) (key x))) [
    | inl e ↦ rw e (h, hs)
    | inr e ↦ rw e (hs.0, All-put_desc P x ys h hs.1)
  ]

  All_below :
      (x y : A) (ys : List A)
      → leb_ℤ (key y) (key x) ≡ true
      → All (λ z. leb_ℤ (key z) (key y) ≡ true) ys
      → All (λ z. leb_ℤ (key z) (key x) ≡ true) ys
  All_below x y [] h hs = tt
  All_below x y (z ∷ zs) h hs = (ground (arith, h, hs.0), All_below x y zs h hs.1)

  put_desc-IsDescending : (x : A) (xs : List A) → IsDescending xs → IsDescending (put_desc key x xs)
  unfolding put_desc
  put_desc-IsDescending x [] d = (tt, tt)
  put_desc-IsDescending x (y ∷ ys) d = elim (Bool-cases (leb_ℤ (key y) (key x))) [
    | inl e ↦ rw e ((e, All_below x y ys e d.0), d)
    | inr e ↦ rw e (
      All-put_desc (λ z. leb_ℤ (key z) (key y) ≡ true) x ys (ground (arith, e)) d.0,
      put_desc-IsDescending x ys d.1,
    )
  ]

  pub order_by_desc-IsDescending : (xs : List A) → IsDescending (order_by_desc key xs)
  unfolding order_by_desc
  order_by_desc-IsDescending [] = tt
  order_by_desc-IsDescending (x ∷ xs) =
      put_desc-IsDescending x (order_by_desc key xs) (order_by_desc-IsDescending xs)

  none_above :
      (x : A) (xs : List A)
      → All (λ y. leb_ℤ (key y) (key x) ≡ true) xs
      → count (λ y. ltb_ℤ (key x) (key y)) xs ≡ 0
  none_above x [] h = refl
  none_above x (y ∷ ys) h = ground (arith, h.0, none_above x ys h.1)

  -- At most `k` items have a greater key than the item at the index `k`.
  pub count_above :
      (xs : List A) (k : ℕ) (x : A)
      → IsDescending xs
      → get_elem? xs k ≡ some x
      → count (λ y. ltb_ℤ (key x) (key y)) xs ≤ k
  count_above [] k x d e = cc
  count_above (y ∷ ys) zero x d e =
      subst (λ z. count (λ w. ltb_ℤ (key z) (key w)) (y ∷ ys) ≤ 0) (some_inj e)
        (ground (arith, none_above y ys d.0))
  count_above (y ∷ ys) (suc k) x d e = ground (arith, count_above ys k x d.1 e)

  -- More than `k` items have at least the key of the item at the index `k`.
  pub count_at_least :
      (xs : List A) (k : ℕ) (x : A)
      → IsDescending xs
      → get_elem? xs k ≡ some x
      → k < count (λ y. leb_ℤ (key x) (key y)) xs
  count_at_least [] k x d e = cc
  count_at_least (y ∷ ys) zero x d e =
      subst (λ z. 0 < count (λ w. leb_ℤ (key z) (key w)) (y ∷ ys)) (some_inj e) (ground arith)
  count_at_least (y ∷ ys) (suc k) x d e = ground (
    arith,
    count_at_least ys k x d.1 e,
    All-get_elem? (λ z. leb_ℤ (key z) (key y) ≡ true) ys k d.0 e,
  )
