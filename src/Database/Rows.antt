-- ===== src/Database/Rows.antt =====
-- Rows: tables without two rows that share a key, and what insertions and updates keep of them.
use game_backend.Base.{
  ◌≡◌, refl, Bool, true, false, ◌||◌, Option, none, some, List, [], ◌∷◌, ◌++◌, arith, All, ok,
  if◌then◌else◌,
}
use game_backend.Database.{any_row, where_rows, update_rows, scalar_one_or_none}

-- No row is the same as a later one.
abbrev pub IsDistinct {ℓ} : {A : Type ℓ} → (A → A → Bool) → List A → Type 0
IsDistinct same [] = Unit
IsDistinct same (x ∷ xs) = (any_row (same x) xs ≡ false) × IsDistinct same xs

-- The first row that passes the test.
abbrev pub first_row {ℓ} : {A : Type ℓ} → (A → Bool) → List A → Option A
first_row p [] = none
first_row p (x ∷ xs) = if p x then some x else first_row p xs

abbrev pub on_row {ℓ κ} : {A : Type ℓ} {B : Type κ} → (A → B) → Option A → Option B
on_row f none = none
on_row f (some a) = some (f a)

module _ {ℓ} {A : Type ℓ} where
  pub any_row-append :
      (p : A → Bool) (xs ys : List A) → any_row p (xs ++ ys) ≡ (any_row p xs || any_row p ys)
  any_row-append p [] ys = refl
  any_row-append p (x ∷ xs) ys = ground (arith, any_row-append p xs ys)

  pub IsDistinct-append_one :
      (same : A → A → Bool) (xs : List A) (y : A)
      → any_row (λ x. same x y) xs ≡ false
      → IsDistinct same xs
      → IsDistinct same (xs ++ y ∷ [])
  IsDistinct-append_one same [] y h d = (refl, tt)
  IsDistinct-append_one same (x ∷ xs) y h d = (
    ground (arith, h, d.0, any_row-append (same x) xs (y ∷ [])),
    IsDistinct-append_one same xs y (ground (arith, h)) d.1,
  )

  pub any_row-update_rows :
      (q p : A → Bool) (f : A → A) (xs : List A)
      → ((x : A) → q (f x) ≡ q x)
      → any_row q (update_rows p f xs) ≡ any_row q xs
  any_row-update_rows q p f [] h = refl
  any_row-update_rows q p f (x ∷ xs) h = ground (arith, h x, any_row-update_rows q p f xs h)

  any_row_ext : (q r : A → Bool) (xs : List A) → ((x : A) → q x ≡ r x) → any_row q xs ≡ any_row r xs
  any_row_ext q r [] h = refl
  any_row_ext q r (x ∷ xs) h = ground (arith, h x, any_row_ext q r xs h)

  -- An update that leaves the keys alone.
  pub IsDistinct-update_rows :
      (same : A → A → Bool) (p : A → Bool) (f : A → A) (xs : List A)
      → ((x y : A) → same x (f y) ≡ same x y)
      → ((x y : A) → same (f x) y ≡ same x y)
      → IsDistinct same xs
      → IsDistinct same (update_rows p f xs)
  IsDistinct-update_rows same p f [] right left d = tt
  IsDistinct-update_rows same p f (x ∷ xs) right left d = (
    ground (
      arith,
      d.0,
      any_row-update_rows (same x) p f xs (right x),
      any_row-update_rows (same (f x)) p f xs (right (f x)),
      any_row_ext (same (f x)) (same x) xs (left x),
    ),
    IsDistinct-update_rows same p f xs right left d.1,
  )

  -- An update at the rows of another key is not seen, and one at the key is.
  pub first_row-update_rows_self :
      (p : A → Bool) (f : A → A) (xs : List A)
      → ((x : A) → p (f x) ≡ p x)
      → first_row p (update_rows p f xs) ≡ on_row f (first_row p xs)
  first_row-update_rows_self p f [] h = refl
  first_row-update_rows_self p f (x ∷ xs) h =
      ground (arith, h x, first_row-update_rows_self p f xs h)

  pub first_row-update_rows_other :
      (q p : A → Bool) (f : A → A) (xs : List A)
      → ((x : A) → q (f x) ≡ q x)
      → ((x : A) → q x ≡ true → p x ≡ false)
      → first_row q (update_rows p f xs) ≡ first_row q xs
  first_row-update_rows_other q p f [] h apart = refl
  first_row-update_rows_other q p f (x ∷ xs) h apart =
      ground (arith, h x, apart x, first_row-update_rows_other q p f xs h apart)

  pub first_row-append_one :
      (p : A → Bool) (xs : List A) (y : A)
      → any_row p xs ≡ false
      → first_row p (xs ++ y ∷ []) ≡ (if p y then some y else none)
  first_row-append_one p [] y h = refl
  first_row-append_one p (x ∷ xs) y h =
      ground (arith, h, first_row-append_one p xs y (ground (arith, h)))

  pub where_rows_none : (p : A → Bool) (xs : List A) → any_row p xs ≡ false → where_rows p xs ≡ []
  where_rows_none p [] h = refl
  where_rows_none p (x ∷ xs) h = ground (arith, h, where_rows_none p xs (ground (arith, h)))

  -- A key's query finds the key's row, and never two.
  pub scalar_one_or_none_lem :
      (same : A → A → Bool) (p : A → Bool) (xs : List A)
      → ((x y : A) → p x ≡ true → p y ≡ true → same x y ≡ true)
      → IsDistinct same xs
      → scalar_one_or_none (where_rows p xs) ≡ ok (first_row p xs)
  unfolding scalar_one_or_none
  scalar_one_or_none_lem same p [] one d = refl
  scalar_one_or_none_lem same p (x ∷ xs) one d = ground (
    arith,
    scalar_one_or_none_lem same p xs one d.1,
    λ (h : p x ≡ true). where_rows_none p xs (alone x xs (one x) h d.0),
  )
    where
      alone :
          (x : A) (ys : List A)
          → ((y : A) → p x ≡ true → p y ≡ true → same x y ≡ true)
          → p x ≡ true
          → any_row (same x) ys ≡ false
          → any_row p ys ≡ false
      alone x [] one h e = refl
      alone x (y ∷ ys) one h e = ground (arith, one y h, h, e, alone x ys one h (ground (arith, e)))

  pub All-append_one :
      (P : A → Type 0) (xs : List A) (y : A) → All P xs → P y → All P (xs ++ y ∷ [])
  All-append_one P [] y h p = (p, tt)
  All-append_one P (x ∷ xs) y h p = (h.0, All-append_one P xs y h.1 p)

  pub All-update_rows :
      (P : A → Type 0) (p : A → Bool) (f : A → A) (xs : List A)
      → ((x : A) → P x → P (f x))
      → All P xs
      → All P (update_rows p f xs)
  All-update_rows P p f [] keep h = tt
  All-update_rows P p f (x ∷ xs) keep h = (one (p x), All-update_rows P p f xs keep h.1)
    where
      one : (b : Bool) → P (if b then f x else x)
      one true = keep x h.0
      one false = h.0
