-- ===== src/Base/Dicts.antt =====
-- A Python `dict` with text keys, in insertion order, and a Python `set` of texts.
use Prim.Native.String.{String}
use mathlib.Core.Path.{◌≡◌, refl}
use mathlib.Core.Logic.{◌≢◌}
use mathlib.Core.Bool.{Bool, true, false, ◌||◌}
use mathlib.Core.Option.{Option, none, some}
use mathlib.Core.List.{List, [], ◌∷◌, ◌++◌}
use native.Mathlib.Omega.{arith}
use game_backend.Base.Tests.{if◌then◌else◌}
use game_backend.Base.Text.{str_eq, str_eq_iff, str_eq_refl}

abbrev pub Dict {ℓ} : Type ℓ → Type ℓ
Dict V = List (String × V)

module _ {ℓ} {V : Type ℓ} where
  -- `d.get(k)`
  unfoldable pub lookup : String → Dict V → Option V
  lookup k [] = none
  lookup k ((j, v) ∷ d) = if str_eq k j then some v else lookup k d

  -- `d[k] = v`
  unfoldable pub insert : String → V → Dict V → Dict V
  insert k v [] = (k, v) ∷ []
  insert k v ((j, w) ∷ d) = if str_eq k j then (j, v) ∷ d else (j, w) ∷ insert k v d

  -- `del d[k]`, `d.pop(k, None)`
  unfoldable pub erase : String → Dict V → Dict V
  erase k [] = []
  erase k ((j, w) ∷ d) = if str_eq k j then erase k d else (j, w) ∷ erase k d

  -- `d.update(m)`, and the fields that an `HSET` with a mapping writes
  unfoldable pub update : Dict V → Dict V → Dict V
  unfolding insert
  update d [] = d
  update d ((k, v) ∷ m) = update (insert k v d) m

abbrev pub is_some {ℓ} : {A : Type ℓ} → Option A → Bool
is_some none = false
is_some (some a) = true

module _ {ℓ} {V : Type ℓ} where
  -- `k in d`
  abbrev pub contains : String → Dict V → Bool
  contains k d = is_some (lookup k d)

  pub lookup-insert :
      (k j : String) (v : V) (d : Dict V)
      → lookup j (insert k v d) ≡ (if str_eq j k then some v else lookup j d)
  unfolding lookup insert
  lookup-insert k j v [] = refl
  lookup-insert k j v ((i, w) ∷ d) =
      ground (arith, str_eq_iff j k, str_eq_iff k i, str_eq_iff j i, lookup-insert k j v d)

  pub lookup-insert_self : (k : String) (v : V) (d : Dict V) → lookup k (insert k v d) ≡ some v
  lookup-insert_self k v d = ground (arith, lookup-insert k k v d, str_eq_refl k)

  pub lookup-insert_ne :
      (k j : String) (v : V) (d : Dict V) → j ≢ k → lookup j (insert k v d) ≡ lookup j d
  lookup-insert_ne k j v d h = ground (arith, lookup-insert k j v d, str_eq_iff j k)

  pub lookup-erase :
      (k j : String) (d : Dict V) → lookup j (erase k d) ≡ (if str_eq j k then none else lookup j d)
  unfolding lookup erase
  lookup-erase k j [] = ground arith
  lookup-erase k j ((i, w) ∷ d) =
      ground (arith, str_eq_iff j k, str_eq_iff k i, str_eq_iff j i, lookup-erase k j d)

  pub insert_same : (k : String) (v : V) (d : Dict V) → lookup k d ≡ some v → insert k v d ≡ d
  unfolding lookup insert
  insert_same k v [] h = cc
  insert_same k v ((i, w) ∷ d) h = ground (arith, h, insert_same k v d)

  pub insert-insert : (k : String) (v u : V) (d : Dict V) → insert k v (insert k u d) ≡ insert k v d
  unfolding insert
  insert-insert k v u [] = ground (arith, str_eq_refl k)
  insert-insert k v u ((i, w) ∷ d) = ground (arith, insert-insert k v u d)

  pub erase-insert : (k : String) (v : V) (d : Dict V) → erase k (insert k v d) ≡ erase k d
  unfolding insert erase
  erase-insert k v [] = ground (arith, str_eq_refl k)
  erase-insert k v ((i, w) ∷ d) = ground (arith, erase-insert k v d)

-- No key stands twice.
abbrev pub IsUnique {ℓ} : {V : Type ℓ} → Dict V → Type 0
IsUnique [] = Unit
IsUnique ((k, v) ∷ d) = (contains k d ≡ false) × IsUnique d

abbrev pub or_else {ℓ} : {A : Type ℓ} → Option A → Option A → Option A
or_else none o = o
or_else (some a) o = some a

-- A field that the mapping has is read from it, and any other as before.
pub lookup-update :
    {V : Type 0} (f : String) (d m : Dict V)
    → IsUnique m
    → lookup f (update d m) ≡ or_else (lookup f m) (lookup f d)
unfolding lookup update
lookup-update f d [] u = refl
lookup-update f d ((k, v) ∷ m) u =
    ground (arith, lookup-update f (insert k v d) m u.1, lookup-insert k f v d, str_eq_iff f k, u.0)

-- `list(d.keys())`
unfoldable pub keys {ℓ} : {V : Type ℓ} → Dict V → List String
keys [] = []
keys ((k, v) ∷ d) = k ∷ keys d

-- Sets of texts.
unfoldable pub mem : String → List String → Bool
mem k [] = false
mem k (x ∷ xs) = str_eq k x || mem k xs

-- `s.add(k)`
unfoldable pub add : String → List String → List String
unfolding mem
add k xs = if mem k xs then xs else xs ++ k ∷ []

-- `s.discard(k)`
unfoldable pub discard : String → List String → List String
discard k [] = []
discard k (x ∷ xs) = if str_eq k x then discard k xs else x ∷ discard k xs

mem-append_one : (k x : String) (xs : List String) → mem k (xs ++ x ∷ []) ≡ (mem k xs || str_eq k x)
unfolding mem
mem-append_one k x [] = ground arith
mem-append_one k x (y ∷ xs) = ground (arith, mem-append_one k x xs)

pub mem-add : (k j : String) (xs : List String) → mem j (add k xs) ≡ (str_eq j k || mem j xs)
unfolding add
mem-add k j xs = ground (arith, mem-append_one j k xs, str_eq_iff j k)

pub mem-discard :
    (k j : String) (xs : List String)
    → mem j (discard k xs) ≡ (if str_eq j k then false else mem j xs)
unfolding mem discard
mem-discard k j [] = ground arith
mem-discard k j (x ∷ xs) =
    ground (arith, str_eq_iff j k, str_eq_iff k x, str_eq_iff j x, mem-discard k j xs)

pub mem-keys :
    {V : Type 0} (k : String) (v : V) (d : Dict V) → lookup k d ≡ some v → mem k (keys d) ≡ true
unfolding lookup keys mem
mem-keys k v [] h = cc
mem-keys k v ((j, w) ∷ d) h = ground (arith, h, mem-keys k v d)
