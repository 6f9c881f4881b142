-- ===== src/Prelude/Maps.antt =====
-- A JavaScript `Map` with string keys: an association list in insertion order.
use Prim.Native.String.{String}
use text.Mathlib.Text.{◌==◌ as str_eq}
use text.Mathlib.TextEquality.{eq_iff}
use mathlib.Core.Path.{◌≡◌, refl}
use mathlib.Core.Bool.{Bool}
use mathlib.Core.Option.{Option, none, some}
use mathlib.Core.List.{List, [], ◌∷◌}
use native.Mathlib.Omega.{arith}
use mathlib.Core.Logic.{inl, inr}
use aitp_control_plane.Prelude.Tests.{if◌then◌else◌, Bool-cases}

abbrev pub Map {ℓ} : Type ℓ → Type ℓ
Map V = List (String × V)

module _ {ℓ} {V : Type ℓ} where
  -- `m.get(k)`
  unfoldable pub get : String → Map V → Option V
  get k [] = none
  get k ((j, v) ∷ m) = if str_eq j k then some v else get k m

  -- `m.set(k, v)`: an existing key keeps its place, a new one goes last.
  unfoldable pub put : String → V → Map V → Map V
  put k v [] = (k, v) ∷ []
  put k v ((j, w) ∷ m) = if str_eq j k then (j, v) ∷ m else (j, w) ∷ put k v m

  pub get-put :
      (j k : String) (v : V) (m : Map V)
      → get j (put k v m) ≡ (if str_eq k j then some v else get j m)
  unfolding get put
  get-put j k v [] = refl
  get-put j k v ((i, w) ∷ m) = ground (arith, eq_iff k j, eq_iff i k, eq_iff i j, get-put j k v m)

  -- Deleting, in one pass over the entries, those whose value meets a test.
  unfoldable pub delete_where : (V → Bool) → Map V → Map V
  delete_where p [] = []
  delete_where p ((j, v) ∷ m) = let rest = delete_where p m in if p v then rest else (j, v) ∷ rest

  abbrev pub IsAbsent : String → Map V → Type ℓ
  IsAbsent k m = get k m ≡ none

  -- No key stands twice: a `Map` always has this, and `put` keeps it.
  abbrev pub HasDistinctKeys : Map V → Type ℓ
  HasDistinctKeys [] = Unit
  HasDistinctKeys ((j, v) ∷ m) = IsAbsent j m × HasDistinctKeys m

  pub put-HasDistinctKeys :
      (k : String) (v : V) (m : Map V) → HasDistinctKeys m → HasDistinctKeys (put k v m)
  unfolding put
  put-HasDistinctKeys k v [] h = (unfold get in refl, tt)
  put-HasDistinctKeys k v ((j, w) ∷ m) (absent, h) = elim (Bool-cases (str_eq j k)) [
    | inl same ↦ rw same (absent, h)
    | inr other ↦
        rw other
          (ground (arith, get-put j k v m, eq_iff j k, eq_iff k j), put-HasDistinctKeys k v m h)
  ]

  get-delete_where-IsAbsent :
      (p : V → Bool) (k : String) (m : Map V) → IsAbsent k m → IsAbsent k (delete_where p m)
  unfolding get delete_where
  get-delete_where-IsAbsent p k [] h = refl
  get-delete_where-IsAbsent p k ((j, v) ∷ m) h = ground (arith, get-delete_where-IsAbsent p k m)

  -- `o` unless the test holds of its value.
  abbrev pub unless : (V → Bool) → Option V → Option V
  unless p none = none
  unless p (some v) = if p v then none else some v

  pub get-delete_where :
      (p : V → Bool) (k : String) (m : Map V)
      → HasDistinctKeys m
      → get k (delete_where p m) ≡ unless p (get k m)
  unfolding get delete_where
  get-delete_where p k [] h = refl
  get-delete_where p k ((j, v) ∷ m) (absent, h) =
      ground (arith, eq_iff j k, get-delete_where p k m h, get-delete_where-IsAbsent p j m absent)

  pub delete_where-HasDistinctKeys :
      (p : V → Bool) (m : Map V) → HasDistinctKeys m → HasDistinctKeys (delete_where p m)
  unfolding delete_where
  delete_where-HasDistinctKeys p [] h = tt
  delete_where-HasDistinctKeys p ((j, v) ∷ m) (absent, h) = elim (Bool-cases (p v)) [
    | inl gone ↦ rw gone (delete_where-HasDistinctKeys p m h)
    | inr kept ↦
        rw kept (get-delete_where-IsAbsent p j m absent, delete_where-HasDistinctKeys p m h)
  ]
