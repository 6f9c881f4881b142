-- ===== src/Prelude/Tables.antt =====
-- A database table as the list of its rows: what `update … where`, `delete … where`,
-- `select … where` and `insert … on conflict do nothing` do to it.
use Prim.Native.Nat.{ℕ, suc}
use mathlib.Core.Path.{◌≡◌, refl, subst}
use mathlib.Core.Bool.{Bool, true, false}
use mathlib.Core.Option.{Option, none, some}
use mathlib.Core.List.{List, [], ◌∷◌}
use native.Mathlib.Omega.{arith}
use mathlib.Core.Logic.{◌⊎◌, inl, inr}
use mathlib.Core.Option
use aitp_control_plane.Prelude.Tests.{if◌then◌else◌, ◌==◌, Bool-cases}
use aitp_control_plane.Prelude.Lists.{All}

-- A row of a table.
abbrev pub In : {A : Type 0} → A → List A → Type 0
In x [] = ⊥
In x (y ∷ ys) = (x ≡ y) ⊎ In x ys

module _ {ℓ} {A : Type ℓ} where
  -- `select … where p`
  unfoldable pub select_where : (A → Bool) → List A → List A
  select_where p [] = []
  select_where p (x ∷ xs) = let rest = select_where p xs in if p x then x ∷ rest else rest

  -- `select … where p limit 1`
  unfoldable pub find_where : (A → Bool) → List A → Option A
  find_where p [] = none
  find_where p (x ∷ xs) = if p x then some x else find_where p xs

  -- `update … set f where p`
  unfoldable pub update_where : (A → Bool) → (A → A) → List A → List A
  update_where p f [] = []
  update_where p f (x ∷ xs) = (if p x then f x else x) ∷ update_where p f xs

  -- How many rows a condition picks: `returning().length`.
  unfoldable pub count_where : (A → Bool) → List A → ℕ
  count_where p [] = 0
  count_where p (x ∷ xs) = let n = count_where p xs in if p x then suc n else n

  -- A look-up after an update that does not change what the look-up asks.
  pub find-update_where :
      (p q : A → Bool) (f : A → A) (xs : List A)
      → ((x : A) → p (f x) ≡ p x)
      → find_where p (update_where q f xs)
        ≡ Option.map (λ x. if q x then f x else x) (find_where p xs)
  unfolding find_where update_where
  find-update_where p q f [] keeps = refl
  find-update_where p q f (x ∷ xs) keeps = ground (arith, keeps x, find-update_where p q f xs keeps)

  pub find-update_some :
      (p q : A → Bool) (f : A → A) (xs : List A) {x : A}
      → ((x : A) → p (f x) ≡ p x)
      → find_where p xs ≡ some x
      → find_where p (update_where q f xs) ≡ some (if q x then f x else x)
  find-update_some p q f xs keeps h = rw (find-update_where p q f xs keeps, h) refl

  pub find_where_sound :
      (p : A → Bool) (xs : List A) {x : A} → find_where p xs ≡ some x → p x ≡ true
  unfolding find_where
  find_where_sound p [] h = cc
  find_where_sound p (x ∷ xs) h = elim (Bool-cases (p x)) [
    | inl picked ↦ ground arith
    | inr passed ↦ find_where_sound p xs (ground arith)
  ]

  pub count_where-pos :
      (p q : A → Bool) (xs : List A) (y : A)
      → find_where p xs ≡ some y
      → q y ≡ true
      → (count_where q xs == 0) ≡ false
  unfolding find_where count_where
  count_where-pos p q [] y h k = cc
  count_where-pos p q (x ∷ xs) y h k = ground (arith, count_where-pos p q xs y)

  -- What an update leaves: every row meets `Q` when the picked ones do after it and the others
  -- met it before.
  pub All-update_where {κ} :
      (Q : A → Type κ) (p : A → Bool) (f : A → A) (xs : List A)
      → ((x : A) → Q x → Q (f x))
      → All Q xs
      → All Q (update_where p f xs)
  unfolding update_where
  All-update_where Q p f [] keeps h = tt
  All-update_where Q p f (x ∷ xs) keeps (q, h) = elim (Bool-cases (p x)) [
    | inl picked ↦ rw picked (keeps x q, All-update_where Q p f xs keeps h)
    | inr left ↦ rw left (q, All-update_where Q p f xs keeps h)
  ]

  pub All-find_where {κ} :
      (Q : A → Type κ) (p : A → Bool) (xs : List A) {x : A}
      → All Q xs
      → find_where p xs ≡ some x
      → Q x
  unfolding find_where
  All-find_where Q p [] h e = absurd (cc)
  All-find_where Q p (x ∷ xs) {x = y} (q, h) e = elim (Bool-cases (p x)) [
    | inl picked ↦ let same : x ≡ y = ground arith in subst Q same q
    | inr passed ↦ All-find_where Q p xs h (ground arith)
  ]

  -- An update after which the condition no longer holds leaves no row that meets it.
  pub update_where-clears :
      (p : A → Bool) (f : A → A) (xs : List A)
      → ((x : A) → p (f x) ≡ false)
      → All (λ x. p x ≡ false) (update_where p f xs)
  unfolding update_where
  update_where-clears p f [] clears = tt
  update_where-clears p f (x ∷ xs) clears = elim (Bool-cases (p x)) [
    | inl picked ↦ simp picked (clears x, update_where-clears p f xs clears)
    | inr passed ↦ simp passed (refl, update_where-clears p f xs clears)
  ]

  -- Rows that no condition picks are left alone, and none is selected.
  pub update_where-none :
      (p : A → Bool) (f : A → A) (xs : List A)
      → All (λ x. p x ≡ false) xs
      → update_where p f xs ≡ xs
  unfolding update_where
  update_where-none p f [] h = refl
  update_where-none p f (x ∷ xs) (passed, h) = rw (passed, update_where-none p f xs h) refl

  pub select_where-none :
      (p : A → Bool) (xs : List A) → All (λ x. p x ≡ false) xs → select_where p xs ≡ []
  unfolding select_where
  select_where-none p [] h = refl
  select_where-none p (x ∷ xs) (passed, h) = rw passed (select_where-none p xs h)
