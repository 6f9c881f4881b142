-- ===== src/Retention/Batch.antt =====
-- `delete … where id in (select id … where p limit n)` of src/lib/retention.ts. The rows of a
-- table are listed in the order in which the query meets them, which the source leaves open.
use aitp_control_plane.Prelude.{
  ℕ, zero, suc, ◌+◌, ◌-◌, ◌≤◌, ◌≡◌, refl, Bool, true, false, List, [], ◌∷◌, if◌then◌else◌, arith,
  length, Bool-cases, inl, inr,
}
use aitp_control_plane.Prelude.Tables.{select_where, count_where}

module _ {ℓ} {A : Type ℓ} where
  -- What is left, and the number of rows deleted.
  unfoldable pub purge_where : (A → Bool) → ℕ → List A → List A × ℕ
  purge_where p limit [] = ([], 0)
  purge_where p zero (x ∷ xs) = (x ∷ xs, 0)
  purge_where p (suc n) (x ∷ xs) =
      let (rest, deleted) = purge_where p (if p x then n else suc n) xs in
      if p x then (rest, suc deleted) else (x ∷ rest, deleted)

  -- Rows that the condition does not pick stay, in their order.
  pub select-purge_where :
      (p q : A → Bool) (limit : ℕ) (xs : List A)
      → ((x : A) → p x ≡ true → q x ≡ false)
      → select_where q (purge_where p limit xs).0 ≡ select_where q xs
  unfolding purge_where select_where
  select-purge_where p q limit [] spares = refl
  select-purge_where p q zero (x ∷ xs) spares = refl
  select-purge_where p q (suc n) (x ∷ xs) spares = elim (Bool-cases (p x)) [
    | inl picked ↦ rw (picked, spares x picked) (select-purge_where p q n xs spares)
    | inr left ↦ rw (left, select-purge_where p q (suc n) xs spares) refl
  ]

  pub length-purge_where :
      (p : A → Bool) (limit : ℕ) (xs : List A)
      → (length (purge_where p limit xs).0 + (purge_where p limit xs).1 ≡ length xs)
        × ((purge_where p limit xs).1 ≤ limit)
  unfolding purge_where
  length-purge_where p limit [] = ground arith
  length-purge_where p zero (x ∷ xs) = ground arith
  length-purge_where p (suc n) (x ∷ xs) =
      ground (arith, length-purge_where p n xs, length-purge_where p (suc n) xs)

  pub count-purge_where :
      (p : A → Bool) (limit : ℕ) (xs : List A)
      → count_where p (purge_where p limit xs).0 ≡ count_where p xs - limit
  unfolding purge_where count_where
  count-purge_where p limit [] = omega arith
  count-purge_where p zero (x ∷ xs) = omega arith
  count-purge_where p (suc n) (x ∷ xs) =
      ground (arith, count-purge_where p n xs, count-purge_where p (suc n) xs)
