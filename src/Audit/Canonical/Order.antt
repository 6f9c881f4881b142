-- ===== src/Audit/Canonical/Order.antt =====
-- The order in which src/lib/audit/event-id.ts sorts keys, by their UTF-16 code units.
use aitp_control_plane.Prelude.{
  ℕ, ◌≡◌, ◌⊎◌, refl, true, false, String, List, [], ◌∷◌, arith, inl, inr, sym,
}
use aitp_control_plane.Audit.Canonical.{utf16, is_before, insert_key}

is_before_trans :
    (xs ys zs : List ℕ) → is_before xs ys ≡ true → is_before ys zs ≡ true → is_before xs zs ≡ true
unfolding is_before
is_before_trans xs [] zs h k = cc
is_before_trans xs (y ∷ ys) [] h k = cc
is_before_trans [] (y ∷ ys) (z ∷ zs) h k = refl
is_before_trans (x ∷ xs) (y ∷ ys) (z ∷ zs) h k = ground (arith, h, k, is_before_trans xs ys zs)

is_before_asym : (xs ys : List ℕ) → is_before xs ys ≡ true → is_before ys xs ≡ false
unfolding is_before
is_before_asym xs [] h = cc
is_before_asym [] (y ∷ ys) h = refl
is_before_asym (x ∷ xs) (y ∷ ys) h = ground (arith, h, is_before_asym xs ys)

is_before_total : (xs ys : List ℕ) → (xs ≡ ys) ⊎ (is_before xs ys ≡ true) ⊎ (is_before ys xs ≡ true)
unfolding is_before
is_before_total [] [] = inl refl
is_before_total [] (y ∷ ys) = inr (inl refl)
is_before_total (x ∷ xs) [] = inr (inr refl)
is_before_total (x ∷ xs) (y ∷ ys) = ground (arith, is_before_total xs ys)

module _ {ℓ} {A : Type ℓ} where
  insert_before :
      (k j : String) (a b : A) (ms : List (String × A))
      → is_before (utf16 k) (utf16 j) ≡ true
      → insert_key (k, a) (insert_key (j, b) ms) ≡ insert_key (j, b) (insert_key (k, a) ms)
  unfolding insert_key
  insert_before k j a b [] h = ground (arith, h, is_before_asym (utf16 k) (utf16 j))
  insert_before k j a b ((i, c) ∷ ms) h = ground (
    arith,
    h,
    is_before_asym (utf16 k) (utf16 j),
    is_before_trans (utf16 k) (utf16 j) (utf16 i),
    insert_before k j a b ms h,
  )

  pub insert_key_commute :
      (k j : String) (a b : A) (ms : List (String × A))
      → (utf16 k ≡ utf16 j → ⊥)
      → insert_key (k, a) (insert_key (j, b) ms) ≡ insert_key (j, b) (insert_key (k, a) ms)
  insert_key_commute k j a b ms apart = elim (is_before_total (utf16 k) (utf16 j)) [
    | inl same ↦ absurd (apart same)
    | inr (inl below) ↦ insert_before k j a b ms below
    | inr (inr above) ↦ sym (insert_before j k b a ms above)
  ]
