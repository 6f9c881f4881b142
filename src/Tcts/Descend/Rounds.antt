-- ===== src/Tcts/Descend/Rounds.antt =====
-- The rounds of the query against the relation that they compute.
use aitp_control_plane.Prelude.{
  ℕ, zero, suc, ◌≤◌, ◌<◌, ◌≡◌, ◌↔◌, ◌⊎◌, refl, Bool, true, List, [], ◌∷◌, length, map, arith,
  Bool-cases, inl, inr, sym, ap, subst,
}
use aitp_control_plane.Prelude.Tables.{In, select_where}
use aitp_control_plane.Uuid.{Uuid, uuid_eq, uuid_eq_iff}
use aitp_control_plane.Tcts.Store.{DelegationRow}
use aitp_control_plane.Tcts.Descend.{is_among, is_below, next_round, rounds, descendants}

-- A chain of delegations from a jti down to another.
pub data Descends (rows : List DelegationRow) (root : Uuid) : Uuid → Type 0 where
  child :
      {u : Uuid} (r : DelegationRow)
      → In r rows
      → r.delegation.parent_jti ≡ root
      → r.delegation.jti ≡ u
      → Descends rows root u
  below :
      {u v : Uuid} (r : DelegationRow)
      → Descends rows root v
      → In r rows
      → r.delegation.parent_jti ≡ v
      → r.delegation.jti ≡ u
      → Descends rows root u

module _ {ℓ} {A : Type ℓ} where
  -- A condition that is implied by another picks the same rows, or fewer.
  select_less :
      (p q : A → Bool) (xs : List A)
      → ((x : A) → p x ≡ true → q x ≡ true)
      → (select_where p xs ≡ select_where q xs)
        ⊎ (length (select_where p xs) < length (select_where q xs))
  unfolding select_where
  select_less p q [] imp = inl refl
  select_less p q (x ∷ xs) imp = elim (Bool-cases (p x)) [
    | inl picked ↦
        rw (picked, imp x picked)
          (elim (select_less p q xs imp) [
            | inl same ↦ inl (ap (λ l. x ∷ l) same)
            | inr fewer ↦ inr (omega (arith, fewer))
          ])
    | inr left ↦ elim (Bool-cases (q x)) [
      | inl more ↦
          rw (left, more)
            (inr (elim (select_less p q xs imp) [
              | inl same ↦ omega (arith, ap length same)
              | inr fewer ↦ omega (arith, fewer)
            ]))
      | inr both ↦ rw (left, both) (select_less p q xs imp)
    ]
  ]

  length-select_le : (p : A → Bool) (xs : List A) → length (select_where p xs) ≤ length xs
  unfolding select_where
  length-select_le p [] = omega arith
  length-select_le p (x ∷ xs) = ground (arith, length-select_le p xs)

length-map {ℓ κ} :
    {A : Type ℓ} {B : Type κ} (f : A → B) (xs : List A) → length (map f xs) ≡ length xs
length-map f [] = refl
length-map f (x ∷ xs) = ap suc (length-map f xs)

is_among_round :
    (c : DelegationRow → Bool) (r : DelegationRow) (rows : List DelegationRow)
    → In r rows
    → c r ≡ true
    → is_among r.delegation.jti (map (λ r. r.delegation.jti) (select_where c rows)) ≡ true
unfolding select_where
is_among_round c r [] h e = absurd h
is_among_round c r (x ∷ rows) (inl same) e = ground (
  arith,
  e,
  same,
  ap c same,
  ap (λ r. r.delegation.jti) same,
  uuid_eq_iff x.delegation.jti r.delegation.jti,
)
is_among_round c r (x ∷ rows) (inr later) e = ground (arith, is_among_round c r rows later e)

round_sound :
    (c : DelegationRow → Bool) (u : Uuid) (rows : List DelegationRow)
    → is_among u (map (λ r. r.delegation.jti) (select_where c rows)) ≡ true
    → (r : DelegationRow) × In r rows × (c r ≡ true) × (r.delegation.jti ≡ u)
unfolding select_where
round_sound c u [] h = cc
round_sound c u (x ∷ rows) h = elim (Bool-cases (c x)) [
  | inr left ↦
      let (r, there, picked, same) = round_sound c u rows (rw left at h) in
      (r, inr there, picked, same)
  | inl picked ↦ elim (Bool-cases (uuid_eq x.delegation.jti u)) [
    | inl same ↦ (x, inl refl, picked, (uuid_eq_iff x.delegation.jti u).0 same)
    | inr other ↦
        let (r, there, picked', same) = round_sound c u rows (rw other at (rw picked at h)) in
        (r, inr there, picked', same)
  ]
]

module _ (rows : List DelegationRow) (root : Uuid) where
  is_below_more :
      (found found' : List Uuid)
      → ((u : Uuid) → is_among u found ≡ true → is_among u found' ≡ true)
      → (r : DelegationRow) → is_below root found r ≡ true
      → is_below root found' r ≡ true
  is_below_more found found' more r h = ground (arith, h, more r.delegation.parent_jti)

  rounds_grow :
      (k : ℕ) (u : Uuid)
      → is_among u (rounds k rows root) ≡ true
      → is_among u (rounds (suc k) rows root) ≡ true
  unfolding rounds
  rounds_grow zero u h = cc
  rounds_grow (suc k) u h =
      let (r, there, picked, same) = round_sound _ u rows h in
      subst (λ v. is_among v (next_round rows root (rounds (suc k) rows root)) ≡ true) same
        (is_among_round (is_below root (rounds (suc k) rows root)) r rows there
          (is_below_more (rounds k rows root) (rounds (suc k) rows root) (rounds_grow k) r picked))

  -- A round adds nothing, or makes the list longer.
  rounds_settle :
      (k : ℕ)
      → (rounds k rows root ≡ rounds (suc k) rows root)
        ⊎ (length (rounds k rows root) < length (rounds (suc k) rows root))
  unfolding rounds
  rounds_settle zero = elim (next_round rows root []) as (λ l. ([] ≡ l) ⊎ (0 < length l)) [
    | [] ↦ inl refl
    | u ∷ us ↦ inr (omega arith)
  ]
  rounds_settle (suc k) =
      elim (select_less (is_below root (rounds k rows root))
        (is_below root (rounds (suc k) rows root)) rows
        (is_below_more (rounds k rows root) (rounds (suc k) rows root) (rounds_grow k))) [
          | inl same ↦ inl (ap (map (λ r. r.delegation.jti)) same)
          | inr fewer ↦ inr (
              omega (
                arith,
                fewer,
                length-map (λ r. r.delegation.jti)
                    (select_where (is_below root (rounds k rows root)) rows),
                length-map (λ r. r.delegation.jti)
                    (select_where (is_below root (rounds (suc k) rows root)) rows),
              ))
        ]

  rounds_progress :
      (k : ℕ)
      → (rounds k rows root ≡ rounds (suc k) rows root) ⊎ (k < length (rounds (suc k) rows root))
  rounds_progress zero = elim (rounds_settle zero) [
    | inl same ↦ inl same
    | inr longer ↦ inr (omega (arith, longer))
  ]
  rounds_progress (suc k) = elim (rounds_progress k) [
    | inl same ↦ inl (unfold rounds in ap (next_round rows root) same)
    | inr many ↦ elim (rounds_settle (suc k)) [
      | inl same ↦ inl same
      | inr longer ↦ inr (omega (arith, many, longer))
    ]
  ]

  -- As many rounds as rows are enough.
  pub descendants_closed : descendants rows root ≡ next_round rows root (descendants rows root)
  unfolding descendants rounds
  descendants_closed = elim (rounds_progress (length rows)) [
    | inl same ↦ same
    | inr many ↦ absurd (
        omega (
          arith,
          many,
          length-map (λ r. r.delegation.jti)
              (select_where (is_below root (rounds (length rows) rows root)) rows),
          length-select_le (is_below root (rounds (length rows) rows root)) rows,
        ))
  ]

  rounds_sound : (k : ℕ) (u : Uuid) → is_among u (rounds k rows root) ≡ true → Descends rows root u
  unfolding rounds
  rounds_sound zero u h = cc
  rounds_sound (suc k) u h =
      let (r, there, picked, same) = round_sound _ u rows h in
      elim (Bool-cases (uuid_eq r.delegation.parent_jti root)) [
        | inl direct ↦ child r there ((uuid_eq_iff r.delegation.parent_jti root).0 direct) same
        | inr deeper ↦
            below r (rounds_sound k r.delegation.parent_jti (rw deeper at picked)) there refl same
      ]

  pub is_below-jti :
      (r : DelegationRow)
      → In r rows
      → is_below root (descendants rows root) r ≡ true
      → is_among r.delegation.jti (descendants rows root) ≡ true
  is_below-jti r there h =
      subst (λ l. is_among r.delegation.jti l ≡ true) (sym descendants_closed)
        (is_among_round (is_below root (descendants rows root)) r rows there h)

  descendants_complete :
      {u : Uuid} → Descends rows root u → is_among u (descendants rows root) ≡ true
  descendants_complete (child r there e same) =
      subst (λ w. is_among w (descendants rows root) ≡ true) same
        (is_below-jti r there (ground (arith, (uuid_eq_iff r.delegation.parent_jti root).1 e)))
  descendants_complete (below r d there e same) =
      let parent =
        subst (λ w. is_among w (descendants rows root) ≡ true) (sym e) (descendants_complete d) in
      subst (λ w. is_among w (descendants rows root) ≡ true) same
        (is_below-jti r there (ground (arith, parent)))

-- The query finds a jti exactly when a chain of delegations leads down to it.
pub descendants_iff :
    (rows : List DelegationRow) (root u : Uuid)
    → (is_among u (descendants rows root) ≡ true) ↔ Descends rows root u
unfolding descendants
descendants_iff rows root u =
    (rounds_sound rows root (length rows) u, descendants_complete rows root)
