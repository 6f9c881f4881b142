-- ===== src/Tcts/Revoke/Replay/Updates.antt =====
-- The inserts, cascades and revocations of src/lib/tcts/monitor.ts, done twice in a row.
use aitp_control_plane.Prelude.{
  ◌≡◌, refl, ap, ◌∙◌, Bool, true, false, some, String, List, [], ◌∷◌, ◌||◌, any, ℕ, zero, suc,
  length, if◌then◌else◌, arith, Bool-cases, inl, inr,
}
use aitp_control_plane.Prelude.Tables.{
  update_where, select_where, update_where-clears, update_where-none, All-update_where,
}
use aitp_control_plane.Uuid.{Uuid, uuid_eq, uuid_eq_iff}
use aitp_control_plane.Tcts.Parse.{ParsedDelegation}
use aitp_control_plane.Tcts.Store.{DelegationRow, Store, insert_delegation}
use aitp_control_plane.Tcts.Descend.{is_among, is_below, next_round, rounds, descendants}
use aitp_control_plane.Tcts.Revoke.{
  is_active_tct, is_struck, strike, cascade, revoke_tct, is_active_delegation, strike_explicit,
  revoke_delegation,
}

uuid_eq_refl : (a : Uuid) → uuid_eq a a ≡ true
uuid_eq_refl a = ground (arith, uuid_eq_iff a a)

pub insert_delegation-twice :
    (d : ParsedDelegation) (s : Store)
    → insert_delegation d (insert_delegation d s) ≡ insert_delegation d s
unfolding insert_delegation
insert_delegation-twice d s =
    elim (Bool-cases (any (λ r. uuid_eq r.delegation.jti d.jti) s.delegations)) [
      | inl old ↦ rw (old, old) refl
      | inr new ↦ rw (new, uuid_eq_refl d.jti) refl
    ]

pub insert_delegation-agents :
    (d : ParsedDelegation) (s : Store) → (insert_delegation d s).agents ≡ s.agents
unfolding insert_delegation
insert_delegation-agents d s =
    elim (Bool-cases (any (λ r. uuid_eq r.delegation.jti d.jti) s.delegations)) [
      | inl old ↦ rw old refl
      | inr new ↦ rw new refl
    ]

-- An update after which its condition holds of no row does nothing the second time.
update_where-twice {ℓ} :
    {A : Type ℓ} (p : A → Bool) (f : A → A) (xs : List A)
    → ((x : A) → p (f x) ≡ false)
    → update_where p f (update_where p f xs) ≡ update_where p f xs
update_where-twice p f xs clears =
    update_where-none p f (update_where p f xs) (update_where-clears p f xs clears)

-- The chains of delegations are those before an update of the other columns.
next_round-update :
    (q : DelegationRow → Bool) (f : DelegationRow → DelegationRow) (rows : List DelegationRow)
    (root : Uuid) (found : List Uuid)
    → ((r : DelegationRow) → (f r).delegation ≡ r.delegation)
    → next_round (update_where q f rows) root found ≡ next_round rows root found
unfolding update_where select_where
next_round-update q f [] root found keeps = refl
next_round-update q f (r ∷ rows) root found keeps =
    cons (if q r then f r else r) r (same (q r)) (next_round-update q f rows root found keeps)
  where
    same : (b : Bool) → (if b then f r else r).delegation ≡ r.delegation
    same true = keeps r
    same false = refl

    cons :
        (x y : DelegationRow)
        → x.delegation ≡ y.delegation
        → next_round (update_where q f rows) root found ≡ next_round rows root found
        → next_round (x ∷ update_where q f rows) root found ≡ next_round (y ∷ rows) root found
    cons x y e later =
        let below : is_below root found x ≡ is_below root found y =
          ap (λ d. uuid_eq d.parent_jti root || is_among d.parent_jti found) e in
        elim (Bool-cases (is_below root found y)) [
          | inl under ↦
              rw (below ∙ under, under)
                (ap (λ d. d.jti ∷ next_round (update_where q f rows) root found) e
                  ∙ ap (λ us. y.delegation.jti ∷ us) later)
          | inr outside ↦ rw (below ∙ outside, outside) later
        ]

rounds-update :
    (k : ℕ) (q : DelegationRow → Bool) (f : DelegationRow → DelegationRow)
    (rows : List DelegationRow) (root : Uuid)
    → ((r : DelegationRow) → (f r).delegation ≡ r.delegation)
    → rounds k (update_where q f rows) root ≡ rounds k rows root
unfolding rounds
rounds-update zero q f rows root keeps = refl
rounds-update (suc k) q f rows root keeps =
    next_round-update q f rows root (rounds k (update_where q f rows) root) keeps
    ∙ ap (next_round rows root) (rounds-update k q f rows root keeps)

length-update_where {ℓ} :
    {A : Type ℓ} (p : A → Bool) (f : A → A) (xs : List A) → length (update_where p f xs) ≡ length xs
unfolding update_where
length-update_where p f [] = refl
length-update_where p f (x ∷ xs) = ap (λ n. suc n) (length-update_where p f xs)

descendants-update :
    (q : DelegationRow → Bool) (f : DelegationRow → DelegationRow) (rows : List DelegationRow)
    (root : Uuid)
    → ((r : DelegationRow) → (f r).delegation ≡ r.delegation)
    → descendants (update_where q f rows) root ≡ descendants rows root
unfolding descendants
descendants-update q f rows root keeps =
    ap (λ n. rounds n (update_where q f rows) root) (length-update_where q f rows)
    ∙ rounds-update (length rows) q f rows root keeps

cascade-twice :
    (jti : Uuid) (at : String) (rows : List DelegationRow)
    → cascade jti at (cascade jti at rows) ≡ cascade jti at rows
unfolding cascade
cascade-twice jti at rows =
    rw (descendants-update (is_struck (descendants rows jti)) (strike at) rows jti (λ r. refl))
      (update_where-twice (is_struck (descendants rows jti)) (strike at) rows (λ r. refl))

pub revoke_tct-twice :
    (jti : Uuid) (at : String) (s : Store)
    → revoke_tct jti at (revoke_tct jti at s) ≡ revoke_tct jti at s
unfolding revoke_tct
revoke_tct-twice jti at s =
    rw
      (
        cascade-twice jti at s.delegations,
        update_where-twice (is_active_tct jti)
            (λ r. record r { revoked = true; revoked_at = some at }) s.issued_tcts
            (λ r. ground arith),
      )
      refl

-- A row that a cascade leaves active was active before it.
explicit_again :
    (jti : Uuid) (at : String) (rows : List DelegationRow)
    → update_where
        (is_active_delegation jti)
        (strike_explicit at)
        (cascade jti at (update_where (is_active_delegation jti) (strike_explicit at) rows))
      ≡ cascade jti at (update_where (is_active_delegation jti) (strike_explicit at) rows)
unfolding cascade
explicit_again jti at rows =
    let marked = update_where (is_active_delegation jti) (strike_explicit at) rows in
    update_where-none (is_active_delegation jti) (strike_explicit at)
      (update_where (is_struck (descendants marked jti)) (strike at) marked)
      (All-update_where (λ r. is_active_delegation jti r ≡ false)
        (is_struck (descendants marked jti)) (strike at) marked (λ r h. ground arith)
        (update_where-clears (is_active_delegation jti) (strike_explicit at) rows
          (λ r. ground arith)))

pub revoke_delegation-twice :
    (jti : Uuid) (at : String) (s : Store)
    → revoke_delegation jti at (revoke_delegation jti at s) ≡ revoke_delegation jti at s
unfolding revoke_delegation
revoke_delegation-twice jti at s =
    ap (λ ds. record s { delegations = ds })
      (ap (cascade jti at) (explicit_again jti at s.delegations)
        ∙ cascade-twice jti at
            (update_where (is_active_delegation jti) (strike_explicit at) s.delegations))
