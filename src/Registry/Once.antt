-- ===== src/Registry/Once.antt =====
-- How often an enrollment token registers an agent (src/lib/registry/register.ts), over sequences of
-- what happens to the registry: other registrations, deregistrations, the expiry job and the sweeps
-- of src/lib/retention.ts.
use aitp_control_plane.Prelude.{
  ℕ, zero, suc, ◌+◌, ◌*◌, ◌/◌, ltb, All, ◌≤◌, ◌<◌, ◌≡◌, refl, sym, ap, ◌∙◌, subst, Bool, true,
  false, Option, none, some, String, List, [], ◌∷◌, ◌||◌, any, str_eq, eq_iff, if◌then◌else◌, arith,
  Bool-cases, inl, inr, ◌⊎◌,
}
use aitp_control_plane.Prelude.Tables.{select_where}
use aitp_control_plane.Registry.{
  Agent, RegisterInput, Registry, deactivate_agent, is_spent, consume_enrollment_jti, JtiRow,
  register_consuming_jti,
}
use aitp_control_plane.Registry.Expiry.{enforce_manifest_expiry}
use aitp_control_plane.Retention.Batch.{purge_where}
use aitp_control_plane.Retention.{Settings, is_expired, purge_enrollment_jtis}

-- What happens to a registry, with the time in milliseconds. A registration has the jti of its token
-- and the token's `exp` in seconds. A sweep purges the jtis, and keeps some of the agents.
pub data Step : Type 0 where
  registering : (now : ℕ) (stored : ℕ) (jti : String) (exp : ℕ) (input : RegisterInput) → Step
  deregistering : String → Step
  expiring : (String → Option String) → ℕ → Step
  sweeping : (cfg : Settings) (now : ℕ) (keeps : Agent → Bool) → Step

abbrev pub accepted : String → Bool → Option String
accepted jti true = some jti
accepted jti false = none

abbrev register_current : ℕ → ℕ → String → ℕ → RegisterInput → Registry → Registry × Option String
register_current now stored jti exp input r =
    let (later, done) = register_consuming_jti now stored jti (exp * 1000) input r in
    if ltb exp (now / 1000) then (r, none) else (later, accepted jti done)

-- The registry after a step, and the jti of a registration that succeeded. The token of one that
-- does is not expired.
unfoldable pub act : Step → Registry → Registry × Option String
act (registering now stored jti exp input) r = register_current now stored jti exp input r
act (deregistering aid) r = (record r { agents = (deactivate_agent aid r.agents).0 }, none)
act (expiring version_of now) r =
    (record r { agents = (enforce_manifest_expiry version_of now r.agents).0 }, none)
act (sweeping cfg now keeps) r = (
  record {
    agents = select_where keeps r.agents;
    enrollment_jtis = (purge_enrollment_jtis cfg now r.enrollment_jtis).0;
  },
  none,
)

abbrev is_for : String → Option String → Bool
is_for jti none = false
is_for jti (some j) = str_eq j jti

-- How many steps of a sequence are registrations with a jti that succeed.
unfoldable pub successes : String → List Step → Registry → ℕ
successes jti [] r = 0
successes jti (s ∷ ss) r =
    let n = successes jti ss (act s r).0 in if is_for jti (act s r).1 then suc n else n

abbrev pub spent_once : Bool → ℕ
spent_once true = 1
spent_once false = 0

-- A sequence of steps from a time on, in the order of their times, in which the tokens with a jti
-- have one `exp` and no sweep falls into the second after it.
unfoldable pub IsTimeline : String → ℕ → ℕ → List Step → Type 0
IsTimeline jti exp t [] = Unit
IsTimeline jti exp t (registering now stored j e input ∷ ss) =
    (t ≤ now) × (str_eq j jti ≡ true → e ≡ exp) × IsTimeline jti exp now ss
IsTimeline jti exp t (deregistering aid ∷ ss) = IsTimeline jti exp t ss
IsTimeline jti exp t (expiring version_of now ∷ ss) = IsTimeline jti exp t ss
IsTimeline jti exp t (sweeping cfg now keeps ∷ ss) =
    (t ≤ now) × ((now ≤ exp * 1000) ⊎ (exp < now / 1000)) × IsTimeline jti exp now ss

-- A row with the jti has the expiry of its token.
abbrev pub HasExpiry : String → ℕ → JtiRow → Type 0
HasExpiry jti exp row = str_eq row.jti jti ≡ true → row.expires_at ≡ exp * 1000

is_for_other :
    (j jti : String) (done : Bool) → str_eq j jti ≡ false → is_for jti (accepted j done) ≡ false
is_for_other j jti true other = other
is_for_other j jti false other = refl

-- After its expiry a token registers nothing.
successes_late :
    (jti : String) (exp t : ℕ) (ss : List Step) (r : Registry)
    → IsTimeline jti exp t ss
    → exp < t / 1000
    → successes jti ss r ≡ 0
unfolding successes IsTimeline act
successes_late jti exp t [] r line late = refl
successes_late jti exp t (deregistering aid ∷ ss) r line late =
    successes_late jti exp t ss _ line late
successes_late jti exp t (expiring version_of now ∷ ss) r line late =
    successes_late jti exp t ss _ line late
successes_late jti exp t (sweeping cfg now keeps ∷ ss) r (le, far, line) late =
    successes_late jti exp now ss _ line (omega (arith, le, late))
successes_late jti exp t (registering now stored j e input ∷ ss) r (le, own, line) late =
    elim (Bool-cases (ltb e (now / 1000))) [
      | inl over ↦ rw over (successes_late jti exp now ss r line (omega (arith, le, late)))
      | inr current ↦
          let other : str_eq j jti ≡ false = ground (arith, le, late, own, current) in
          let result = register_consuming_jti now stored j (e * 1000) input r in
          rw
            (
              current,
              is_for_other j jti result.1 other,
              successes_late jti exp now ss result.0 line (omega (arith, le, late)),
            )
            refl
    ]

-- A registration, by whether it succeeds.
register-spent :
    (jti : String) (now stored : ℕ) (j : String) (e : ℕ) (input : RegisterInput) (r : Registry)
    → spent_once (is_spent jti (register_current now stored j e input r).0)
      ≡ spent_once (is_spent jti r)
        + spent_once (is_for jti (register_current now stored j e input r).1)
unfolding register_consuming_jti consume_enrollment_jti
register-spent jti now stored j e input r = elim (Bool-cases (ltb e (now / 1000))) [
  | inl over ↦ rw over (omega arith)
  | inr current ↦ rw current (elim (Bool-cases (is_spent j r)) [
    | inl old ↦ rw old (omega arith)
    | inr new ↦ rw new (fresh new (Bool-cases (str_eq j jti)))
  ])
]
  where
    fresh :
        is_spent j r ≡ false
        → (str_eq j jti ≡ true) ⊎ (str_eq j jti ≡ false)
        → spent_once (str_eq j jti || is_spent jti r)
          ≡ spent_once (is_spent jti r) + spent_once (str_eq j jti)
    fresh new (inl same) =
        let e : j ≡ jti = ground (arith, same, eq_iff j jti) in
        let absent : is_spent jti r ≡ false = sym (ap (λ k. is_spent k r) e) ∙ new in
        rw (same, absent) (omega arith)
    fresh new (inr other) = rw other (omega arith)

register-HasExpiry :
    (jti : String) (exp now stored : ℕ) (j : String) (e : ℕ) (input : RegisterInput) (r : Registry)
    → (str_eq j jti ≡ true → e ≡ exp)
    → All (HasExpiry jti exp) r.enrollment_jtis
    → All (HasExpiry jti exp) (register_current now stored j e input r).0.enrollment_jtis
unfolding register_consuming_jti consume_enrollment_jti
register-HasExpiry jti exp now stored j e input r own h = elim (Bool-cases (ltb e (now / 1000))) [
  | inl over ↦ rw over h
  | inr current ↦ rw current (elim (Bool-cases (is_spent j r)) [
    | inl old ↦ rw old h
    | inr new ↦ rw new ((λ same. ap (λ n. n * 1000) (own same)), h)
  ])
]

-- What a purge leaves.
purge-HasExpiry :
    (P : JtiRow → Type 0) (p : JtiRow → Bool) (limit : ℕ) (rows : List JtiRow)
    → All P rows
    → All P (purge_where p limit rows).0
unfolding purge_where
purge-HasExpiry P p limit [] h = tt
purge-HasExpiry P p zero (x ∷ rows) h = h
purge-HasExpiry P p (suc n) (x ∷ rows) (q, h) = elim (Bool-cases (p x)) [
  | inl picked ↦ rw picked (purge-HasExpiry P p n rows h)
  | inr left ↦ rw left (q, purge-HasExpiry P p (suc n) rows h)
]

purge-spent :
    (jti : String) (exp now limit : ℕ) (rows : List JtiRow)
    → All (HasExpiry jti exp) rows
    → (any (λ row. str_eq row.jti jti) (purge_where (is_expired now) limit rows).0
        ≡ any (λ row. str_eq row.jti jti) rows)
      ⊎ (exp * 1000 < now)
unfolding purge_where
purge-spent jti exp now limit [] h = inl refl
purge-spent jti exp now zero (x ∷ rows) h = inl refl
purge-spent jti exp now (suc n) (x ∷ rows) (own, h) = elim (Bool-cases (is_expired now x)) [
  | inl picked ↦ elim (Bool-cases (str_eq x.jti jti)) [
    | inl same ↦ inr (ground (arith, picked, own same))
    | inr other ↦ rw (picked, other) (purge-spent jti exp now n rows h)
  ]
  | inr left ↦ rw left (kept (str_eq x.jti jti) (purge-spent jti exp now (suc n) rows h))
]
  where
    kept :
        {b c : Bool} (d : Bool)
        → (b ≡ c) ⊎ (exp * 1000 < now)
        → ((d || b) ≡ (d || c)) ⊎ (exp * 1000 < now)
    kept d (inl e) = inl (ap (λ a. d || a) e)
    kept d (inr l) = inr l

-- A token registers at most once, in any sequence of registrations, deregistrations, runs of the
-- expiry job and sweeps in the order of their times, and never when its jti is spent already, if
-- the tokens and the rows with its jti have one expiry and no sweep falls into the second after it.
pub register_once :
    (jti : String) (exp t : ℕ) (ss : List Step) (r : Registry)
    → IsTimeline jti exp t ss
    → All (HasExpiry jti exp) r.enrollment_jtis
    → successes jti ss r + spent_once (is_spent jti r) ≤ 1
unfolding successes IsTimeline act purge_enrollment_jtis
register_once jti exp t [] r line rows = once (is_spent jti r)
  where
    once : (b : Bool) → 0 + spent_once b ≤ 1
    once true = omega arith
    once false = omega arith
register_once jti exp t (deregistering aid ∷ ss) r line rows =
    register_once jti exp t ss _ line rows
register_once jti exp t (expiring version_of now ∷ ss) r line rows =
    register_once jti exp t ss _ line rows
register_once jti exp t (registering now stored j e input ∷ ss) r (le, own, line) rows =
    let r' = register_current now stored j e input r in
    let later =
      register_once jti exp now ss r'.0 line
        (register-HasExpiry jti exp now stored j e input r own rows) in
    count (is_for jti r'.1) _ _ _ later (register-spent jti now stored j e input r)
  where
    count :
        (b : Bool) (n k l : ℕ) → n + k ≤ 1 → k ≡ l + spent_once b → (if b then suc n else n) + l ≤ 1
    count true n k l h e = omega (arith, h, e)
    count false n k l h e = omega (arith, h, e)
register_once jti exp t (sweeping cfg now keeps ∷ ss) r (le, far, line) rows =
    swept (act (sweeping cfg now keeps) r).0
      (register_once jti exp now ss (act (sweeping cfg now keeps) r).0 line (
        purge-HasExpiry (HasExpiry jti exp) (is_expired now) cfg.retention_batch_limit
          r.enrollment_jtis rows))
      (purge-spent jti exp now cfg.retention_batch_limit r.enrollment_jtis rows)
  where
    once : (b : Bool) → spent_once b ≤ 1
    once true = omega arith
    once false = omega arith

    swept :
        (r' : Registry)
        → successes jti ss r' + spent_once (is_spent jti r') ≤ 1
        → (is_spent jti r' ≡ is_spent jti r) ⊎ (exp * 1000 < now)
        → successes jti ss r' + spent_once (is_spent jti r) ≤ 1
    swept r' later (inl same) = subst (λ b. successes jti ss r' + spent_once b ≤ 1) same later
    swept r' later (inr over) =
        let none_later : successes jti ss r' ≡ 0 =
          successes_late jti exp now ss r' line (ground (arith, far, over)) in
        omega (arith, none_later, once (is_spent jti r))
