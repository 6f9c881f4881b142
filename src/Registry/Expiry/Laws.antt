-- ===== src/Registry/Expiry/Laws.antt =====
-- Which agents the job of src/lib/registry/expiry-job.ts retires and tells of.
use aitp_control_plane.Prelude.{
  ℕ, suc, ◌≡◌, ◌+◌, refl, sym, ◌∙◌, Bool, true, false, Option, String, List, [], ◌∷◌, ◌++◌, ◌&&◌,
  ◌||◌, map, str_eq, if◌then◌else◌, arith, Bool-cases, inl, inr, All, All_mono, subst,
}
use aitp_control_plane.Prelude.Tables.{
  update_where, select_where, count_where, update_where-clears, update_where-none,
  select_where-none,
}
use aitp_control_plane.Registry.{Agent}
use aitp_control_plane.Registry.Expiry.{
  manifest_expired, manifest_version_unsupported, Expired, is_active, is_past, is_overdue,
  is_unsupported, is_outdated, expire, expired_for, enforce_manifest_expiry,
}

-- An active agent whose manifest has expired or is of another version.
abbrev pub is_due : (String → Option String) → ℕ → Agent → Bool
is_due version_of now a =
    is_active a
    && (is_past now a.manifest_expires_at || is_unsupported (version_of a.manifest_json))

-- How many events tell of an agent, and for a reason.
abbrev pub tells : String → Expired → Bool
tells aid e = str_eq e.aid aid

append_count :
    (p : Expired → Bool) (xs ys : List Expired)
    → count_where p (xs ++ ys) ≡ count_where p xs + count_where p ys
unfolding count_where
append_count p [] ys = omega arith
append_count p (x ∷ xs) ys = ground (arith, append_count p xs ys)

expire_inactive : (a : Agent) → is_active (expire a) ≡ false
expire_inactive a = refl

count_first :
    (b : Bool) (m n k : ℕ) → m + n ≡ k → (if b then suc m else m) + n ≡ (if b then suc k else k)
count_first true m n k e = omega (arith, e)
count_first false m n k e = e

count_second :
    (b : Bool) (m n k : ℕ) → m + n ≡ k → m + (if b then suc n else n) ≡ (if b then suc k else k)
count_second true m n k e = omega (arith, e)
count_second false m n k e = e

not_first : (a b c : Bool) → (a && (b || c)) ≡ false → (a && b) ≡ false
not_first true true c h = h
not_first true false c h = refl
not_first false b c h = refl

not_second : (a b c : Bool) → (a && (b || c)) ≡ false → (a && c) ≡ false
not_second true true c h = cc
not_second true false c h = h
not_second false b c h = refl

module _ (version_of : String → Option String) (now : ℕ) where
  -- The two sweeps together.
  retire_both :
      (agents : List Agent)
      → update_where (is_outdated version_of) expire (update_where (is_overdue now) expire agents)
        ≡ update_where (is_due version_of now) expire agents
  unfolding update_where
  retire_both [] = refl
  retire_both (a ∷ agents) = ground (arith, retire_both agents)

  count_both :
      (aid : String) (agents : List Agent)
      → count_where
            (tells aid)
            (map (expired_for manifest_expired) (select_where (is_overdue now) agents))
          + count_where (tells aid) (
              map (expired_for manifest_version_unsupported) (
                select_where
                  (is_outdated version_of)
                  (update_where (is_overdue now) expire agents)))
        ≡ count_where (λ a. is_due version_of now a && str_eq a.aid aid) agents
  unfolding update_where select_where count_where
  count_both aid [] = omega arith
  count_both aid (a ∷ agents) =
      let later = count_both aid agents in
      elim (Bool-cases (is_active a)) [
        | inr idle ↦ rw (idle, idle) later
        | inl active ↦ elim (Bool-cases (is_past now a.manifest_expires_at)) [
          | inl past ↦ rw (active, past) (count_first (str_eq a.aid aid) _ _ _ later)
          | inr current ↦ elim (Bool-cases (is_unsupported (version_of a.manifest_json))) [
            | inl old ↦
                rw (active, current, active, old) (count_second (str_eq a.aid aid) _ _ _ later)
            | inr supported ↦ rw (active, current, active, supported) later
          ]
        ]
      ]

  -- The agents that are left need not be retired.
  settled :
      (agents : List Agent)
      → All
          (λ a. is_due version_of now a ≡ false)
          (update_where (is_due version_of now) expire agents)
  settled agents = update_where-clears (is_due version_of now) expire agents (λ a. refl)

  retire_settled :
      (agents : List Agent)
      → All (λ a. is_due version_of now a ≡ false) agents
      → enforce_manifest_expiry version_of now agents ≡ (agents, [])
  unfolding enforce_manifest_expiry
  retire_settled agents h =
      let overdue : All (λ a. is_overdue now a ≡ false) agents =
        All_mono (λ a. is_due version_of now a ≡ false) (λ a. is_overdue now a ≡ false) agents
          (λ a k. not_first (is_active a) _ _ k) h in
      let outdated : All (λ a. is_outdated version_of a ≡ false) agents =
        All_mono (λ a. is_due version_of now a ≡ false) (λ a. is_outdated version_of a ≡ false)
          agents (λ a k. not_second (is_active a) _ _ k) h in
      rw
        (
          update_where-none (is_overdue now) expire agents overdue,
          update_where-none (is_outdated version_of) expire agents outdated,
          select_where-none (is_overdue now) agents overdue,
          select_where-none (is_outdated version_of) agents outdated,
        )
        refl

-- What a run of the job did: exactly the agents that were due are retired, each is told of once,
-- and a run right after it finds none.
pub record IsEnforced (version_of : String → Option String) (now : ℕ) (agents : List Agent)
    (r : List Agent × List Expired) : Type 0 where
  pub retired : r.0 ≡ update_where (is_due version_of now) expire agents
  pub told :
      (aid : String)
      → count_where (tells aid) r.1
        ≡ count_where (λ a. is_due version_of now a && str_eq a.aid aid) agents
  pub done : enforce_manifest_expiry version_of now r.0 ≡ (r.0, [])

-- Whatever the table, the job retires exactly the active agents whose manifest has expired or is of
-- another version, tells of each row once, and a run right after it retires and tells of none.
pub enforce_manifest_expiry-IsEnforced :
    (version_of : String → Option String) (now : ℕ) (agents : List Agent)
    → IsEnforced version_of now agents (enforce_manifest_expiry version_of now agents)
unfolding enforce_manifest_expiry
enforce_manifest_expiry-IsEnforced version_of now agents = record {
  retired = retire_both version_of now agents;
  told = λ aid.
      append_count (tells aid)
        (map (expired_for manifest_expired) (select_where (is_overdue now) agents)) _
      ∙ count_both version_of now aid agents;
  done =
      subst (λ xs. enforce_manifest_expiry version_of now xs ≡ (xs, []))
        (sym (retire_both version_of now agents))
        (retire_settled version_of now (update_where (is_due version_of now) expire agents)
          (settled version_of now agents));
}
