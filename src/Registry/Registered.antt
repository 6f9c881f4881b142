-- ===== src/Registry/Registered.antt =====
-- What one registration (src/lib/registry/register.ts) does to the tables.
use aitp_control_plane.Prelude.{
  ℕ, ◌≡◌, refl, ap, ◌∙◌, Bool, true, false, some, String, List, [], ◌∷◌, ◌++◌, ◌||◌, any, eq_refl,
  arith, Bool-cases, inl, inr,
}
use aitp_control_plane.Prelude.Tables.{find_where, find-update_some, find_where_sound}
use aitp_control_plane.Registry.{
  Agent, RegisterInput, is_agent, get_agent, new_agent, enroll_again, upsert_agent, Registry,
  is_spent, consume_enrollment_jti, register_consuming_jti,
}

-- Of one registration: a spent token changes nothing, and another is spent by it and leaves the
-- agent active under the manifest that was submitted, whatever its status was.
pub record IsRegistered (jti : String) (input : RegisterInput) (r' : Registry) : Type 0 where
  pub spent : is_spent jti r' ≡ true
  pub agent : Agent
  pub found : get_agent input.aid r'.agents ≡ some agent
  pub active : agent.status ≡ "active"
  pub manifest : agent.manifest_json ≡ input.manifest_json
  pub expires : agent.manifest_expires_at ≡ input.manifest_expires_at

abbrev pub IsOnce : String → RegisterInput → Registry → Registry × Bool → Type 0
IsOnce jti input r (r', true) = (is_spent jti r ≡ false) × IsRegistered jti input r'
IsOnce jti input r (r', false) = (is_spent jti r ≡ true) × (r' ≡ r)

find-known :
    (p : Agent → Bool) (xs : List Agent)
    → any p xs ≡ true
    → (a : Agent) × (find_where p xs ≡ some a)
unfolding find_where
find-known p [] h = cc
find-known p (x ∷ xs) h = elim (Bool-cases (p x)) [
  | inl picked ↦ rw picked (x, refl)
  | inr passed ↦ rw passed (find-known p xs (rw passed at h))
]

find-snoc :
    (p : Agent → Bool) (xs : List Agent) (x : Agent)
    → any p xs ≡ false
    → p x ≡ true
    → find_where p (xs ++ x ∷ []) ≡ some x
unfolding find_where
find-snoc p [] x h k = rw k refl
find-snoc p (y ∷ xs) x h k = ground (arith, find-snoc p xs x)

upsert_agent-IsRegistered :
    (now stored : ℕ) (jti : String) (input : RegisterInput) (r : Registry)
    → is_spent jti r ≡ true
    → IsRegistered jti input (record r { agents = upsert_agent now stored input r.agents })
unfolding upsert_agent get_agent
upsert_agent-IsRegistered now stored jti input r spent =
    elim (Bool-cases (any (is_agent input.aid) r.agents)) [
      | inl old ↦
          let (a, there) = find-known (is_agent input.aid) r.agents old in
          let own : is_agent input.aid a ≡ true =
            find_where_sound (is_agent input.aid) r.agents there in
          rw old (record {
            spent = spent;
            agent = enroll_again now input a;
            found =
                find-update_some (is_agent input.aid) (is_agent input.aid) (enroll_again now input)
                  r.agents (λ x. refl) there
                ∙ rw own refl;
            active = refl;
            manifest = refl;
            expires = refl;
          })
      | inr new ↦ rw new (record {
        spent = spent;
        agent = new_agent now stored input;
        found =
            find-snoc (is_agent input.aid) r.agents (new_agent now stored input) new
              (eq_refl input.aid);
        active = refl;
        manifest = refl;
        expires = refl;
      })
    ]

pub register_consuming_jti-IsOnce :
    (now stored : ℕ) (jti : String) (expires_at : ℕ) (input : RegisterInput) (r : Registry)
    → IsOnce jti input r (register_consuming_jti now stored jti expires_at input r)
unfolding register_consuming_jti consume_enrollment_jti
register_consuming_jti-IsOnce now stored jti expires_at input r =
    elim (Bool-cases (is_spent jti r)) [
      | inl old ↦ simp old (refl, refl)
      | inr new ↦ simp new (
        refl,
        upsert_agent-IsRegistered now stored jti input
            (record r {
              enrollment_jtis = record { jti = jti; expires_at = expires_at } ∷ r.enrollment_jtis;
            })
            (ap (λ b. b || is_spent jti r) (eq_refl jti)),
      )
    ]
