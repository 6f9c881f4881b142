-- ===== src/Tcts/Revoke/Replay/Issued.antt =====
-- A list of tokens that `recordIssuedTcts` of src/lib/tcts/monitor.ts handles twice in a row.
use aitp_control_plane.Prelude.{
  ◌≡◌, refl, Bool, true, Option, String, List, [], ◌∷◌, any, arith, Bool-cases, inl, inr,
}
use aitp_control_plane.Json.{Json}
use aitp_control_plane.Uuid.{Uuid, uuid_eq, uuid_eq_iff}
use aitp_control_plane.Tcts.Parse.{Parsed, skipped, thrown, parsed, ParsedTct, parse_tct}
use aitp_control_plane.Tcts.Observe.{verify_observed_tct, gate_observed}
use aitp_control_plane.Tcts.Store.{Store, Report, Monitor, insert_tct, project_tct, record_tcts}

abbrev has_tct : Uuid → Store → Bool
has_tct jti s = any (λ r. uuid_eq r.tct.jti jti) s.issued_tcts

uuid_eq_refl : (a : Uuid) → uuid_eq a a ≡ true
uuid_eq_refl a = ground (arith, uuid_eq_iff a a)

insert_tct-there :
    (tct : ParsedTct) (session_id : Option String) (s : Store)
    → has_tct tct.jti (insert_tct tct session_id s) ≡ true
unfolding insert_tct
insert_tct-there tct session_id s = elim (Bool-cases (has_tct tct.jti s)) [
  | inl old ↦ rw old old
  | inr new ↦ rw new (ground (arith, uuid_eq_refl tct.jti))
]

insert_tct-keeps :
    (jti : Uuid) (tct : ParsedTct) (session_id : Option String) (s : Store)
    → has_tct jti s ≡ true
    → has_tct jti (insert_tct tct session_id s) ≡ true
unfolding insert_tct
insert_tct-keeps jti tct session_id s h = elim (Bool-cases (has_tct tct.jti s)) [
  | inl old ↦ rw old h
  | inr new ↦ rw new (ground (arith, h))
]

module _ (m : Monitor) (e : Report) where
  -- Of a list, every token that is projected has its row.
  abbrev IsCovered : Parsed ParsedTct → Json → (Store → Type 0) → Store → Type 0
  IsCovered thrown raw rest s = Unit
  IsCovered skipped raw rest s = rest s
  IsCovered (parsed tct) raw rest s =
      (gate_observed m.mode (verify_observed_tct m.sdk raw tct) ≡ true → has_tct tct.jti s ≡ true)
      × rest s

  pub AreCovered : List Json → Store → Type 0
  AreCovered [] s = Unit
  AreCovered (raw ∷ raws) s = IsCovered (parse_tct m.codec raw e.ts) raw (AreCovered raws) s

  record_tcts-keeps :
      (raws : List Json) (s : Store) (jti : Uuid)
      → has_tct jti s ≡ true
      → has_tct jti (record_tcts m e raws s) ≡ true
  unfolding record_tcts
  record_tcts-keeps [] s jti h = h
  record_tcts-keeps (raw ∷ raws) s jti h =
      go (λ s'. record_tcts-keeps raws s' jti) (parse_tct m.codec raw e.ts)
    where
      go :
          ((s' : Store) → has_tct jti s' ≡ true → has_tct jti (record_tcts m e raws s') ≡ true)
          → (p : Parsed ParsedTct)
          → has_tct jti (project_tct m e raw p (record_tcts m e raws) s) ≡ true
      go next thrown = h
      go next skipped = next s h
      go next (parsed tct) =
          elim (Bool-cases (gate_observed m.mode (verify_observed_tct m.sdk raw tct))) [
            | inl passed ↦
                rw passed
                  (next (insert_tct tct e.session_id s) (insert_tct-keeps jti tct e.session_id s h))
            | inr stopped ↦ rw stopped (next s h)
          ]

  pub record_tcts-AreCovered :
      (raws : List Json) (s : Store) → AreCovered raws (record_tcts m e raws s)
  unfolding record_tcts AreCovered
  record_tcts-AreCovered [] s = tt
  record_tcts-AreCovered (raw ∷ raws) s =
      go (record_tcts-AreCovered raws) (parse_tct m.codec raw e.ts)
    where
      go :
          ((s' : Store) → AreCovered raws (record_tcts m e raws s'))
          → (p : Parsed ParsedTct)
          → IsCovered p raw (AreCovered raws) (project_tct m e raw p (record_tcts m e raws) s)
      go next thrown = tt
      go next skipped = next s
      go next (parsed tct) =
          elim (Bool-cases (gate_observed m.mode (verify_observed_tct m.sdk raw tct))) [
            | inl passed ↦ rw passed (
              λ k.
                  record_tcts-keeps raws (insert_tct tct e.session_id s) tct.jti
                    (insert_tct-there tct e.session_id s),
              next (insert_tct tct e.session_id s),
            )
            | inr stopped ↦ rw stopped (λ k. absurd (cc), next s)
          ]

  pub record_tcts-covered :
      (raws : List Json) (s : Store) → AreCovered raws s → record_tcts m e raws s ≡ s
  unfolding record_tcts AreCovered insert_tct
  record_tcts-covered [] s h = refl
  record_tcts-covered (raw ∷ raws) s h =
      go (record_tcts-covered raws s) (parse_tct m.codec raw e.ts) h
    where
      go :
          (AreCovered raws s → record_tcts m e raws s ≡ s)
          → (p : Parsed ParsedTct) → IsCovered p raw (AreCovered raws) s
          → project_tct m e raw p (record_tcts m e raws) s ≡ s
      go next thrown h = refl
      go next skipped h = next h
      go next (parsed tct) (there, h) =
          elim (Bool-cases (gate_observed m.mode (verify_observed_tct m.sdk raw tct))) [
            | inl passed ↦ rw (passed, there passed) (next h)
            | inr stopped ↦ rw stopped (next h)
          ]
