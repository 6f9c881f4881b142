-- ===== src/Tcts/Reports.antt =====
-- What the list of reported tokens of src/lib/tcts/monitor.ts leads to: the rows of `issued_tcts`,
-- where an exception ends the list, and what the check of a token depends on.
use aitp_control_plane.Prelude.{
  ◌≡◌, ◌⊎◌, refl, true, Option, none, some, String, List, [], ◌∷◌, ◌++◌, any, arith, Bool-cases,
  Option-cases, inl, inr, sym, ap, subst,
}
use aitp_control_plane.Prelude.Tables.{In}
use aitp_control_plane.Json.{Json}
use aitp_control_plane.Uuid.{uuid_eq}
use aitp_control_plane.Tcts.Read.{wrapper_token}
use aitp_control_plane.Tcts.Parse.{Parsed, skipped, thrown, parsed, ParsedTct, parse_tct}
use aitp_control_plane.Tcts.Observe.{
  VerificationMode, strict, Sdk, of_sdk, check_grant, check_tct, decide_projection,
  verify_observed_tct, gate_observed,
}
use aitp_control_plane.Tcts.Store.{
  TctRow, Store, Report, Monitor, insert_tct, project_tct, record_tcts,
}

-- A reported entry from which strict mode may project a token: the projection is its own, and the
-- verifier takes the signed token for the first grant and the audience of the projection.
pub record IsVouched (m : Monitor) (e : Report) (raws : List Json) (tct : ParsedTct) : Type 0 where
  pub raw : Json
  pub listed : In raw raws
  pub read : parse_tct m.codec raw e.ts ≡ parsed tct
  pub token : String
  pub carried : wrapper_token (some raw) ≡ some token
  pub grant : String
  pub others : List String
  pub granted : tct.grants ≡ grant ∷ others
  pub accepted : m.sdk.verify_tct token grant tct.audience_aid ≡ none

check_grant-verified :
    (sdk : Sdk) (token : String) (tct : ParsedTct) (grants : List String)
    → (check_grant sdk token tct grants).verified ≡ true
    → (grant : String) × (others : List String) × (grants ≡ grant ∷ others)
      × (sdk.verify_tct token grant tct.audience_aid ≡ none)
check_grant-verified sdk token tct [] h = cc
check_grant-verified sdk token tct (grant ∷ others) h =
    (grant, others, refl, accepted (sdk.verify_tct token grant tct.audience_aid) h)
  where
    accepted : (o : Option String) → (of_sdk o).verified ≡ true → o ≡ none
    accepted none h = refl
    accepted (some message) h = cc

module _ (m : Monitor) (e : Report) (is_strict : m.mode ≡ strict) where
  gate-IsVouched :
      (raw : Json) (raws : List Json) (tct : ParsedTct)
      → In raw raws
      → parse_tct m.codec raw e.ts ≡ parsed tct
      → gate_observed m.mode (verify_observed_tct m.sdk raw tct) ≡ true
      → IsVouched m e raws tct
  unfolding gate_observed decide_projection verify_observed_tct
  gate-IsVouched raw raws tct listed read passed =
      let ok : (verify_observed_tct m.sdk raw tct).verified ≡ true =
        ground (arith, passed, is_strict) in
      elim (Option-cases (wrapper_token (some raw))) [
        | inl missing ↦ let h = rw missing at ok in cc
        | inr (token, carried) ↦
            let (grant, others, granted, accepted) =
              check_grant-verified m.sdk token tct tct.grants (rw carried at ok) in
            record {
              raw = raw;
              listed = listed;
              read = read;
              token = token;
              carried = carried;
              grant = grant;
              others = others;
              granted = granted;
              accepted = accepted;
            }
      ]

  later-IsVouched :
      (raw : Json) (raws : List Json) (tct : ParsedTct)
      → IsVouched m e raws tct
      → IsVouched m e (raw ∷ raws) tct
  later-IsVouched raw raws tct v = record {
    raw = v.raw;
    listed = inr v.listed;
    read = v.read;
    token = v.token;
    carried = v.carried;
    grant = v.grant;
    others = v.others;
    granted = v.granted;
    accepted = v.accepted;
  }

  insert_tct-row :
      (tct : ParsedTct) (session_id : Option String) (s : Store) (r : TctRow)
      → In r (insert_tct tct session_id s).issued_tcts
      → In r s.issued_tcts ⊎ (r.tct ≡ tct)
  unfolding insert_tct
  insert_tct-row tct session_id s r there =
      elim (Bool-cases (any (λ r. uuid_eq r.tct.jti tct.jti) s.issued_tcts)) [
        | inl old ↦ inl (simp old at there)
        | inr new ↦ elim (simp new at there) [
          | inl same ↦ inr (ap (λ r. r.tct) same)
          | inr before ↦ inl before
        ]
      ]

  strict_loop :
      (raws : List Json) (s : Store) (r : TctRow)
      → In r (record_tcts m e raws s).issued_tcts
      → In r s.issued_tcts ⊎ IsVouched m e raws r.tct
  unfolding record_tcts
  strict_loop [] s r there = inl there
  strict_loop (raw ∷ raws) s r there =
      go (λ s'. strict_loop raws s' r) (parse_tct m.codec raw e.ts) refl there
    where
      go :
          ((s' : Store)
            → In r (record_tcts m e raws s').issued_tcts
            → In r s'.issued_tcts ⊎ IsVouched m e raws r.tct)
          → (p : Parsed ParsedTct) → parse_tct m.codec raw e.ts ≡ p
          → In r (project_tct m e raw p (record_tcts m e raws) s).issued_tcts
          → In r s.issued_tcts ⊎ IsVouched m e (raw ∷ raws) r.tct
      go next thrown read there = inl there
      go next skipped read there = elim (next s there) [
        | inl before ↦ inl before
        | inr v ↦ inr (later-IsVouched raw raws r.tct v)
      ]
      go next (parsed tct) read there = elim (next _ there) [
        | inr v ↦ inr (later-IsVouched raw raws r.tct v)
        | inl before ↦
            elim (Bool-cases (gate_observed m.mode (verify_observed_tct m.sdk raw tct)))
              as (λ _. In r s.issued_tcts ⊎ IsVouched m e (raw ∷ raws) r.tct) [
                | inr stopped ↦ inl (simp stopped at before)
                | inl passed ↦ elim (insert_tct-row tct e.session_id s r (simp passed at before)) [
                  | inl old ↦ inl old
                  | inr same ↦ inr (
                      subst (λ t. IsVouched m e (raw ∷ raws) t) (sym same)
                        (gate-IsVouched raw (raw ∷ raws) tct (inl refl) read passed))
                ]
              ]
      ]

-- In strict mode every row that a report adds to `issued_tcts` is of an entry of the report whose
-- signed token the verifier takes.
pub record_tcts-IsVouched :
    (m : Monitor) (e : Report) (raws : List Json) (s : Store)
    → m.mode ≡ strict
    → (r : TctRow) → In r (record_tcts m e raws s).issued_tcts
    → In r s.issued_tcts ⊎ IsVouched m e raws r.tct
record_tcts-IsVouched m e raws s is_strict r there = strict_loop m e is_strict raws s r there

-- The verdict of the check reads no more of the claims than the grants and the audience.
pub gate_observed-claims :
    (mode : VerificationMode) (sdk : Sdk) (raw : Json) (a b : ParsedTct)
    → a.grants ≡ b.grants
    → a.audience_aid ≡ b.audience_aid
    → gate_observed mode (verify_observed_tct sdk raw a)
      ≡ gate_observed mode (verify_observed_tct sdk raw b)
unfolding verify_observed_tct
gate_observed-claims mode sdk raw a b grants audience =
    ap (gate_observed mode) (go (wrapper_token (some raw)))
  where
    go : (o : Option String) → check_tct sdk o a ≡ check_tct sdk o b
    go none = refl
    go (some token) = simp grants (same b.grants)
      where
        same : (gs : List String) → check_grant sdk token a gs ≡ check_grant sdk token b gs
        same [] = refl
        same (g ∷ gs) = rw audience refl

-- An entry with a time out of range ends the report: what follows it is not projected, and what
-- precedes it is.
pub record_tcts_thrown :
    (m : Monitor) (e : Report) (before : List Json) (raw : Json) (after : List Json) (s : Store)
    → parse_tct m.codec raw e.ts ≡ thrown
    → record_tcts m e (before ++ raw ∷ after) s ≡ record_tcts m e before s
unfolding record_tcts
record_tcts_thrown m e [] raw after s h = rw h refl
record_tcts_thrown m e (x ∷ before) raw after s h =
    elim (parse_tct m.codec x e.ts)
      as (λ p.
        project_tct m e x p (record_tcts m e (before ++ raw ∷ after)) s
        ≡ project_tct m e x p (record_tcts m e before) s) [
          | thrown ↦ refl
          | skipped ↦ record_tcts_thrown m e before raw after s h
          | parsed tct ↦ record_tcts_thrown m e before raw after _ h
        ]
