-- ===== src/Gate/Grants.antt =====
-- The reasons for which `proxy` of src/proxy.ts lets a request go on.
use aitp_control_plane.Prelude.{
  ℕ, ◌≡◌, refl, Bool, true, false, Option, none, some, String, [], ◌∷◌, ◌&&◌, not, str_eq, arith,
  Bool-cases, inl, inr, subst,
}
use aitp_control_plane.Prelude.Maps.{Map, get}
use aitp_control_plane.RateLimit.{Limiter, check}
use aitp_control_plane.RateLimit.Buckets.{Decision}
use aitp_control_plane.Gate.Paths.{
  is_public_request, is_api_path, includes, rate_limit_exempt_paths,
}
use aitp_control_plane.Gate.Request.{Incoming, Settings, IssuerKey, bearer_token}
use aitp_control_plane.Gate.{
  Choice, is_empty_map, Answer, forwarded, issuer_key_route, issuer_key_of, Auth, allowed, refused,
  is_given, token_text, by_label, look_up, admin_key, authorize, non_empty, aid_of, pass_through,
  by_decision, choose_rate_limit, limit_rate, after_auth, proxy,
}

-- The reasons for which a request may go on, each with the key label and the issuer that the
-- handler then sees.
pub data Grant (cfg : Settings) (r : Incoming) : Option String → Option String → Type 0 where
  public_route : is_public_request r.pathname r.method ≡ true → Grant cfg r none none
  unguarded : cfg.key_labels ≡ [] → cfg.is_production ≡ false → Grant cfg r none none
  admin :
      (label : String)
      → get (token_text (bearer_token r)) cfg.key_labels ≡ some label
      → is_given (bearer_token r) ≡ true
      → Grant cfg r (some label) none
  issuer :
      (k : IssuerKey)
      → get (token_text (bearer_token r)) cfg.issuer_keys ≡ some k
      → str_eq r.pathname issuer_key_route ≡ true
      → str_eq r.method "GET" ≡ true
      → is_given (bearer_token r) ≡ true
      → Grant cfg r (non_empty (some k.label)) (non_empty (some k.aid))

-- What an answer says about the request if it lets it go on.
abbrev pub Justified : Settings → Incoming → Answer → Type 0
Justified cfg r (forwarded label aid ip) = Grant cfg r label aid
Justified cfg r _ = Unit

abbrev Permitted : Settings → Incoming → Option IssuerKey → Auth → Type 0
Permitted cfg r k (allowed label) = Grant cfg r (non_empty label) (non_empty (aid_of k))
Permitted cfg r k (refused a) = Justified cfg r a

look_up-admin :
    (cfg : Settings) (r : Incoming) (label : String)
    → look_up cfg (bearer_token r) ≡ some label
    → Grant cfg r (some label) none
look_up-admin cfg r label e = elim (Bool-cases (is_given (bearer_token r))) [
  | inl given ↦ admin label (ground (arith, given, e)) given
  | inr missing ↦ ground (arith, missing, e)
]

by_label-Permitted :
    (cfg : Settings) (r : Incoming) (found : Option String)
    → look_up cfg (bearer_token r) ≡ found
    → Permitted cfg r none (by_label found)
by_label-Permitted cfg r none e = tt
by_label-Permitted cfg r (some label) e = elim (Bool-cases (str_eq label "")) [
  | inl empty ↦ rw (empty, by_label) tt
  | inr filled ↦ rw (filled, by_label) (rw (filled, non_empty) (look_up-admin cfg r label e))
]

no_keys {ℓ} : {V : Type ℓ} (m : Map V) → is_empty_map m ≡ true → m ≡ []
no_keys [] e = refl
no_keys (x ∷ m) e = ground arith

admin_key-Permitted :
    (cfg : Settings) (r : Incoming) → Permitted cfg r none (admin_key cfg (bearer_token r))
unfolding admin_key
admin_key-Permitted cfg r = elim (Bool-cases (is_empty_map cfg.key_labels)) [
  | inl empty ↦ elim (Bool-cases cfg.is_production) [
    | inl production ↦ rw (empty, admin_key) (simp production tt)
    | inr development ↦
        rw (empty, admin_key)
          (simp development (unguarded (no_keys cfg.key_labels empty) development))
  ]
  | inr configured ↦ rw (configured, admin_key) (by_label-Permitted cfg r _ refl)
]

issuer_key_of_sound :
    (cfg : Settings) (r : Incoming) (k : IssuerKey)
    → issuer_key_of cfg r (bearer_token r) ≡ some k
    → Grant cfg r (non_empty (some k.label)) (non_empty (some k.aid))
unfolding issuer_key_of
issuer_key_of_sound cfg r k e =
    elim (Bool-cases
      (str_eq r.pathname issuer_key_route && str_eq r.method "GET" && is_given (bearer_token r))) [
        | inl asked ↦
            issuer k (ground (arith, asked, e)) (ground (arith, asked)) (ground (arith, asked))
              (ground (arith, asked))
        | inr other ↦ ground (arith, other, e)
      ]

authorize-Permitted :
    (cfg : Settings) (r : Incoming) (is_public : Bool) (k : Option IssuerKey)
    → is_public_request r.pathname r.method ≡ is_public
    → issuer_key_of cfg r (bearer_token r) ≡ k
    → Permitted cfg r k (authorize cfg r (bearer_token r) is_public k)
unfolding authorize
authorize-Permitted cfg r is_public (some k) p e = issuer_key_of_sound cfg r k e
authorize-Permitted cfg r true none p e = public_route p
authorize-Permitted cfg r false none p e = admin_key-Permitted cfg r

by_decision-Justified :
    (cfg : Settings) (r : Incoming) (a : Answer) (c : Choice) (now : ℕ) (p : Limiter × Decision)
    → Justified cfg r a
    → Justified cfg r (by_decision a c now p).1
by_decision-Justified cfg r a c now (l, d) h = elim (Bool-cases d.allowed) [
  | inl e ↦ rw (e, by_decision) h
  | inr e ↦ rw (e, by_decision) tt
]

limit_rate-Justified :
    (cfg : Settings) (now : ℕ) (r : Incoming) (token : Option String) (is_public : Bool)
    (a : Answer) (l : Limiter)
    → Justified cfg r a
    → Justified cfg r (limit_rate cfg now r token is_public a l).1
unfolding limit_rate
limit_rate-Justified cfg now r token is_public a l h =
    elim (Bool-cases
      (cfg.rate_limit_enabled && not (includes rate_limit_exempt_paths r.pathname))) [
        | inl e ↦
            rw (e, limit_rate)
              (by_decision-Justified cfg r a (choose_rate_limit cfg r token is_public) now
                (check (choose_rate_limit cfg r token is_public).bucket_name
                  (choose_rate_limit cfg r token is_public).key
                  (choose_rate_limit cfg r token is_public).limit cfg.window_ms now l)
                h)
        | inr e ↦ rw (e, limit_rate) h
      ]

after_auth-Justified :
    (cfg : Settings) (now : ℕ) (r : Incoming) (token : Option String) (is_public : Bool)
    (k : Option IssuerKey) (auth : Auth) (l : Limiter)
    → Permitted cfg r k auth
    → Justified cfg r (after_auth cfg now r token is_public k auth l).1
unfolding after_auth pass_through
after_auth-Justified cfg now r token is_public k (refused a) l h = h
after_auth-Justified cfg now r token is_public k (allowed label) l h =
    limit_rate-Justified cfg now r token is_public _ l h

proxy-Justified :
    (cfg : Settings) (now : ℕ) (r : Incoming) (l : Limiter) → Justified cfg r (proxy cfg now r l).1
unfolding proxy
proxy-Justified cfg now r l = elim (Bool-cases (is_api_path r.pathname)) [
  | inr e ↦ rw (e, proxy) tt
  | inl e ↦ elim (Bool-cases (str_eq r.method "OPTIONS")) [
    | inl o ↦ rw (e, proxy) (rw o tt)
    | inr o ↦
        rw (e, proxy)
          (rw o
            (after_auth-Justified cfg now r _ _ _ _ l (authorize-Permitted cfg r _ _ refl refl)))
  ]
]

-- A request that the gate forwards has a reason for it: its route is public, no keys are
-- configured outside production, its token is an API key, or it is a GET on the revocations route
-- with an issuer key as its token. The label and the issuer that the handler sees are those of
-- that reason.
pub forwarded_only_granted :
    (cfg : Settings) (now : ℕ) (r : Incoming) (l : Limiter) (label aid ip : Option String)
    → (proxy cfg now r l).1 ≡ forwarded label aid ip
    → Grant cfg r label aid
forwarded_only_granted cfg now r l label aid ip e =
    subst (Justified cfg r) e (proxy-Justified cfg now r l)
