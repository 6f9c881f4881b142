-- ===== src/Gate/Passage.antt =====
-- What the gate in src/proxy.ts does with the limiter: what a refusal leaves alone, and which requests go on.
use aitp_control_plane.Prelude.{
  ℕ, ◌≡◌, refl, Bool, true, false, Option, none, some, String, [], ◌∷◌, ◌&&◌, not, str_eq, arith,
  Bool-cases, inl, inr, ◌∙◌,
}
use aitp_control_plane.Prelude.Maps.{Map, get}
use aitp_control_plane.RateLimit.{Limiter, check}
use aitp_control_plane.RateLimit.Buckets.{Decision}
use aitp_control_plane.Gate.Paths.{
  is_public_request, is_api_path, includes, rate_limit_exempt_paths,
}
use aitp_control_plane.Gate.Request.{Incoming, Settings, IssuerKey, bearer_token, client_ip}
use aitp_control_plane.Gate.{
  Choice, is_empty_map, Answer, forwarded, misconfigured, unauthorized, issuer_key_of, Auth,
  allowed, refused, is_given, token_text, by_label, look_up, admin_key, authorize, non_empty,
  known_ip, aid_of, pass_through, by_decision, choose_rate_limit, limit_rate, after_auth, proxy,
}

-- A test for the answers that refuse a request on its key.
abbrev pub is_key_refusal : Answer → Bool
is_key_refusal misconfigured = true
is_key_refusal unauthorized = true
is_key_refusal _ = false

by_decision-decided :
    (a : Answer) (c : Choice) (now : ℕ) (p : Limiter × Decision)
    → p.1.allowed ≡ true
    → (by_decision a c now p).1 ≡ a
by_decision-decided a c now (l, d) e = rw (e, by_decision) refl

by_decision-counted :
    (a : Answer) (c : Choice) (now : ℕ) (p : Limiter × Decision)
    → is_key_refusal a ≡ false
    → is_key_refusal (by_decision a c now p).1 ≡ false
by_decision-counted a c now (l, d) e = elim (Bool-cases d.allowed) [
  | inl admitted ↦ rw (admitted, by_decision) e
  | inr full ↦ rw (full, by_decision) refl
]

limit_rate-counted :
    (cfg : Settings) (now : ℕ) (r : Incoming) (token : Option String) (is_public : Bool)
    (a : Answer) (l : Limiter)
    → is_key_refusal a ≡ false
    → is_key_refusal (limit_rate cfg now r token is_public a l).1 ≡ false
unfolding limit_rate
limit_rate-counted cfg now r token is_public a l h =
    elim (Bool-cases
      (cfg.rate_limit_enabled && not (includes rate_limit_exempt_paths r.pathname))) [
        | inl e ↦
            rw (e, limit_rate)
              (by_decision-counted a (choose_rate_limit cfg r token is_public) now
                (check (choose_rate_limit cfg r token is_public).bucket_name
                  (choose_rate_limit cfg r token is_public).key
                  (choose_rate_limit cfg r token is_public).limit cfg.window_ms now l)
                h)
        | inr e ↦ rw (e, limit_rate) h
      ]

after_auth-uncounted :
    (cfg : Settings) (now : ℕ) (r : Incoming) (token : Option String) (is_public : Bool)
    (k : Option IssuerKey) (auth : Auth) (l : Limiter)
    → is_key_refusal (after_auth cfg now r token is_public k auth l).1 ≡ true
    → (after_auth cfg now r token is_public k auth l).0 ≡ l
unfolding after_auth pass_through
after_auth-uncounted cfg now r token is_public k (refused a) l h = refl
after_auth-uncounted cfg now r token is_public k (allowed label) l h =
    ground
      (arith, h, limit_rate-counted cfg now r token is_public (pass_through cfg r label k) l refl)

-- A request that is refused on its key, for want of a known one or of any configured one, leaves
-- the rate limiter as it was: wrong keys are not counted.
key_refusal_uncounted :
    (cfg : Settings) (now : ℕ) (r : Incoming) (l : Limiter)
    → is_key_refusal (proxy cfg now r l).1 ≡ true
    → (proxy cfg now r l).0 ≡ l
unfolding proxy
key_refusal_uncounted cfg now r l = elim (Bool-cases (is_api_path r.pathname)) [
  | inr e ↦ rw (e, proxy) (λ h. refl)
  | inl e ↦ elim (Bool-cases (str_eq r.method "OPTIONS")) [
    | inl o ↦ rw (e, proxy) (rw o (λ h. refl))
    | inr o ↦ rw (e, proxy) (rw o (after_auth-uncounted cfg now r _ _ _ _ l))
  ]
]

-- The limiter's decision on the request.
abbrev pub decision_on : Settings → ℕ → Incoming → Limiter → Decision
decision_on cfg now r l =
    let choice = choose_rate_limit cfg r (bearer_token r) (is_public_request r.pathname r.method) in
    (check choice.bucket_name choice.key choice.limit cfg.window_ms now l).1

limit_rate-allowed :
    (cfg : Settings) (now : ℕ) (r : Incoming) (a : Answer) (l : Limiter)
    → (decision_on cfg now r l).allowed ≡ true
    → (limit_rate cfg now r (bearer_token r) (is_public_request r.pathname r.method) a l).1 ≡ a
unfolding limit_rate
limit_rate-allowed cfg now r a l h =
    elim (Bool-cases
      (cfg.rate_limit_enabled && not (includes rate_limit_exempt_paths r.pathname))) [
        | inl e ↦ rw (e, limit_rate) (rw h refl)
        | inr e ↦ rw (e, limit_rate) refl
      ]

found-configured {ℓ} :
    {V : Type ℓ} (k : String) (m : Map V) (v : V) → get k m ≡ some v → is_empty_map m ≡ false
unfolding get
found-configured k [] v e = ground (arith, e)
found-configured k (x ∷ m) v e = refl

admin_key-known :
    (cfg : Settings) (token : Option String) (label : String)
    → is_given token ≡ true
    → get (token_text token) cfg.key_labels ≡ some label
    → str_eq label "" ≡ false
    → admin_key cfg token ≡ allowed (some label)
unfolding admin_key
admin_key-known cfg token label given found filled =
    rw (found-configured _ cfg.key_labels label found, admin_key)
      (rw (given, look_up) (rw (found, by_label) (rw (filled, by_label) refl)))

authorize-known :
    (cfg : Settings) (r : Incoming) (token : Option String) (is_public : Bool)
    (k : Option IssuerKey) (label : String)
    → is_public ≡ false
    → k ≡ none
    → admin_key cfg token ≡ allowed (some label)
    → authorize cfg r token is_public k ≡ allowed (some label)
unfolding authorize
authorize-known cfg r token is_public (some k) label closed no_issuer e = ground (arith, no_issuer)
authorize-known cfg r token true none label closed no_issuer e = ground (arith, closed)
authorize-known cfg r token false none label closed no_issuer e = e

pass_through-keyed :
    (cfg : Settings) (r : Incoming) (k : Option IssuerKey) (label : String)
    → str_eq label "" ≡ false
    → k ≡ none
    → pass_through cfg r (some label) k ≡ forwarded (some label) none (known_ip (client_ip cfg r))
unfolding pass_through
pass_through-keyed cfg r k label filled no_issuer =
    rw (no_issuer, aid_of) (rw (filled, non_empty) refl)

-- On a route that is not public, a request whose token is a configured key with a label, and not
-- an issuer key of the route, goes on as soon as the limiter allows it, with that key's label and
-- no issuer.
known_key_forwarded :
    (cfg : Settings) (now : ℕ) (r : Incoming) (l : Limiter) (label : String)
    → is_api_path r.pathname ≡ true
    → str_eq r.method "OPTIONS" ≡ false
    → is_public_request r.pathname r.method ≡ false
    → issuer_key_of cfg r (bearer_token r) ≡ none
    → is_given (bearer_token r) ≡ true
    → get (token_text (bearer_token r)) cfg.key_labels ≡ some label
    → str_eq label "" ≡ false
    → (decision_on cfg now r l).allowed ≡ true
    → (proxy cfg now r l).1 ≡ forwarded (some label) none (known_ip (client_ip cfg r))
unfolding proxy after_auth
known_key_forwarded cfg now r l label api method closed no_issuer given found filled free =
    rw (api, proxy)
      (rw (method, proxy)
        (rw
          (
            authorize-known cfg r (bearer_token r) _ _ label closed no_issuer
                (admin_key-known cfg (bearer_token r) label given found filled),
            after_auth,
          )
          (limit_rate-allowed cfg now r _ l free
            ∙ pass_through-keyed cfg r _ label filled no_issuer)))
