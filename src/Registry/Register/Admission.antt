-- ===== src/Registry/Register/Admission.antt =====
-- What `POST /api/registry/agents` (src/app/api/registry/agents/route.ts) registers.
use aitp_control_plane.Prelude.{
  ◌/◌, ◌≡◌, refl, sym, ap, ◌∙◌, subst, Bool, true, false, Option, none, some, String, Bool-cases,
  inl, inr,
}
use aitp_control_plane.Json.{
  Json, null, bool, num, overflow, str, arr, obj, Fields, member, object_at,
}
use aitp_control_plane.Validate.{ColumnProblem, check_column_string}
use aitp_control_plane.Registry.{RegisterInput, Registry, is_spent, register_consuming_jti}
use aitp_control_plane.Registry.Registered.{IsOnce, IsRegistered, register_consuming_jti-IsOnce}
use aitp_control_plane.Registry.Tokens.{Checked, refused, accepted, Validated, validate_token}
use aitp_control_plane.Registry.Tokens.Laws.{IsGenuine, validate_token-IsGenuine}
use aitp_control_plane.Registry.Columns.{
  ManifestProblem, Readings, aid_problem, check_manifest_columns,
}
use aitp_control_plane.Registry.Register.{
  Answer, registered, Service, Request, is_falsy, inner, text_or, register_input, answer_of,
  consume, with_own, with_namespace, checked, header_problem, validated, with_secret, with_aid,
  with_manifest, parsed_body, post_agents, is_version, expires_soon,
}

-- A registration: the body is an envelope with a manifest, the token is genuine for the aid of that
-- manifest and for the body, it was not spent before, the columns hold the manifest, and the agent
-- of that aid is active under the body that was sent.
pub record IsAdmitted (sv : Service) (req : Request) (r r' : Registry) : Type 0 where
  pub secret : String
  pub set : sv.secret ≡ some secret
  pub envelope : Fields
  pub parsed : sv.parse req.body ≡ some (obj envelope)
  pub manifest : Fields
  pub enclosed : object_at (member "manifest" envelope) ≡ some manifest
  pub input : RegisterInput
  pub named : member "aid" manifest ≡ some (str input.aid)
  pub validated : Validated
  pub genuine :
      IsGenuine sv.primitives secret (req.now / 1000) req.token (str input.aid) req.body validated
  pub unspent : is_spent validated.jti r ≡ false
  pub storable : check_manifest_columns sv.readings (obj manifest) ≡ none
  pub sent : input.manifest_json ≡ req.body
  pub done : IsRegistered validated.jti input r'

abbrev pub IsOutcome : Service → Request → Registry → Registry × Answer → Type 0
IsOutcome sv req r (r', registered aid name namespace) = IsAdmitted sv req r r'
IsOutcome sv req r (r', _) = r' ≡ r

-- The aid of a manifest whose columns were checked is a text.
aid_is_text :
    (rd : Readings) (m : Fields) (aid : Json)
    → aid_problem rd m (some aid) ≡ none
    → aid ≡ str (text_or "" aid)
aid_is_text rd m (str s) h = refl
aid_is_text rd m _ h = cc

module _ (sv : Service) (req : Request) (r : Registry) (envelope : Fields)
    (parsed : sv.parse req.body ≡ some (obj envelope)) (m : Fields)
    (enclosed : object_at (member "manifest" envelope) ≡ some m) (aid : Json)
    (there : member "aid" m ≡ some aid) (secret : String) (set : sv.secret ≡ some secret)
    (v : Validated)
    (genuine : IsGenuine sv.primitives secret (req.now / 1000) req.token aid req.body v) where
  consume-IsOutcome :
      (namespace : Option String)
      → check_manifest_columns sv.readings (obj m) ≡ none
      → IsOutcome sv req r (consume sv req m aid v namespace r)
  consume-IsOutcome namespace storable =
      let input = register_input sv req m aid namespace in
      go input refl
        (aid_is_text sv.readings m aid (
          ap (aid_problem sv.readings m) (sym there) ∙ (unfold check_manifest_columns in storable)))
        (register_consuming_jti req.now req.stored v.jti (sv.exp_millis v.exp) input r)
        (register_consuming_jti-IsOnce req.now req.stored v.jti (sv.exp_millis v.exp) input r)
    where
      go :
          (input : RegisterInput)
          → input.manifest_json ≡ req.body
          → aid ≡ str input.aid
          → (result : Registry × Bool) → IsOnce v.jti input r result
          → IsOutcome sv req r (answer_of input result)
      go input sent text (r', false) (spent, same) = same
      go input sent text (r', true) (unspent, done) = record {
        secret = secret;
        set = set;
        envelope = envelope;
        parsed = parsed;
        enclosed = enclosed;
        named = there ∙ ap (λ a. some a) text;
        validated = v;
        genuine =
            subst (λ a. IsGenuine sv.primitives secret (req.now / 1000) req.token a req.body v) text
              genuine;
        unspent = unspent;
        manifest = m;
        storable = storable;
        input = input;
        sent = sent;
        done = done;
      }

  namespace-IsOutcome :
      (own : Option Json) (header : Option String)
      → check_manifest_columns sv.readings (obj m) ≡ none
      → IsOutcome sv req r (with_namespace sv req m aid v own header r)
  namespace-IsOutcome none header storable = consume-IsOutcome header storable
  namespace-IsOutcome (some (str s)) (some h) storable = consume-IsOutcome (some h) storable
  namespace-IsOutcome (some (str s)) none storable = go (check_column_string s 128 none 0)
    where
      go : (p : Option ColumnProblem) → IsOutcome sv req r (with_own sv req m aid v s p r)
      go none = consume-IsOutcome (some s) storable
      go (some p) = refl
  namespace-IsOutcome (some null) h storable = refl
  namespace-IsOutcome (some (bool b)) h storable = refl
  namespace-IsOutcome (some (num t)) h storable = refl
  namespace-IsOutcome (some overflow) h storable = refl
  namespace-IsOutcome (some (arr xs)) h storable = refl
  namespace-IsOutcome (some (obj fs)) h storable = refl

  checked-IsOutcome :
      (p : Option ManifestProblem)
      → check_manifest_columns sv.readings (obj m) ≡ p
      → IsOutcome sv req r (checked sv req m aid v p r)
  checked-IsOutcome (some p) e = refl
  checked-IsOutcome none e = elim (Bool-cases (is_version (member "version" m))) [
    | inr other ↦ simp other refl
    | inl same ↦ elim (Bool-cases (expires_soon sv.readings req.now (member "expires_at" m))) [
      | inl soon ↦ simp (same, soon) refl
      | inr later ↦
          simp (same, later)
            (namespace-IsOutcome (inner "namespace" (object_at (member "extensions" m)))
              req.header_namespace e)
    ]
  ]

module _ (sv : Service) (req : Request) (r : Registry) (envelope : Fields)
    (parsed : sv.parse req.body ≡ some (obj envelope)) where
  secret-IsOutcome :
      (m : Fields)
      → object_at (member "manifest" envelope) ≡ some m
      → (aid : Json) → member "aid" m ≡ some aid
      → (o : Option String) → sv.secret ≡ o
      → IsOutcome sv req r (with_secret sv req m aid o r)
  secret-IsOutcome m enclosed aid there none e = refl
  secret-IsOutcome m enclosed aid there (some secret) e =
      go (header_problem req.header_namespace)
        (validate_token sv.primitives secret (req.now / 1000) req.token aid req.body) refl
    where
      go :
          (header : Option ColumnProblem) (c : Checked Validated)
          → validate_token sv.primitives secret (req.now / 1000) req.token aid req.body ≡ c
          → IsOutcome sv req r (validated sv req m aid header c r)
      go header (refused p) k = refl
      go (some p) (accepted v) k = refl
      go none (accepted v) k =
          checked-IsOutcome sv req r envelope parsed m enclosed aid there secret e v
            (validate_token-IsGenuine sv.primitives secret (req.now / 1000) req.token aid req.body v
              k)
            (check_manifest_columns sv.readings (obj m)) refl

  aid-IsOutcome :
      (m : Fields)
      → object_at (member "manifest" envelope) ≡ some m
      → (o : Option Json) → member "aid" m ≡ o
      → IsOutcome sv req r (with_aid sv req m o r)
  aid-IsOutcome m enclosed none e = refl
  aid-IsOutcome m enclosed (some aid) e = elim (Bool-cases (is_falsy sv.readings (some aid))) [
    | inl missing ↦ simp missing refl
    | inr there ↦ simp there (secret-IsOutcome m enclosed aid e sv.secret refl)
  ]

  manifest-IsOutcome :
      (o : Option Fields)
      → object_at (member "manifest" envelope) ≡ o
      → IsOutcome sv req r (with_manifest sv req o r)
  manifest-IsOutcome none e = refl
  manifest-IsOutcome (some m) e = aid-IsOutcome m e (member "aid" m) refl

parsed-IsOutcome :
    (sv : Service) (req : Request) (r : Registry) (o : Option Json)
    → sv.parse req.body ≡ o
    → IsOutcome sv req r (parsed_body sv req o r)
parsed-IsOutcome sv req r none e = refl
parsed-IsOutcome sv req r (some null) e = refl
parsed-IsOutcome sv req r (some (bool b)) e = refl
parsed-IsOutcome sv req r (some (num t)) e = refl
parsed-IsOutcome sv req r (some overflow) e = refl
parsed-IsOutcome sv req r (some (str s)) e = refl
parsed-IsOutcome sv req r (some (arr xs)) e = refl
parsed-IsOutcome sv req r (some (obj envelope)) e =
    manifest-IsOutcome sv req r envelope e (object_at (member "manifest" envelope)) refl

-- A refused registration leaves the agents and the spent tokens as they are. One that succeeds had
-- a genuine token for the aid of the manifest in its body and for this very body, which it spends,
-- and the agent of that aid is then active under that body.
pub post_agents-IsOutcome :
    (sv : Service) (req : Request) (r : Registry) → IsOutcome sv req r (post_agents sv req r)
unfolding post_agents
post_agents-IsOutcome sv req r = parsed-IsOutcome sv req r (sv.parse req.body) refl
