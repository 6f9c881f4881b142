-- ===== src/Ingest/Values/Walk.antt =====
-- What the walk of src/app/api/events/route.ts finds, by recursion on the value.
use aitp_control_plane.Prelude.{
  ℕ, zero, suc, ◌+◌, ◌<◌, ◌≡◌, refl, Bool, true, false, Option, none, some, String, [], ◌∷◌, ◌||◌,
  not, ltb, max, arith, ap, sym, ◌∙◌, Bool-cases, inl, inr, if◌then◌else◌,
}
use aitp_control_plane.Json.{
  Json, null, bool, num, overflow, str, arr, obj, Items, nil, cons, Fields, end, field,
}
use aitp_control_plane.Validate
use aitp_control_plane.Ingest.Values.{
  max_payload_depth, ValueProblem, too_deep, nul_character, lone_surrogate, Flags, no_flags, check,
  Stack, push_items, push_values, check_keys, problem_of, walk, parts, parts_items, parts_fields,
  json_value_problem,
}

-- How deep the arrays and objects of a value are nested.
unfoldable mutual
  pub nesting : Json → ℕ
  nesting (arr xs) = suc (nesting_items xs)
  nesting (obj fs) = suc (nesting_fields fs)
  nesting _ = 0

  pub nesting_items : Items → ℕ
  nesting_items nil = 0
  nesting_items (cons v vs) = max (nesting v) (nesting_items vs)

  pub nesting_fields : Fields → ℕ
  nesting_fields end = 0
  nesting_fields (field k v fs) = max (nesting v) (nesting_fields fs)

-- A key or a string of the value meets a test.
unfoldable mutual
  pub any_text : (String → Bool) → Json → Bool
  any_text p (str s) = p s
  any_text p (arr xs) = any_text_items p xs
  any_text p (obj fs) = any_text_fields p fs
  any_text p _ = false

  pub any_text_items : (String → Bool) → Items → Bool
  any_text_items p nil = false
  any_text_items p (cons v vs) = any_text p v || any_text_items p vs

  pub any_text_fields : (String → Bool) → Fields → Bool
  any_text_fields p end = false
  any_text_fields p (field k v fs) = p k || any_text p v || any_text_fields p fs

-- What makes a value unstorable: too deep before a NUL before a lone surrogate.
unfoldable pub value_problem : (String → Bool) → Json → Option ValueProblem
value_problem w v =
    if ltb max_payload_depth (nesting v)
    then some too_deep
    else if any_text Validate.has_nul v
    then some nul_character
    else if any_text (λ s. not (w s)) v
    then some lone_surrogate
    else none

-- A value at a depth reaches below the limit.
abbrev deep_at : ℕ → ℕ → Bool
deep_at depth zero = false
deep_at depth (suc n) = ltb max_payload_depth (depth + n)

-- The same of a stack.
abbrev any_deep : Stack → Bool
any_deep [] = false
any_deep ((v, depth) ∷ stack) = deep_at depth (nesting v) || any_deep stack

abbrev any_on : (String → Bool) → Stack → Bool
any_on p [] = false
any_on p ((v, depth) ∷ stack) = any_text p v || any_on p stack

abbrev total : Stack → ℕ
total [] = 0
total ((v, depth) ∷ stack) = parts v + total stack

-- The verdict, from the three tests of the flags and the stack.
abbrev verdict : Bool → Bool → Bool → Option ValueProblem
verdict deep nul surrogate =
    if deep
    then some too_deep
    else problem_of (record { has_nul = nul; has_lone_surrogate = surrogate })

abbrev found : (String → Bool) → Flags → Stack → Option ValueProblem
found w flags stack =
    verdict (any_deep stack) (flags.has_nul || any_on Validate.has_nul stack)
      (flags.has_lone_surrogate || any_on (λ s. not (w s)) stack)

deep_at-max : (d a b : ℕ) → deep_at d (max a b) ≡ (deep_at d a || deep_at d b)
deep_at-max d zero b = ground arith
deep_at-max d (suc a) zero = ground arith
deep_at-max d (suc a) (suc b) = ground arith

or_swap : (a b c : Bool) → (a || (b || c)) ≡ ((b || a) || c)
or_swap true true c = refl
or_swap true false c = refl
or_swap false true c = refl
or_swap false false c = refl

or_assoc : (a b c : Bool) → ((a || b) || c) ≡ (a || (b || c))
or_assoc true b c = refl
or_assoc false b c = refl

any_deep-push_items :
    (d : ℕ) (xs : Items) (stack : Stack)
    → any_deep (push_items d xs stack) ≡ (deep_at d (nesting_items xs) || any_deep stack)
unfolding push_items nesting
any_deep-push_items d nil stack = refl
any_deep-push_items d (cons v xs) stack =
    any_deep-push_items d xs ((v, d) ∷ stack)
    ∙ or_swap (deep_at d (nesting_items xs)) (deep_at d (nesting v)) (any_deep stack)
    ∙ ap (λ x. x || any_deep stack) (sym (deep_at-max d (nesting v) (nesting_items xs)))

any_deep-push_values :
    (d : ℕ) (fs : Fields) (stack : Stack)
    → any_deep (push_values d fs stack) ≡ (deep_at d (nesting_fields fs) || any_deep stack)
unfolding push_values nesting
any_deep-push_values d end stack = refl
any_deep-push_values d (field k v fs) stack =
    any_deep-push_values d fs ((v, d) ∷ stack)
    ∙ or_swap (deep_at d (nesting_fields fs)) (deep_at d (nesting v)) (any_deep stack)
    ∙ ap (λ x. x || any_deep stack) (sym (deep_at-max d (nesting v) (nesting_fields fs)))

any_on-push_items :
    (p : String → Bool) (d : ℕ) (xs : Items) (stack : Stack)
    → any_on p (push_items d xs stack) ≡ (any_text_items p xs || any_on p stack)
unfolding push_items any_text
any_on-push_items p d nil stack = refl
any_on-push_items p d (cons v xs) stack = ground (arith, any_on-push_items p d xs ((v, d) ∷ stack))

-- The keys are tested apart from the values.
any_key : (String → Bool) → Fields → Bool
any_key p end = false
any_key p (field k v fs) = p k || any_key p fs

or_field :
    (k ks vs v fs rest : Bool)
    → (ks || vs) ≡ (fs || (v || rest))
    → ((k || ks) || vs) ≡ ((k || v || fs) || rest)
or_field true ks vs v fs rest e = refl
or_field false ks vs v fs rest e = e ∙ or_swap fs v rest

any_on-push_values :
    (p : String → Bool) (d : ℕ) (fs : Fields) (stack : Stack)
    → (any_key p fs || any_on p (push_values d fs stack)) ≡ (any_text_fields p fs || any_on p stack)
unfolding push_values any_text any_key
any_on-push_values p d end stack = refl
any_on-push_values p d (field k v fs) stack =
    or_field (p k) (any_key p fs) (any_on p (push_values d fs ((v, d) ∷ stack))) (any_text p v)
      (any_text_fields p fs) (any_on p stack) (any_on-push_values p d fs ((v, d) ∷ stack))

total-push_items :
    (d : ℕ) (xs : Items) (stack : Stack)
    → total (push_items d xs stack) ≡ parts_items xs + total stack
unfolding push_items parts
total-push_items d nil stack = omega arith
total-push_items d (cons v xs) stack = omega (arith, total-push_items d xs ((v, d) ∷ stack))

total-push_values :
    (d : ℕ) (fs : Fields) (stack : Stack)
    → total (push_values d fs stack) ≡ parts_fields fs + total stack
unfolding push_values parts
total-push_values d end stack = omega arith
total-push_values d (field k v fs) stack = omega (arith, total-push_values d fs ((v, d) ∷ stack))

check_keys-flags :
    (w : String → Bool) (fs : Fields) (flags : Flags)
    → check_keys w fs flags ≡ record {
      has_nul = flags.has_nul || any_key Validate.has_nul fs;
      has_lone_surrogate = flags.has_lone_surrogate || any_key (λ s. not (w s)) fs;
    }
unfolding check_keys any_key
check_keys-flags w end flags = ground arith
check_keys-flags w (field k v fs) flags = ground (arith, check_keys-flags w fs (check w k flags))

deep_at-over : (d n : ℕ) → ltb max_payload_depth d ≡ true → deep_at d (suc n) ≡ true
deep_at-over d n over = ground arith

deep_at-under : (d n : ℕ) → ltb max_payload_depth d ≡ false → deep_at d (suc n) ≡ deep_at (d + 1) n
deep_at-under d zero under = ground arith
deep_at-under d (suc n) under = ground arith

verdict_eq :
    {a b c a' b' c' : Bool}
    → a ≡ a'
    → b ≡ b'
    → c ≡ c'
    → some (verdict a b c) ≡ some (verdict a' b' c')
verdict_eq e f g = cc

on_keys :
    (p : String → Bool) (flag flag' : Bool) (d : ℕ) (fs : Fields) (stack : Stack)
    → flag' ≡ (flag || any_key p fs)
    → (flag' || any_on p (push_values d fs stack))
      ≡ (flag || (any_text_fields p fs || any_on p stack))
on_keys p flag flag' d fs stack e =
    ap (λ x. x || any_on p (push_values d fs stack)) e
    ∙ or_assoc flag (any_key p fs) (any_on p (push_values d fs stack))
    ∙ ap (λ x. flag || x) (any_on-push_values p d fs stack)

or_false : (a : Bool) → (a || false) ≡ a
or_false true = refl
or_false false = refl

deep_at-root : (n : ℕ) → (deep_at 1 n || false) ≡ ltb max_payload_depth n
deep_at-root zero = ground arith
deep_at-root (suc n) = ground arith

walk-found :
    (w : String → Bool) (n : ℕ) (flags : Flags) (stack : Stack)
    → total stack < n
    → walk n w flags stack ≡ some (found w flags stack)
unfolding walk nesting any_text parts
walk-found w zero flags stack h = absurd (omega (arith, h))
walk-found w (suc n) flags [] h = ground arith
walk-found w (suc n) flags ((null, d) ∷ stack) h = walk-found w n flags stack (omega (arith, h))
walk-found w (suc n) flags ((bool b, d) ∷ stack) h = walk-found w n flags stack (omega (arith, h))
walk-found w (suc n) flags ((num t, d) ∷ stack) h = walk-found w n flags stack (omega (arith, h))
walk-found w (suc n) flags ((overflow, d) ∷ stack) h = walk-found w n flags stack (omega (arith, h))
walk-found w (suc n) flags ((str s, d) ∷ stack) h =
    walk-found w n (check w s flags) stack (omega (arith, h))
    ∙ verdict_eq refl (or_assoc flags.has_nul (Validate.has_nul s) (any_on Validate.has_nul stack))
        (or_assoc flags.has_lone_surrogate (not (w s)) (any_on (λ t. not (w t)) stack))
walk-found w (suc n) flags ((arr xs, d) ∷ stack) h = elim (Bool-cases (ltb max_payload_depth d)) [
  | inl over ↦ ground (arith, over, deep_at-over d (nesting_items xs) over)
  | inr under ↦
      let step : walk (suc n) w flags ((arr xs, d) ∷ stack)
          ≡ walk n w flags (push_items (d + 1) xs stack) =
        ground (arith, under) in
      step
      ∙ walk-found w n flags (push_items (d + 1) xs stack)
          (omega (arith, h, total-push_items (d + 1) xs stack))
      ∙ verdict_eq
          (any_deep-push_items (d + 1) xs stack
            ∙ ap (λ x. x || any_deep stack) (sym (deep_at-under d (nesting_items xs) under)))
          (ap (λ x. flags.has_nul || x) (any_on-push_items Validate.has_nul (d + 1) xs stack))
          (ap (λ x. flags.has_lone_surrogate || x)
            (any_on-push_items (λ t. not (w t)) (d + 1) xs stack))
]
walk-found w (suc n) flags ((obj fs, d) ∷ stack) h = elim (Bool-cases (ltb max_payload_depth d)) [
  | inl over ↦ ground (arith, over, deep_at-over d (nesting_fields fs) over)
  | inr under ↦
      let step : walk (suc n) w flags ((obj fs, d) ∷ stack)
          ≡ walk n w (check_keys w fs flags) (push_values (d + 1) fs stack) =
        ground (arith, under) in
      step
      ∙ walk-found w n (check_keys w fs flags) (push_values (d + 1) fs stack)
          (omega (arith, h, total-push_values (d + 1) fs stack))
      ∙ verdict_eq
          (any_deep-push_values (d + 1) fs stack
            ∙ ap (λ x. x || any_deep stack) (sym (deep_at-under d (nesting_fields fs) under)))
          (on_keys Validate.has_nul flags.has_nul (check_keys w fs flags).has_nul (d + 1) fs stack
            (ap (λ g. g.has_nul) (check_keys-flags w fs flags)))
          (on_keys (λ t. not (w t)) flags.has_lone_surrogate
            (check_keys w fs flags).has_lone_surrogate (d + 1) fs stack
            (ap (λ g. g.has_lone_surrogate) (check_keys-flags w fs flags)))
]

-- A JSON value is answered whatever its size, and the answer is the specification's.
pub json_value_problem-value_problem :
    (w : String → Bool) (v : Json) → json_value_problem w v ≡ some (value_problem w v)
unfolding json_value_problem value_problem
json_value_problem-value_problem w v =
    walk-found w (suc (parts v)) no_flags ((v, 1) ∷ []) (omega arith)
    ∙ verdict_eq (deep_at-root (nesting v)) (or_false (any_text Validate.has_nul v))
        (or_false (any_text (λ s. not (w s)) v))
