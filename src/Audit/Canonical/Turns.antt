-- ===== src/Audit/Canonical/Turns.antt =====
-- The loop of `canonicalJson` in src/lib/audit/event-id.ts, turn by turn.
use Prim.Native.String
use text.Mathlib.TextLemmas.{append_assoc}
use aitp_control_plane.Prelude.{
  ℕ, suc, ◌+◌, ◌≤◌, ◌≡◌, refl, Bool, true, false, String, List, [], ◌∷◌, map, arith, Bool-cases,
  inl, inr, sym, ap, ◌∙◌, All,
}
use aitp_control_plane.Prelude.Tables.{select_where}
use aitp_control_plane.Json.{Json, Items, nil, cons, Fields, end, field, items, members}
use aitp_control_plane.Audit.Canonical.{
  utf16, is_before, insert_key, sort_keys, Printer, Frame, lit, value, separated, push_items,
  push_members, turn, loop, weight, weight_items, weight_fields,
}
use aitp_control_plane.Audit.Canonical.Spec.{separator, join_items, join_members, canonical, over}

module _ (p : Printer) where
  later_turns :
      (a b n : ℕ) (out : String) (stack : List Frame)
      → loop (a + (b + n)) p out stack ≡ loop (a + b + n) p out stack
  later_turns a b n out stack = ap (λ m. loop m p out stack) (omega arith)

  lit-turn :
      (n : ℕ) (out text : String) (stack : List Frame)
      → loop (1 + n) p out (lit text ∷ stack) ≡ loop n p (String.◌++◌ out text) stack
  unfolding loop
  lit-turn n out text stack =
      let e : 1 + n ≡ suc n = omega arith in ap (λ m. loop m p out (lit text ∷ stack)) e

  -- What a list of frames comes to.
  pub record IsRun (limit : ℕ) (frames : List Frame → List Frame) (text : String) : Type 0 where
    pub turns : ℕ
    pub bounded : turns ≤ limit
    pub run :
        (n : ℕ) (out : String) (stack : List Frame)
        → loop (turns + n) p out (frames stack) ≡ loop n p (String.◌++◌ out text) stack

  lit-IsRun : (text : String) → IsRun 1 (λ stack. lit text ∷ stack) text
  lit-IsRun text = record {
    turns = 1;
    bounded = omega arith;
    run = λ n out stack. lit-turn n out text stack;
  }

  -- One after the other.
  both-IsRun :
      {a b : ℕ} {f g : List Frame → List Frame} {s t : String}
      → IsRun a f s
      → IsRun b g t
      → IsRun (a + b) (λ stack. f (g stack)) (String.◌++◌ s t)
  both-IsRun {g = g} {s = s} {t = t} x y = record {
    turns = x.turns + y.turns;
    bounded = omega (arith, x.bounded, y.bounded);
    run = λ n out stack.
        sym (later_turns x.turns y.turns n out _)
        ∙ x.run (y.turns + n) out (g stack)
        ∙ y.run n (String.◌++◌ out s) stack
        ∙ ap (λ o. loop n p o stack) (append_assoc out s t);
  }

  -- More turns are no harm.
  pub more-IsRun :
      {a b : ℕ} {f : List Frame → List Frame} {t : String} → a ≤ b → IsRun a f t → IsRun b f t
  more-IsRun le x = record { turns = x.turns; bounded = omega (arith, le, x.bounded); run = x.run }

  -- A value is written in some turns, no more than its weight, whatever lies below it.
  abbrev pub IsWritten : Json → Type 0
  IsWritten v = IsRun (weight v) (λ stack. value v ∷ stack) (canonical p v)

  separated-IsRun :
      (first : Bool) {a : ℕ} {f : List Frame → List Frame} {t : String}
      → IsRun a f t
      → IsRun (1 + a) (λ stack. separated first (f stack)) (separator first t)
  separated-IsRun true x = more-IsRun (omega arith) x
  separated-IsRun false x = both-IsRun (lit-IsRun ",") x

  unfoldable pub total_items : List Json → ℕ
  total_items [] = 1
  total_items (v ∷ vs) = 1 + (weight v + total_items vs)

  pub push_items-IsRun :
      (first : Bool) (vs : List Json)
      → All IsWritten vs
      → IsRun (total_items vs) (push_items first vs) (join_items first (map (canonical p) vs))
  unfolding push_items join_items total_items
  push_items-IsRun first [] h = lit-IsRun "]"
  push_items-IsRun first (v ∷ vs) (w, h) =
      separated-IsRun first (both-IsRun w (push_items-IsRun false vs h))

  unfoldable pub total_members : List (String × Json) → ℕ
  total_members [] = 1
  total_members ((k, v) ∷ ms) = 1 + (1 + (weight v + total_members ms))

  abbrev pub IsWrittenMember : String × Json → Type 0
  IsWrittenMember (k, v) = IsWritten v

  pub push_members-IsRun :
      (first : Bool) (ms : List (String × Json))
      → All IsWrittenMember ms
      → IsRun
          (total_members ms)
          (push_members p first ms)
          (join_members p first (map (over (canonical p)) ms))
  unfolding push_members join_members total_members
  push_members-IsRun first [] h = lit-IsRun "}"
  push_members-IsRun first ((k, v) ∷ ms) (w, h) = separated-IsRun first (
      both-IsRun (lit-IsRun (String.◌++◌ (p.quote k) ":"))
        (both-IsRun w (push_members-IsRun false ms h)))

  value-turn :
      (v : Json) (n : ℕ) (out : String) (stack : List Frame)
      → loop (1 + n) p out (value v ∷ stack)
        ≡ loop n p (String.◌++◌ out (turn p v stack).0) (turn p v stack).1
  unfolding loop
  value-turn v n out stack =
      let e : 1 + n ≡ suc n = omega arith in ap (λ m. loop m p out (value v ∷ stack)) e

  pub atom-IsRun :
      (v : Json) (text : String)
      → ((stack : List Frame) → turn p v stack ≡ (text, stack))
      → IsRun 1 (λ stack. value v ∷ stack) text
  atom-IsRun v text h = record {
    turns = 1;
    bounded = omega arith;
    run = λ n out stack. value-turn v n out stack ∙ rw (h stack) refl;
  }

  pub opened-IsRun :
      (v : Json) (text : String) {a : ℕ} {f : List Frame → List Frame} {t : String}
      → ((stack : List Frame) → turn p v stack ≡ (text, f stack))
      → IsRun a f t
      → IsRun (1 + a) (λ stack. value v ∷ stack) (String.◌++◌ text t)
  opened-IsRun v text {f = f} {t = t} h x = record {
    turns = 1 + x.turns;
    bounded = omega (arith, x.bounded);
    run = λ n out stack.
        sym (later_turns 1 x.turns n out (value v ∷ stack))
        ∙ value-turn v (x.turns + n) out stack
        ∙ rw (h stack) (x.run n (String.◌++◌ out text) stack)
        ∙ ap (λ o. loop n p o stack) (append_assoc out text t);
  }

  pub total-insert_key :
      (k : String) (v : Json) (ms : List (String × Json))
      → total_members (insert_key (k, v) ms) ≡ 2 + weight v + total_members ms
  unfolding total_members insert_key
  total-insert_key k v [] = omega arith
  total-insert_key k v ((j, w) ∷ ms) = elim (Bool-cases (is_before (utf16 k) (utf16 j))) [
    | inl first ↦ rw first (omega arith)
    | inr later ↦ rw later (omega (arith, total-insert_key k v ms))
  ]

  pub total-sort_keys :
      (ms : List (String × Json)) → total_members (sort_keys ms) ≡ total_members ms
  unfolding total_members sort_keys
  total-sort_keys [] = refl
  total-sort_keys ((k, v) ∷ ms) =
      omega (arith, total-insert_key k v (sort_keys ms), total-sort_keys ms)

  pub total-select_where :
      (q : String × Json → Bool) (ms : List (String × Json))
      → total_members (select_where q ms) ≤ total_members ms
  unfolding total_members select_where
  total-select_where q [] = omega arith
  total-select_where q ((k, v) ∷ ms) = elim (Bool-cases (q (k, v))) [
    | inl kept ↦ rw kept (omega (arith, total-select_where q ms))
    | inr left ↦ rw left (omega (arith, total-select_where q ms))
  ]

  pub total-members : (fs : Fields) → total_members (members fs) ≡ 1 + weight_fields fs
  unfolding total_members members weight
  total-members end = refl
  total-members (field k v fs) = omega (arith, total-members fs)

  pub total-items : (xs : Items) → total_items (items xs) ≡ 1 + weight_items xs
  unfolding total_items items weight
  total-items nil = refl
  total-items (cons v xs) = omega (arith, total-items xs)
