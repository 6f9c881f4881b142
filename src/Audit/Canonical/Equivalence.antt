-- ===== src/Audit/Canonical/Equivalence.antt =====
-- `canonicalJson` of src/lib/audit/event-id.ts against canonical JSON by recursion.
use text.Mathlib.TextLemmas.{nil-append}
use aitp_control_plane.Prelude.{
  suc, ◌+◌, ◌-◌, ◌≤◌, ◌≡◌, refl, Bool, true, some, String, List, [], ◌∷◌, map, arith, Bool-cases,
  inl, inr, ap, ◌∙◌, subst, All,
}
use aitp_control_plane.Prelude.Tables.{select_where}
use aitp_control_plane.Json.{
  Json, null, bool, num, overflow, str, arr, obj, Items, nil, cons, Fields, end, field, items,
  members,
}
use aitp_control_plane.Audit.Canonical.{
  utf16, is_before, insert_key, sort_keys, Printer, value, bool_text, string_text, is_kept,
  push_items, push_members, ordered, turn, loop, weight, weight_items, weight_fields,
  canonical_json,
}
use aitp_control_plane.Audit.Canonical.Spec.{
  join_items, join_members, canonical, texts, member_texts, over, map-sort_keys, map-select_where,
}
use aitp_control_plane.Audit.Canonical.Turns.{
  IsRun, IsWritten, IsWrittenMember, more-IsRun, push_items-IsRun, push_members-IsRun, atom-IsRun,
  opened-IsRun, total_members, total-sort_keys, total-select_where, total-members, total-items,
}

module _ (p : Printer) where
  All-insert_key :
      (k : String) (v : Json) (ms : List (String × Json))
      → IsWritten p v
      → All (IsWrittenMember p) ms
      → All (IsWrittenMember p) (insert_key (k, v) ms)
  unfolding insert_key
  All-insert_key k v [] w h = (w, tt)
  All-insert_key k v ((j, u) ∷ ms) w (w', h) = elim (Bool-cases (is_before (utf16 k) (utf16 j))) [
    | inl first ↦ rw first (w, (w', h))
    | inr later ↦ rw later (w', All-insert_key k v ms w h)
  ]

  All-sort_keys :
      (ms : List (String × Json))
      → All (IsWrittenMember p) ms
      → All (IsWrittenMember p) (sort_keys ms)
  unfolding sort_keys
  All-sort_keys [] h = tt
  All-sort_keys ((k, v) ∷ ms) (w, h) = All-insert_key k v (sort_keys ms) w (All-sort_keys ms h)

  All-select_where :
      (q : String × Json → Bool) (ms : List (String × Json))
      → All (IsWrittenMember p) ms
      → All (IsWrittenMember p) (select_where q ms)
  unfolding select_where
  All-select_where q [] h = tt
  All-select_where q ((k, v) ∷ ms) (w, h) = elim (Bool-cases (q (k, v))) [
    | inl kept ↦ rw kept (w, All-select_where q ms h)
    | inr left ↦ rw left (All-select_where q ms h)
  ]

  texts-items : (xs : Items) → map (canonical p) (items xs) ≡ texts p xs
  unfolding canonical items
  texts-items nil = refl
  texts-items (cons v xs) = ap (λ l. canonical p v ∷ l) (texts-items xs)

  texts-members : (fs : Fields) → map (over (canonical p)) (members fs) ≡ member_texts p fs
  unfolding canonical members
  texts-members end = refl
  texts-members (field k v fs) = ap (λ l. (k, canonical p v) ∷ l) (texts-members fs)

  texts-ordered :
      (fs : Fields)
      → map (over (canonical p)) (ordered p fs)
        ≡ sort_keys (select_where (is_kept p fs) (member_texts p fs))
  unfolding ordered
  texts-ordered fs =
      map-sort_keys (canonical p) _
      ∙ ap sort_keys (
          map-select_where (canonical p) p fs (members fs)
          ∙ ap (select_where (is_kept p fs)) (texts-members fs))

  weight-ordered : (fs : Fields) → total_members p (ordered p fs) ≤ 1 + weight_fields fs
  unfolding ordered
  weight-ordered fs = omega (
    arith,
    total-sort_keys p (select_where (is_kept p fs) (members fs)),
    total-select_where p (is_kept p fs) (members fs),
    total-members p fs,
  )

  mutual
    unfolding canonical weight turn items members ordered

    written : (v : Json) → IsWritten p v
    written null = atom-IsRun p null "null" (λ stack. refl)
    written (bool b) = atom-IsRun p (bool b) (bool_text b) (λ stack. refl)
    written (num n) = atom-IsRun p (num n) n (λ stack. refl)
    written overflow = atom-IsRun p overflow "null" (λ stack. refl)
    written (str s) = atom-IsRun p (str s) (string_text p s) (λ stack. refl)
    written (arr xs) = more-IsRun p (omega arith) (
        opened-IsRun p (arr xs) "[" (λ stack. refl)
          (subst
            (λ ts. IsRun p (1 + weight_items xs) (push_items true (items xs)) (join_items true ts))
            (texts-items xs)
            (more-IsRun p (omega (arith, total-items p xs))
              (push_items-IsRun p true (items xs) (items-IsWritten xs)))))
    written (obj fs) = more-IsRun p (omega arith) (
        opened-IsRun p (obj fs) "{" (λ stack. refl)
          (subst
            (λ ts.
              IsRun p (1 + weight_fields fs) (push_members p true (ordered p fs))
                (join_members p true ts))
            (texts-ordered fs)
            (more-IsRun p (weight-ordered fs) (
              push_members-IsRun p true (ordered p fs) (
                All-sort_keys _
                  (All-select_where (is_kept p fs) (members fs) (members-IsWritten fs)))))))

    items-IsWritten : (xs : Items) → All (IsWritten p) (items xs)
    items-IsWritten nil = tt
    items-IsWritten (cons v xs) = (written v, items-IsWritten xs)

    members-IsWritten : (fs : Fields) → All (IsWrittenMember p) (members fs)
    members-IsWritten end = tt
    members-IsWritten (field k v fs) = (written v, members-IsWritten fs)

-- The loop ends within the weight of the value and writes what the recursion writes.
pub canonical_json-canonical : (p : Printer) (v : Json) → canonical_json p v ≡ some (canonical p v)
unfolding canonical_json
canonical_json-canonical p v =
    let w = written p v in
    let fuel : suc (weight v) ≡ w.turns + suc (weight v - w.turns) = omega (arith, w.bounded) in
    ap (λ n. loop n p "" (value v ∷ [])) fuel
    ∙ w.run (suc (weight v - w.turns)) "" []
    ∙ (unfold loop in ap some (nil-append (canonical p v)))
