-- ===== src/Audit/Canonical/Spec.antt =====
-- Canonical JSON by recursion, and the loop of src/lib/audit/event-id.ts against it.
use Prim.Native.String
use aitp_control_plane.Prelude.{
  ◌≡◌, refl, Bool, true, false, String, List, [], ◌∷◌, map, Bool-cases, inl, inr, ap, ◌∙◌,
}
use aitp_control_plane.Prelude.Tables.{select_where}
use aitp_control_plane.Json.{
  Json, null, bool, num, overflow, str, arr, obj, Items, nil, cons, Fields, end, field,
}
use aitp_control_plane.Audit.Canonical.{
  utf16, is_before, insert_key, sort_keys, Printer, bool_text, string_text, is_kept,
}

abbrev pub separator : Bool → String → String
separator true text = text
separator false text = String.◌++◌ "," text

unfoldable pub join_items : Bool → List String → String
join_items first [] = "]"
join_items first (t ∷ ts) = separator first (String.◌++◌ t (join_items false ts))

unfoldable pub join_members : Printer → Bool → List (String × String) → String
join_members p first [] = "}"
join_members p first ((k, t) ∷ ts) =
    separator first
      (String.◌++◌ (String.◌++◌ (p.quote k) ":") (String.◌++◌ t (join_members p false ts)))

unfoldable mutual
  pub canonical : Printer → Json → String
  canonical p null = "null"
  canonical p (bool b) = bool_text b
  canonical p (num n) = n
  canonical p overflow = "null"
  canonical p (str s) = string_text p s
  canonical p (arr xs) = String.◌++◌ "[" (join_items true (texts p xs))
  canonical p (obj fs) =
      String.◌++◌ "{"
        (join_members p true (sort_keys (select_where (is_kept p fs) (member_texts p fs))))

  pub texts : Printer → Items → List String
  texts p nil = []
  texts p (cons v vs) = canonical p v ∷ texts p vs

  pub member_texts : Printer → Fields → List (String × String)
  member_texts p end = []
  member_texts p (field k v fs) = (k, canonical p v) ∷ member_texts p fs

module _ {ℓ κ} {A : Type ℓ} {B : Type κ} (f : A → B) where
  abbrev pub over : String × A → String × B
  over (k, a) = (k, f a)

  pub map-insert_key :
      (m : String × A) (ms : List (String × A))
      → map over (insert_key m ms) ≡ insert_key (over m) (map over ms)
  unfolding insert_key
  map-insert_key (k, a) [] = refl
  map-insert_key (k, a) ((j, b) ∷ ms) = elim (Bool-cases (is_before (utf16 k) (utf16 j))) [
    | inl first ↦ rw first refl
    | inr later ↦ rw later (ap (λ l. (j, f b) ∷ l) (map-insert_key (k, a) ms))
  ]

  pub map-sort_keys : (ms : List (String × A)) → map over (sort_keys ms) ≡ sort_keys (map over ms)
  unfolding sort_keys
  map-sort_keys [] = refl
  map-sort_keys (m ∷ ms) =
      map-insert_key m (sort_keys ms) ∙ ap (insert_key (over m)) (map-sort_keys ms)

  pub map-select_where :
      (p : Printer) (o : Fields) (ms : List (String × A))
      → map over (select_where (is_kept p o) ms) ≡ select_where (is_kept p o) (map over ms)
  unfolding select_where
  map-select_where p o [] = refl
  map-select_where p o ((k, a) ∷ ms) = elim (Bool-cases (is_kept p o (k, a))) [
    | inl kept ↦ rw kept (ap (λ l. (k, f a) ∷ l) (map-select_where p o ms))
    | inr left ↦ rw left (map-select_where p o ms)
  ]
