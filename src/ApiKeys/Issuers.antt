-- ===== src/ApiKeys/Issuers.antt =====
-- What is known of the issuer keys that src/lib/api-keys.ts reads.
use aitp_control_plane.Prelude.{
  ℕ, suc, ◌≡◌, refl, Bool, true, false, Option, none, some, String, List, [], ◌∷◌, ◌++◌, ◌&&◌, not,
  any, str_eq, arith, Bool-cases, inl, inr, All,
}
use aitp_control_plane.ApiKeys.{
  Warning, malformed, label_is_secret, key_is_admin, key_repeated, warn, is_well_formed,
  looks_like_secret, IssuerKeyEntry, ParsedIssuerKeys, read_item, add_entry, take_entry, take_items,
  parse_issuer_keys,
}

-- No two entries have one text.
unfoldable pub distinct_by : (IssuerKeyEntry → String) → List IssuerKeyEntry → Bool
distinct_by f [] = true
distinct_by f (e ∷ es) =
    let later = distinct_by f es in not (any (λ x. str_eq (f e) (f x)) es) && later

-- An entry that opens no more than its issuer's list: it is well formed, its key is no admin key
-- and its label gives neither its own key nor an admin key away.
pub record IsBound (admin : List String) (e : IssuerKeyEntry) : Type 0 where
  pub well_formed : is_well_formed e ≡ true
  pub no_admin : any (λ k. str_eq k e.key) admin ≡ false
  pub no_secret : looks_like_secret e.label (e.key ∷ admin) ≡ false

-- The entries that are read: bound, with one key each, and with one label each unless there is an
-- error.
pub record IsRing (admin : List String) (p : ParsedIssuerKeys) : Type 0 where
  pub bound : All (IsBound admin) p.entries
  pub keys_distinct : distinct_by (λ e. e.key) p.entries ≡ true
  pub labels_distinct : p.errors ≡ [] → distinct_by (λ e. e.label) p.entries ≡ true

All-append :
    {A : Type 0} (Q : A → Type 0) (xs : List A) (x : A) → All Q xs → Q x → All Q (xs ++ x ∷ [])
All-append Q [] x h q = (q, tt)
All-append Q (y ∷ xs) x (p, h) q = (p, All-append Q xs x h q)

any-append :
    (p : IssuerKeyEntry → Bool) (es : List IssuerKeyEntry) (e : IssuerKeyEntry)
    → any p es ≡ false
    → p e ≡ false
    → any p (es ++ e ∷ []) ≡ false
any-append p [] e h k = ground (arith, k)
any-append p (x ∷ es) e h k = ground (arith, h, k, any-append p es e)

distinct-append :
    (f : IssuerKeyEntry → String) (es : List IssuerKeyEntry) (e : IssuerKeyEntry)
    → distinct_by f es ≡ true
    → any (λ x. str_eq (f x) (f e)) es ≡ false
    → distinct_by f (es ++ e ∷ []) ≡ true
unfolding distinct_by
distinct-append f [] e h k = refl
distinct-append f (x ∷ es) e h k =
    ground (arith, h, k, distinct-append f es e, any-append (λ y. str_eq (f x) (f y)) es e)

warn-IsRing :
    (admin : List String) (position : ℕ) (w : Warning) (p : ParsedIssuerKeys)
    → IsRing admin p
    → IsRing admin (warn position w p)
warn-IsRing admin position w p h = record {
  bound = h.bound;
  keys_distinct = h.keys_distinct;
  labels_distinct = h.labels_distinct;
}

append-not_nil : (xs : List ℕ) (x : ℕ) → xs ++ x ∷ [] ≡ [] → ⊥
append-not_nil [] x h = cc
append-not_nil (y ∷ xs) x h = cc

add_entry-IsRing :
    (admin : List String) (position : ℕ) (e : IssuerKeyEntry) (p : ParsedIssuerKeys)
    → IsBound admin e
    → any (λ x. str_eq x.key e.key) p.entries ≡ false
    → IsRing admin p
    → IsRing admin (add_entry position e p)
add_entry-IsRing admin position e p bound new h = record {
  bound = All-append (IsBound admin) p.entries e h.bound bound;
  keys_distinct = distinct-append (λ e. e.key) p.entries e h.keys_distinct new;
  labels_distinct = elim (Bool-cases (any (λ x. str_eq x.label e.label) p.entries)) [
    | inl taken ↦ rw taken (λ none. absurd (append-not_nil p.errors position none))
    | inr free ↦
        rw free (λ none. distinct-append (λ e. e.label) p.entries e (h.labels_distinct none) free)
  ];
}

take_entry-IsRing :
    (admin : List String) (position : ℕ) (o : Option IssuerKeyEntry) (p : ParsedIssuerKeys)
    → IsRing admin p
    → IsRing admin (take_entry admin position o p)
unfolding take_entry
take_entry-IsRing admin position none p h = warn-IsRing admin position malformed p h
take_entry-IsRing admin position (some e) p h = elim (Bool-cases (is_well_formed e)) [
  | inr bad ↦ simp bad (warn-IsRing admin position malformed p h)
  | inl good ↦ simp good (elim (Bool-cases (looks_like_secret e.label (e.key ∷ admin))) [
    | inl leak ↦ simp leak (warn-IsRing admin position label_is_secret p h)
    | inr safe ↦ simp safe (elim (Bool-cases (any (λ k. str_eq k e.key) admin)) [
      | inl shared ↦ simp shared (warn-IsRing admin position key_is_admin p h)
      | inr own ↦ simp own (elim (Bool-cases (any (λ x. str_eq x.key e.key) p.entries)) [
        | inl again ↦ simp again (warn-IsRing admin position key_repeated p h)
        | inr new ↦ simp new (
            add_entry-IsRing admin position e p
              (record { well_formed = good; no_admin = own; no_secret = safe }) new h)
      ])
    ])
  ])
]

take_items-IsRing :
    (trim : String → String) (admin : List String) (position : ℕ) (items : List String)
    (p : ParsedIssuerKeys)
    → IsRing admin p
    → IsRing admin (take_items trim admin position items p)
unfolding take_items
take_items-IsRing trim admin position [] p h = h
take_items-IsRing trim admin position (item ∷ items) p h =
    take_items-IsRing trim admin (suc position) items
      (take_entry admin position (read_item trim item) p)
      (take_entry-IsRing admin position (read_item trim item) p h)

-- Whatever ISSUER_KEYS is, no issuer key that is read is an admin key, every entry is well formed
-- and its label gives neither its own key nor an admin key away, no key comes twice, and without
-- errors no label comes twice.
pub parse_issuer_keys-IsRing :
    (trim : String → String) (raw : Option String) (admin : List String)
    → IsRing admin (parse_issuer_keys trim raw admin)
unfolding parse_issuer_keys distinct_by
parse_issuer_keys-IsRing trim raw admin =
    take_items-IsRing trim admin 1 _ _
      (record { bound = tt; keys_distinct = refl; labels_distinct = λ none. refl })
