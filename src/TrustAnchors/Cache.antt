-- ===== src/TrustAnchors/Cache.antt =====
-- Whose keys the cache of a trust anchor holds, however passes of the refresher
-- (src/lib/trust-anchors/jwks-refresher.ts) and administrators interleave.
use aitp_control_plane.Prelude.{
  ℕ, ◌≡◌, refl, ap, Bool, true, false, Option, none, some, String, List, [], ◌∷◌, not, any, eq_iff,
  or_else, arith, Bool-cases, inl, inr, All,
}
use aitp_control_plane.Prelude.Tables.{In, update_where, select_where, find_where, All-update_where}
use aitp_control_plane.Json.{Json}
use aitp_control_plane.TrustAnchors.{
  Anchor, same_text, Changes, is_other_issuer, is_other_jwks, url_changed, apply_changes,
  patch_anchor, patch_found, clashes, delete_anchor, insert_anchor, new_anchor, has_id, holds,
  is_unchanged, write_keys,
}
use aitp_control_plane.TrustAnchors.Fetch.{Net, fetch_jwks}

-- What happens to the table. A pass has read a row, `seen`, at any time before; it then fetches the
-- keyset of the URLs that it saw, over the network as it is then, and writes it.
pub data Step : Type 0 where
  created : String → String → String → Option String → Option String → Option String → ℕ → Step
  patching : ℕ → String → Changes → Step
  deleting : String → Step
  refreshing : Net → ℕ → Anchor → Step

abbrev pub write_fetched : ℕ → Anchor → Option Json → List Anchor → List Anchor
write_fetched now seen none anchors = anchors
write_fetched now seen (some keys) anchors = write_keys now seen keys anchors

unfoldable pub act : Step → List Anchor → List Anchor
act (created id namespace issuer jwks label added_by stored) anchors =
    (insert_anchor (new_anchor id namespace issuer jwks label added_by stored) anchors).0
act (patching now id c) anchors = (patch_anchor now id c anchors).0
act (deleting id) anchors = (delete_anchor id anchors).0
act (refreshing net now seen) anchors =
    write_fetched now seen (fetch_jwks net seen.issuer_url seen.jwks_url) anchors

unfoldable pub act_all : List Step → List Anchor → List Anchor
act_all [] anchors = anchors
act_all (s ∷ ss) anchors = act_all ss (act s anchors)

-- A keyset that a pass of the refresher fetched, with the URLs that it fetched it for.
pub record Fetched : Type 0 where
  pub issuer_url : String
  pub jwks_url : Option String
  pub keys : Json

abbrev fetched_by : Anchor → Option Json → List Fetched → List Fetched
fetched_by seen none past = past
fetched_by seen (some keys) past =
    record { issuer_url = seen.issuer_url; jwks_url = seen.jwks_url; keys = keys } ∷ past

-- What has been fetched after a step and after all of them, the latest first.
abbrev fetches : Step → List Fetched → List Fetched
fetches (refreshing net now seen) past =
    fetched_by seen (fetch_jwks net seen.issuer_url seen.jwks_url) past
fetches _ past = past

unfoldable pub all_fetches : List Step → List Fetched → List Fetched
all_fetches [] past = past
all_fetches (s ∷ ss) past = all_fetches ss (fetches s past)

-- A cached keyset is one that was fetched for the URLs that its row has now.
abbrev pub IsCacheOf : List Fetched → String → Option String → Option Json → Type 0
IsCacheOf past issuer jwks none = Unit
IsCacheOf past issuer jwks (some keys) =
    In (record { issuer_url = issuer; jwks_url = jwks; keys = keys }) past

abbrev pub IsOwn : List Fetched → Anchor → Type 0
IsOwn past a = IsCacheOf past a.issuer_url a.jwks_url a.jwks_cache

later-IsOwn : (f : Fetched) (past : List Fetched) (a : Anchor) → IsOwn past a → IsOwn (f ∷ past) a
later-IsOwn f past a h = go a.jwks_cache h
  where
    go :
        (o : Option Json)
        → IsCacheOf past a.issuer_url a.jwks_url o
        → IsCacheOf (f ∷ past) a.issuer_url a.jwks_url o
    go none h = tt
    go (some keys) h = inr h

same_text_sound : (a b : Option String) → same_text a b ≡ true → a ≡ b
same_text_sound none none h = refl
same_text_sound (some a) (some b) h = ap (λ s. some s) (ground (arith, h, eq_iff a b))
same_text_sound none (some b) h = cc
same_text_sound (some a) none h = cc

-- What a write does to a row.
write-IsOwn :
    (past : List Fetched) (now : ℕ) (seen : Anchor) (keys : Json) (a : Anchor)
    → is_unchanged seen a ≡ true
    → IsOwn
        (fetched_by seen (some keys) past)
        (record a { jwks_cache = some keys; jwks_cached_at = some now })
write-IsOwn past now seen keys a h =
    let issuer : a.issuer_url ≡ seen.issuer_url =
      ground (arith, h, eq_iff a.issuer_url seen.issuer_url) in
    let jwks : a.jwks_url ≡ seen.jwks_url =
      same_text_sound a.jwks_url seen.jwks_url (ground (arith, h)) in
    inl (rw (issuer, jwks) refl)

same_issuer : (o : Option String) (i : String) → is_other_issuer o i ≡ false → or_else o i ≡ i
same_issuer none i h = refl
same_issuer (some j) i h = ground (arith, h, eq_iff j i)

same_jwks :
    (o : Option (Option String)) (j : Option String) → is_other_jwks o j ≡ false → or_else o j ≡ j
same_jwks none j h = refl
same_jwks (some k) j h = same_text_sound k j (ground (arith, h))

apply_changes-IsOwn :
    (past : List Fetched) (now : ℕ) (c : Changes) (a : Anchor)
    → IsOwn past a
    → IsOwn past (apply_changes now c a)
apply_changes-IsOwn past now c a h = elim (Bool-cases (url_changed c a)) [
  | inl changed ↦ simp changed tt
  | inr kept ↦
      let issuer : or_else c.issuer_url a.issuer_url ≡ a.issuer_url =
        same_issuer c.issuer_url a.issuer_url (unfold url_changed in ground (arith, kept)) in
      let jwks : or_else c.jwks_url a.jwks_url ≡ a.jwks_url =
        same_jwks c.jwks_url a.jwks_url (unfold url_changed in ground (arith, kept)) in
      simp (kept, issuer, jwks) h
]

All-select_where :
    (P : Anchor → Type 0) (p : Anchor → Bool) (xs : List Anchor)
    → All P xs
    → All P (select_where p xs)
unfolding select_where
All-select_where P p [] h = tt
All-select_where P p (x ∷ xs) (q, h) = elim (Bool-cases (p x)) [
  | inl picked ↦ rw picked (q, All-select_where P p xs h)
  | inr left ↦ rw left (All-select_where P p xs h)
]

write_keys-AreOwn :
    (past : List Fetched) (now : ℕ) (seen : Anchor) (keys : Json) (anchors : List Anchor)
    → All (IsOwn past) anchors
    → All (IsOwn (fetched_by seen (some keys) past)) (write_keys now seen keys anchors)
unfolding write_keys update_where
write_keys-AreOwn past now seen keys [] h = tt
write_keys-AreOwn past now seen keys (a ∷ anchors) (own, h) =
    elim (Bool-cases (is_unchanged seen a)) [
      | inl same ↦
          simp same
            (write-IsOwn past now seen keys a same, write_keys-AreOwn past now seen keys anchors h)
      | inr other ↦
          simp other (later-IsOwn _ past a own, write_keys-AreOwn past now seen keys anchors h)
    ]

patch-AreOwn :
    (past : List Fetched) (now : ℕ) (id : String) (c : Changes) (o : Option Anchor) (clash : Bool)
    (anchors : List Anchor)
    → All (IsOwn past) anchors
    → All (IsOwn past) (patch_found now id c o clash anchors).0
patch-AreOwn past now id c none clash anchors h = h
patch-AreOwn past now id c (some a) true anchors h = h
patch-AreOwn past now id c (some a) false anchors h =
    All-update_where (IsOwn past) (has_id id) (apply_changes now c) anchors
      (λ x own. apply_changes-IsOwn past now c x own) h

insert-AreOwn :
    (past : List Fetched) (a : Anchor) (anchors : List Anchor)
    → IsOwn past a
    → All (IsOwn past) anchors
    → All (IsOwn past) (insert_anchor a anchors).0
unfolding insert_anchor
insert-AreOwn past a anchors own h =
    elim (Bool-cases (any (holds a.namespace a.issuer_url) anchors)) [
      | inl held ↦ rw held h
      | inr new ↦ rw new (own, h)
    ]

act-AreOwn :
    (s : Step) (past : List Fetched) (anchors : List Anchor)
    → All (IsOwn past) anchors
    → All (IsOwn (fetches s past)) (act s anchors)
unfolding act patch_anchor delete_anchor
act-AreOwn (created id namespace issuer jwks label added_by stored) past anchors h =
    insert-AreOwn past (new_anchor id namespace issuer jwks label added_by stored) anchors tt h
act-AreOwn (patching now id c) past anchors h =
    patch-AreOwn past now id c (find_where (has_id id) anchors)
      (clashes c id (find_where (has_id id) anchors) anchors) anchors h
act-AreOwn (deleting id) past anchors h =
    All-select_where (IsOwn past) (λ a. not (has_id id a)) anchors h
act-AreOwn (refreshing net now seen) past anchors h =
    go (fetch_jwks net seen.issuer_url seen.jwks_url) refl
  where
    go :
        (o : Option Json)
        → fetch_jwks net seen.issuer_url seen.jwks_url ≡ o
        → All (IsOwn (fetched_by seen o past)) (write_fetched now seen o anchors)
    go none e = h
    go (some keys) e = write_keys-AreOwn past now seen keys anchors h

-- However creations, changes, deletions and passes of the refresher interleave, and whichever rows
-- a pass has read before it fetches, the keyset that is cached for an anchor is one that was fetched
-- for the URLs that the anchor has: a change of them is never followed by the keys of the old ones.
pub act_all-AreOwn :
    (ss : List Step) (past : List Fetched) (anchors : List Anchor)
    → All (IsOwn past) anchors
    → All (IsOwn (all_fetches ss past)) (act_all ss anchors)
unfolding act_all all_fetches
act_all-AreOwn [] past anchors h = h
act_all-AreOwn (s ∷ ss) past anchors h =
    act_all-AreOwn ss (fetches s past) (act s anchors) (act-AreOwn s past anchors h)
