-- ===== src/Revocations/Bodies.antt =====
-- What is known of a body that src/app/api/revocation/entries/route.ts takes.
use aitp_control_plane.Prelude.{
  ◌≡◌, refl, Bool, true, Option, none, some, String, arith, ap, ◌∙◌, subst, if◌then◌else◌,
}
use aitp_control_plane.Json.{Json, str, Fields, member}
use aitp_control_plane.Uuid.{Uuid, read_jti}
use aitp_control_plane.Revocations.{
  Checked, refused, found, draft_of, Clock, Draft, is_aid, given, with_text, jti_of, reason_of,
  iss_of, revoked_at_of, read_draft,
}
use aitp_control_plane.Validate.{has_upper, only_v4, read_v4}

v4_read :
    (upper : Bool) (o : Option Uuid) (jti : Uuid)
    → (if upper then none else only_v4 o) ≡ some jti
    → o ≡ some jti
v4_read upper none jti h = ground (arith, h)
v4_read upper (some u) jti h = ground (arith, h)

with_text-found :
    (s : String) (o : Option Uuid) (text : String) (jti : Uuid)
    → ((u : Uuid) → o ≡ some u → read_jti s ≡ some u)
    → with_text s o ≡ found (text, jti)
    → read_jti text ≡ some jti
with_text-found s none text jti read h = cc
with_text-found s (some u) text jti read h =
    let t : s ≡ text = cc in
    let j : u ≡ jti = cc in subst (λ x. read_jti x ≡ some jti) t (read u refl ∙ ap some j)

jti_of-found :
    (v : Option Json) (text : String) (jti : Uuid)
    → jti_of v ≡ found (text, jti)
    → read_jti text ≡ some jti
unfolding read_v4
jti_of-found none text jti h = cc
jti_of-found (some (str s)) text jti h =
    with_text-found s (read_v4 s) text jti
      (λ u. unfold read_v4 in v4_read (has_upper s) (read_jti s) u) h
jti_of-found (some v) text jti h = cc

iss_of-found :
    (v : Option Json) (o : Option String) (iss : String)
    → iss_of v ≡ found o
    → o ≡ some iss
    → is_aid iss ≡ true
iss_of-found none o iss h e = cc
iss_of-found (some (str s)) o iss h e = ground (arith, h, e)
iss_of-found (some v) o iss h e = cc

-- What is known of a body that passes the checks.
pub record IsSound (d : Draft) : Type 0 where
  pub read : read_jti d.text ≡ some d.jti
  pub aid : (iss : String) → d.iss ≡ some iss → is_aid iss ≡ true

draft_of-IsSound :
    (x : Checked (String × Uuid)) (y z : Checked (Option String)) (w : Checked String) (d : Draft)
    → ((text : String) (jti : Uuid) → x ≡ found (text, jti) → read_jti text ≡ some jti)
    → ((o : Option String) (iss : String) → z ≡ found o → o ≡ some iss → is_aid iss ≡ true)
    → draft_of x y z w ≡ found d
    → IsSound d
draft_of-IsSound (refused a b) y z w d p q h = cc
draft_of-IsSound (found (t, u)) (refused a b) z w d p q h = cc
draft_of-IsSound (found (t, u)) (found r) (refused a b) w d p q h = cc
draft_of-IsSound (found (t, u)) (found r) (found i) (refused a b) d p q h = cc
draft_of-IsSound (found (t, u)) (found r) (found i) (found at) d p q h =
    let e : record { text = t; jti = u; reason = r; iss = i; revoked_at = at } ≡ d = cc in
    subst IsSound e (record { read = p t u refl; aid = λ iss k. q i iss refl k })

pub read_draft-IsSound :
    (c : Clock) (body : Fields) (d : Draft) → read_draft c body ≡ found d → IsSound d
unfolding read_draft
read_draft-IsSound c body d h =
    draft_of-IsSound (jti_of (member "jti" body)) (reason_of (given (member "reason" body)))
      (iss_of (given (member "iss" body))) (revoked_at_of c (member "revokedAt" body)) d
      (jti_of-found (member "jti" body)) (iss_of-found (given (member "iss" body))) h
