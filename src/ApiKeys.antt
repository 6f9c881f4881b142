-- ===== src/ApiKeys.antt =====
-- The issuer keys of src/lib/api-keys.ts: how ISSUER_KEYS is read. `String.prototype.trim` is a
-- parameter.
pub mod Issuers
mod Tests
use Prim.Native.Char.{Char, code}
use Prim.Native.String
use aitp_control_plane.Prelude.{
  ℕ, zero, suc, Bool, true, false, Option, none, some, String, List, [], ◌∷◌, ◌++◌, ◌&&◌, ◌||◌, not,
  ◌==◌, leb, any, length, map, str_eq, if◌then◌else◌,
}
use aitp_control_plane.Prelude.Tables.{select_where}
use aitp_control_plane.Audit.Canonical.{utf16}
use aitp_control_plane.Revocations.{is_aid}
use aitp_control_plane.Validate.{count_chars}

abbrev is_alphanumeric : ℕ → Bool
is_alphanumeric c =
    (leb b'A' c && leb c b'Z') || (leb b'a' c && leb c b'z') || (leb b'0' c && leb c b'9')

unfoldable pub all_label_chars : String → Bool
all_label_chars String.[] = true
all_label_chars (String.◌∷◌ c s) =
    (is_alphanumeric (code c) || code c == b'.' || code c == b'_' || code c == b'-')
    && all_label_chars s

-- LABEL_RE
unfoldable pub is_label : String → Bool
is_label String.[] = false
is_label (String.◌∷◌ c s) = is_alphanumeric (code c) && leb (count_chars s) 39 && all_label_chars s

-- `k.includes(label)`
unfoldable pub is_prefix : String → String → Bool
is_prefix String.[] s = true
is_prefix (String.◌∷◌ c p) String.[] = false
is_prefix (String.◌∷◌ c p) (String.◌∷◌ d s) = (code c == code d) && is_prefix p s

unfoldable pub has_part : String → String → Bool
has_part label String.[] = is_prefix label String.[]
has_part label (String.◌∷◌ c s) = is_prefix label (String.◌∷◌ c s) || has_part label s

unfoldable pub looks_like_secret : String → List String → Bool
looks_like_secret label keys =
    any (λ k. str_eq k label || (leb 8 (length (utf16 label)) && has_part label k)) keys

-- `raw.split(',')`
abbrev push_char : Char → List String → List String
push_char c [] = String.◌∷◌ c String.[] ∷ []
push_char c (part ∷ parts) = String.◌∷◌ c part ∷ parts

unfoldable pub split_commas : String → List String
split_commas String.[] = String.[] ∷ []
split_commas (String.◌∷◌ c s) =
    let parts = split_commas s in if code c == b',' then String.[] ∷ parts else push_char c parts

-- What stands before and after the first of a character.
abbrev push_before : Char → Option (String × String) → Option (String × String)
push_before c none = none
push_before c (some (before, after)) = some (String.◌∷◌ c before, after)

unfoldable pub cut_at : ℕ → String → Option (String × String)
cut_at mark String.[] = none
cut_at mark (String.◌∷◌ c s) =
    let later = cut_at mark s in if code c == mark then some (String.[], s) else push_before c later

unfoldable pub items_of : (String → String) → Option String → List String
items_of trim none = []
items_of trim (some raw) = select_where (λ s. not (str_eq s "")) (map trim (split_commas raw))

pub record IssuerKeyEntry : Type 0 where
  pub label : String
  pub aid : String
  pub key : String

pub data Warning : Type 0 where
  malformed label_is_secret key_is_admin key_repeated : Warning

-- `seenKeys` and `seenLabels` are the keys and the labels of the entries. A warning and an error
-- have their position.
pub record ParsedIssuerKeys : Type 0 where
  pub entries : List IssuerKeyEntry
  pub warnings : List (ℕ × Warning)
  pub errors : List ℕ

abbrev aid_and_key : (String → String) → String → Option (String × String) → Option IssuerKeyEntry
aid_and_key trim label none = none
aid_and_key trim label (some (aid, key)) =
    some (record { label = label; aid = aid; key = trim key })

abbrev labelled : (String → String) → Option (String × String) → Option IssuerKeyEntry
labelled trim none = none
labelled trim (some (label, rest)) = aid_and_key trim label (cut_at b'=' rest)

-- `label@aid=key`; a part that is missing is empty and fails its pattern.
abbrev pub read_item : (String → String) → String → Option IssuerKeyEntry
read_item trim item = labelled trim (cut_at b'@' item)

unfoldable pub is_well_formed : IssuerKeyEntry → Bool
is_well_formed e = is_label e.label && is_aid e.aid && not (str_eq e.key "")

abbrev pub warn : ℕ → Warning → ParsedIssuerKeys → ParsedIssuerKeys
warn position w p = record p { warnings = p.warnings ++ (position, w) ∷ [] }

abbrev pub add_entry : ℕ → IssuerKeyEntry → ParsedIssuerKeys → ParsedIssuerKeys
add_entry position e p = record {
  entries = p.entries ++ e ∷ [];
  warnings = p.warnings;
  errors =
      if any (λ x. str_eq x.label e.label) p.entries then p.errors ++ position ∷ [] else p.errors;
}

-- One entry of the list.
unfoldable pub take_entry :
    List String → ℕ → Option IssuerKeyEntry → ParsedIssuerKeys → ParsedIssuerKeys
take_entry admin position none p = warn position malformed p
take_entry admin position (some e) p =
    if not (is_well_formed e)
    then warn position malformed p
    else if looks_like_secret e.label (e.key ∷ admin)
    then warn position label_is_secret p
    else if any (λ k. str_eq k e.key) admin
    then warn position key_is_admin p
    else if any (λ x. str_eq x.key e.key) p.entries
    then warn position key_repeated p
    else add_entry position e p

unfoldable pub take_items :
    (String → String) → List String → ℕ → List String → ParsedIssuerKeys → ParsedIssuerKeys
take_items trim admin position [] p = p
take_items trim admin position (item ∷ items) p =
    take_items trim admin (suc position) items (take_entry admin position (read_item trim item) p)

unfoldable pub parse_issuer_keys :
    (String → String) → Option String → List String → ParsedIssuerKeys
parse_issuer_keys trim raw admin =
    take_items trim admin 1 (items_of trim raw)
      (record { entries = []; warnings = []; errors = [] })
