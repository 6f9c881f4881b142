-- ===== src/Idempotency/Key.antt =====
-- The header value and what makes it a key: `normalizeKey` of src/lib/idempotency.ts.
use aitp_control_plane.Prelude.{
  ℕ, ◌≡◌, Bool, true, false, Option, none, some, List, [], ◌∷◌, ◌&&◌, ◌||◌, ◌==◌, ltb, leb,
  if◌then◌else◌, any, length, arith, ◌↔◌,
}
use mathlib.Core.List.{reverse}

abbrev pub Text : Type 0
Text = List ℕ

unfoldable pub text_eq : Text → Text → Bool
text_eq [] [] = true
text_eq (x ∷ xs) (y ∷ ys) = (x == y) && text_eq xs ys
text_eq _ _ = false

pub text_eq_iff : (a b : Text) → (text_eq a b ≡ true) ↔ (a ≡ b)
unfolding text_eq
text_eq_iff [] [] = ground arith
text_eq_iff (x ∷ xs) (y ∷ ys) = ground (arith, text_eq_iff xs ys)
text_eq_iff (x ∷ xs) [] = ground arith
text_eq_iff [] (y ∷ ys) = ground arith

-- The characters that `String.prototype.trim` removes.
abbrev pub is_space : ℕ → Bool
is_space c =
    (leb 9 c && leb c 13)
    || c == 32
    || c == 160
    || c == 0x1680
    || (leb 0x2000 c && leb c 0x200a)
    || c == 0x2028
    || c == 0x2029
    || c == 0x202f
    || c == 0x205f
    || c == 0x3000
    || c == 0xfeff

unfoldable pub trim_start : Text → Text
trim_start [] = []
trim_start (c ∷ cs) = if is_space c then trim_start cs else c ∷ cs

unfoldable pub trim : Text → Text
unfolding trim_start
trim s = reverse (trim_start (reverse (trim_start s)))

abbrev pub max_key_length : ℕ
max_key_length = 255

-- `/[\x00-\x1f]/`
abbrev pub is_control : ℕ → Bool
is_control c = leb c 0x1f

abbrev pub sized : Text → Option Text
sized [] = none
sized (c ∷ cs) = if ltb max_key_length (length (c ∷ cs)) then none else some (c ∷ cs)

unfoldable pub normalize_key : Text → Option Text
normalize_key raw = if any is_control raw then none else sized (trim raw)
