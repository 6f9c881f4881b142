-- ===== src/Bodies/Within.antt =====
-- The streaming read of src/lib/http/read-body.ts against the bytes of the whole stream.
use Prim.Native.String.{String}
use mathlib.Core.List.{append-nil, append_assoc}
use aitp_control_plane.Prelude.{
  ℕ, ◌+◌, ◌≤◌, ◌<◌, ◌≡◌, refl, sym, ap, ◌∙◌, Bool, true, false, List, [], ◌∷◌, ◌++◌, Option, none,
  some, ltb, length, length-append, if◌then◌else◌, arith,
}
use aitp_control_plane.Bodies.{
  Bytes, Stream, done, fails, value, no_value, Pumped, complete, over, broken, pump, concat, Coding,
  stream, Read, text, too_large, thrown, text_of, read_body_text_with_limit, Number, exceeds,
  declared, Request, read_limited_body, ok, as_json_object, parse_read, read_json_object,
}
use aitp_control_plane.Json.{Json, Fields, obj}

-- The bytes of a stream, those before its exception when it has one.
unfoldable pub bytes_of : Stream → Bytes
bytes_of done = []
bytes_of fails = []
bytes_of (value v s) = v ++ bytes_of s
bytes_of (no_value s) = bytes_of s

unfoldable pub is_ended : Stream → Bool
is_ended done = true
is_ended fails = false
is_ended (value v s) = is_ended s
is_ended (no_value s) = is_ended s

-- What a reader of the whole stream would answer.
unfoldable pub whole : Coding → ℕ → Stream → Read
whole c max s =
    if ltb max (length (bytes_of s))
    then too_large max
    else if is_ended s
    then text (c.decode (bytes_of s))
    else thrown

-- The kept chunks are the first bytes of the stream and no more than the maximum: all of them, or
-- those before the first chunk that would exceed it.
abbrev pub IsWithin : ℕ → Bytes → Bool → Pumped → Type 0
IsWithin max bs ended (complete chunks) =
    (concat chunks ≡ bs) × (length (concat chunks) ≤ max) × (ended ≡ true)
IsWithin max bs ended (over chunks v s) =
    (bs ≡ concat chunks ++ (v ++ bytes_of s))
    × (length (concat chunks) ≤ max)
    × (max < length (concat chunks) + length v)
IsWithin max bs ended (broken chunks) =
    (concat chunks ≡ bs) × (length (concat chunks) ≤ max) × (ended ≡ false)

concat-snoc : (cs : List Bytes) (v : Bytes) → concat (cs ++ v ∷ []) ≡ concat cs ++ v
unfolding concat
concat-snoc [] v = append-nil v
concat-snoc (c ∷ cs) v = ap (λ r. c ++ r) (concat-snoc cs v) ∙ sym (append_assoc c (concat cs) v)

pump_chosen :
    (max total : ℕ) (cs : List Bytes) (v bs : Bytes) (s : Stream) (rest : Pumped) (b : Bool)
    → ltb max (total + length v) ≡ b
    → total ≡ length (concat cs)
    → total ≤ max
    → bs ≡ concat cs ++ (v ++ bytes_of s)
    → (total + length v ≤ max → IsWithin max bs (is_ended s) rest)
    → IsWithin max bs (is_ended s) (if b then over cs v s else rest)
pump_chosen max total cs v bs s rest true e t h k r = (k, ground arith, ground arith)
pump_chosen max total cs v bs s rest false e t h k r = r (ground arith)

pump_after :
    (max total : ℕ) (cs : List Bytes) (s : Stream) (bs : Bytes)
    → total ≡ length (concat cs)
    → total ≤ max
    → bs ≡ concat cs ++ bytes_of s
    → IsWithin max bs (is_ended s) (pump max total cs s)
unfolding pump bytes_of is_ended
pump_after max total cs done bs t h k =
    (sym (k ∙ append-nil (concat cs)), omega (arith, t, h), refl)
pump_after max total cs fails bs t h k =
    (sym (k ∙ append-nil (concat cs)), omega (arith, t, h), refl)
pump_after max total cs (no_value s) bs t h k = pump_after max total cs s bs t h k
pump_after max total cs (value v s) bs t h k =
    let len : total + length v ≡ length (concat (cs ++ v ∷ [])) =
      omega (arith, t, ap length (concat-snoc cs v), length-append (concat cs) v) in
    let bytes : bs ≡ concat (cs ++ v ∷ []) ++ bytes_of s =
      k
      ∙ sym (append_assoc (concat cs) v (bytes_of s))
      ∙ ap (λ r. r ++ bytes_of s) (sym (concat-snoc cs v)) in
    pump_chosen max total cs v bs s (pump max (total + length v) (cs ++ v ∷ []) s)
      (ltb max (total + length v)) refl t h k
      (λ le. pump_after max (total + length v) (cs ++ v ∷ []) s bs (len) le (bytes))

pump-IsWithin : (max : ℕ) (s : Stream) → IsWithin max (bytes_of s) (is_ended s) (pump max 0 [] s)
unfolding concat
pump-IsWithin max s = pump_after max 0 [] s (bytes_of s) refl (omega arith) refl

text_of-kept :
    (c : Coding) (max : ℕ) (bs vs : Bytes) (ended : Bool)
    → vs ≡ bs
    → length vs ≤ max
    → (if ended then text (c.decode vs) else thrown) ≡ (
        if ltb max (length bs) then too_large max else if ended then text (c.decode bs) else thrown)
text_of-kept c max bs vs ended e h = grind (arith, e, ap length e, ap c.decode e)

text_of-IsWithin :
    (c : Coding) (max : ℕ) (s : Stream) (p : Pumped)
    → IsWithin max (bytes_of s) (is_ended s) p
    → text_of c max p ≡ whole c max s
unfolding whole
text_of-IsWithin c max s (complete chunks) (e, h, k) =
    ap (λ b. if b then text (c.decode (concat chunks)) else thrown) (sym k)
    ∙ text_of-kept c max (bytes_of s) (concat chunks) (is_ended s) e h
text_of-IsWithin c max s (over chunks v rest) (e, h, k) =
    let len : length (bytes_of s) ≡ length (concat chunks) + (length v + length (bytes_of rest)) =
      ap length e
      ∙ length-append (concat chunks) (v ++ bytes_of rest)
      ∙ ap (λ n. length (concat chunks) + n) (length-append v (bytes_of rest)) in
    ground (arith, len)
text_of-IsWithin c max s (broken chunks) (e, h, k) =
    ap (λ b. if b then text (c.decode (concat chunks)) else thrown) (sym k)
    ∙ text_of-kept c max (bytes_of s) (concat chunks) (is_ended s) e h

abbrev pub streamed : Option Number → Stream → Request
streamed d s = record { content_length = d; body = stream s }

-- The bounded read of a streamed body answers 413 exactly when the declared length or the bytes of
-- the stream exceed the maximum, else the decoded text of all its bytes, or the exception of the
-- stream. The chunks that it keeps are the first bytes of the stream and never more than the
-- maximum, whatever length is declared.
pub read_limited_body-IsWithin :
    (c : Coding) (max : ℕ) (d : Option Number) (s : Stream)
    → (read_limited_body c max (streamed d s)
        ≡ (if exceeds max (declared d) then too_large max else whole c max s))
      × IsWithin max (bytes_of s) (is_ended s) (pump max 0 [] s)
unfolding read_limited_body read_body_text_with_limit
read_limited_body-IsWithin c max d s = (
  ap (λ r. if exceeds max (declared d) then too_large max else r)
      (text_of-IsWithin c max s (pump max 0 [] s) (pump-IsWithin max s)),
  pump-IsWithin max s,
)

as_json_object-ok : (o : Option Json) (fs : Fields) → as_json_object o ≡ ok fs → o ≡ some (obj fs)
as_json_object-ok none fs e = ground arith
as_json_object-ok (some j) fs e = ground arith

read_ok_chosen :
    (parse : String → Option Json) (max : ℕ) (t : String) (fs : Fields) (x b y : Bool)
    → parse_read parse
        (if x then too_large max else if b then too_large max else if y then text t else thrown)
      ≡ ok fs
    → (b ≡ false) × (parse t ≡ some (obj fs))
read_ok_chosen parse max t fs true b y e = ground arith
read_ok_chosen parse max t fs false true y e = ground arith
read_ok_chosen parse max t fs false false true e = (refl, as_json_object-ok (parse t) fs e)
read_ok_chosen parse max t fs false false false e = ground arith

-- A JSON object is read only from a whole stream of at most `max` bytes, and it is what their text
-- parses to.
pub read_json_object-ok :
    (c : Coding) (parse : String → Option Json) (max : ℕ) (d : Option Number) (s : Stream)
    (fs : Fields)
    → read_json_object c parse max (streamed d s) ≡ ok fs
    → (length (bytes_of s) ≤ max) × (parse (c.decode (bytes_of s)) ≡ some (obj fs))
unfolding read_json_object whole
read_json_object-ok c parse max d s fs e =
    let (b, p) =
      read_ok_chosen parse max (c.decode (bytes_of s)) fs (exceeds max (declared d))
        (ltb max (length (bytes_of s))) (is_ended s)
        (ap (parse_read parse) (sym (read_limited_body-IsWithin c max d s).0) ∙ e) in
    (ground arith, p)
