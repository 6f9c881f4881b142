-- ===== src/Webhooks/Retries.antt =====
-- The reaper's pass over due deliveries, `flushDueRetries` of src/lib/webhooks/service.ts. The rows
-- are listed in the order in which the query returns them, which the source leaves open.
use aitp_control_plane.Prelude.{
  ℕ, zero, suc, ◌≤◌, ◌≡◌, refl, Bool, true, Option, none, some, String, List, [], ◌∷◌, ◌++◌, ◌&&◌,
  leb, length, take, drop, map, All, arith, length-drop, length-take, ap, sym, ◌∙◌,
}
use aitp_control_plane.Prelude.Tables.{select_where}
use aitp_control_plane.Webhooks.Rows.{Delivery, is_pending}

abbrev pub flush_concurrency : ℕ
flush_concurrency = 8

abbrev pub flush_batch_limit : ℕ
flush_batch_limit = 500

abbrev pub is_due_at : ℕ → Option ℕ → Bool
is_due_at now none = true
is_due_at now (some t) = leb t now

abbrev pub is_due : ℕ → Delivery → Bool
is_due now d = is_pending d.status && is_due_at now d.next_retry_at

-- The ids that the query returns.
unfoldable pub due : ℕ → List Delivery → List String
due now rows = map (λ d. d.id) (take flush_batch_limit (select_where (is_due now) rows))

-- The slices of the loop, each awaited before the next; one round for each element is enough.
unfoldable pub slices {ℓ} : {A : Type ℓ} → ℕ → List A → List (List A)
slices rounds [] = []
slices zero (x ∷ xs) = []
slices (suc rounds) (x ∷ xs) =
    take flush_concurrency (x ∷ xs) ∷ slices rounds (drop flush_concurrency (x ∷ xs))

-- The attempts that a pass starts, slice by slice, and its return value.
unfoldable pub flush_due_retries : ℕ → List Delivery → List (List String) × ℕ
flush_due_retries now rows = let ids = due now rows in (slices (length ids) ids, length ids)

unfoldable pub flatten {ℓ} : {A : Type ℓ} → List (List A) → List A
flatten [] = []
flatten (xs ∷ xss) = xs ++ flatten xss

take-drop {ℓ} : {A : Type ℓ} (n : ℕ) (xs : List A) → take n xs ++ drop n xs ≡ xs
take-drop zero xs = refl
take-drop (suc n) [] = refl
take-drop (suc n) (x ∷ xs) = ap (λ l. x ∷ l) (take-drop n xs)

flatten-slices {ℓ} :
    {A : Type ℓ} (rounds : ℕ) (xs : List A) → length xs ≤ rounds → flatten (slices rounds xs) ≡ xs
unfolding slices flatten
flatten-slices rounds [] h = refl
flatten-slices zero (x ∷ xs) h = absurd (omega arith)
flatten-slices (suc rounds) (x ∷ xs) h =
    ap (λ l. take flush_concurrency (x ∷ xs) ++ l)
      (flatten-slices rounds (drop flush_concurrency (x ∷ xs))
        (omega (arith, length-drop flush_concurrency (x ∷ xs))))
    ∙ take-drop flush_concurrency (x ∷ xs)

slices-bounded {ℓ} :
    {A : Type ℓ} (rounds : ℕ) (xs : List A)
    → All (λ l. length l ≤ flush_concurrency) (slices rounds xs)
unfolding slices
slices-bounded rounds [] = tt
slices-bounded zero (x ∷ xs) = tt
slices-bounded (suc rounds) (x ∷ xs) = (
  omega (arith, length-take flush_concurrency (x ∷ xs)),
  slices-bounded rounds (drop flush_concurrency (x ∷ xs)),
)

length-map {ℓ κ} :
    {A : Type ℓ} {B : Type κ} (f : A → B) (xs : List A) → length (map f xs) ≡ length xs
length-map f [] = refl
length-map f (x ∷ xs) = ap suc (length-map f xs)

due-bounded : (now : ℕ) (rows : List Delivery) → length (due now rows) ≤ 500
unfolding due
due-bounded now rows =
    let picked = select_where (is_due now) rows in
    omega (arith, length-map (λ d. d.id) (take 500 picked), length-take 500 picked)

-- A pass of the reaper attempts every due delivery it selected, once and in order, at most eight at
-- a time, and at most 500 of them, which is the number it returns.
flush_bounded :
    (now : ℕ) (rows : List Delivery)
    → let (attempted, count) = flush_due_retries now rows in
      (flatten attempted ≡ map (λ d. d.id) (take 500 (select_where (is_due now) rows)))
      × All (λ l. length l ≤ 8) attempted
      × (count ≡ length (flatten attempted))
      × (count ≤ 500)
unfolding flush_due_retries due
flush_bounded now rows =
    let ids = due now rows in
    let same = flatten-slices (length ids) ids (omega arith) in
    (same, slices-bounded (length ids) ids, ap length (sym same), due-bounded now rows)
