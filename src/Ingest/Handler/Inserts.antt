-- ===== src/Ingest/Handler/Inserts.antt =====
-- What `ingestEvents` (src/lib/audit/event-store.ts) inserts of a list of events without doubles.
use aitp_control_plane.Prelude.{
  ◌≡◌, subst, suc, refl, sym, ap, ◌∙◌, Bool, true, false, List, [], ◌∷◌, ◌++◌, ◌||◌, ◌&&◌, not, any,
  map, if◌then◌else◌, arith, Bool-cases, inl, inr, length,
}
use aitp_control_plane.Prelude.Tables.{In, select_where}
use aitp_control_plane.Uuid.{Uuid, uuid_eq, uuid_eq_iff}
use aitp_control_plane.Webhooks.Rows.{AuditEvent}
use aitp_control_plane.Ingest.Batch.{has_id, unique_from}
use aitp_control_plane.Ingest.Handler.{ingest_events, is_inserted, distinct_ids}

abbrev pub HasDistinctIds : List AuditEvent → Type 0
HasDistinctIds [] = Unit
HasDistinctIds (e ∷ es) = (has_id e.id es ≡ false) × HasDistinctIds es

abbrev pub ids_of : List AuditEvent → List Uuid
ids_of es = map (λ e. e.id) es

-- The events whose id no row has.
abbrev pub is_new : List AuditEvent → AuditEvent → Bool
is_new rows e = not (has_id e.id rows)

abbrev pub fresh : List AuditEvent → List AuditEvent → List AuditEvent
fresh rows es = select_where (is_new rows) es

or_assoc : (a b c : Bool) → ((a || b) || c) ≡ (a || (b || c))
or_assoc true b c = refl
or_assoc false b c = refl

pub has_id-append :
    (id : Uuid) (xs ys : List AuditEvent) → has_id id (xs ++ ys) ≡ (has_id id xs || has_id id ys)
has_id-append id [] ys = refl
has_id-append id (x ∷ xs) ys =
    ap (λ b. uuid_eq x.id id || b) (has_id-append id xs ys)
    ∙ sym (or_assoc (uuid_eq x.id id) (has_id id xs) (has_id id ys))

uuid_eq-false : (a b : Uuid) → uuid_eq a b ≡ false → uuid_eq b a ≡ false
uuid_eq-false a b h = ground (arith, uuid_eq_iff a b, uuid_eq_iff b a)

snoc-HasDistinctIds :
    (es : List AuditEvent) (e : AuditEvent)
    → HasDistinctIds es
    → has_id e.id es ≡ false
    → HasDistinctIds (es ++ e ∷ [])
snoc-HasDistinctIds [] e h k = (refl, tt)
snoc-HasDistinctIds (x ∷ es) e (absent, h) k =
    let other : uuid_eq x.id e.id ≡ false = ground arith in
    let later : has_id e.id es ≡ false = ground arith in
    (
      has_id-append x.id es (e ∷ []) ∙ ground (arith, absent, uuid_eq-false x.id e.id other),
      snoc-HasDistinctIds es e h later,
    )

pub unique_from-HasDistinctIds :
    (us es : List AuditEvent) → HasDistinctIds us → HasDistinctIds (unique_from us es)
unfolding unique_from
unique_from-HasDistinctIds us [] h = h
unique_from-HasDistinctIds us (e ∷ es) h = elim (Bool-cases (has_id e.id us)) [
  | inl seen ↦ rw seen (unique_from-HasDistinctIds us es h)
  | inr new ↦ rw new (unique_from-HasDistinctIds (us ++ e ∷ []) es (snoc-HasDistinctIds us e h new))
]

-- What is selected, by its id.
pub has_id-fresh :
    (rows : List AuditEvent) (id : Uuid) (es : List AuditEvent)
    → has_id id (fresh rows es) ≡ (has_id id es && not (has_id id rows))
unfolding select_where
has_id-fresh rows id [] = refl
has_id-fresh rows id (e ∷ es) = elim (Bool-cases (uuid_eq e.id id)) [
  | inl same ↦
      let e' : e.id ≡ id = ground (arith, uuid_eq_iff e.id id) in
      let row : has_id e.id rows ≡ has_id id rows = ap (λ i. has_id i rows) e' in
      ground (arith, row, same, has_id-fresh rows id es)
  | inr other ↦ ground (arith, other, has_id-fresh rows id es)
]

fresh-HasDistinctIds :
    (rows es : List AuditEvent) → HasDistinctIds es → HasDistinctIds (fresh rows es)
unfolding select_where
fresh-HasDistinctIds rows [] h = tt
fresh-HasDistinctIds rows (e ∷ es) (absent, h) = elim (Bool-cases (is_new rows e)) [
  | inl new ↦ rw new (
    has_id-fresh rows e.id es ∙ ap (λ b. b && not (has_id e.id rows)) absent,
    fresh-HasDistinctIds rows es h,
  )
  | inr old ↦ rw old (fresh-HasDistinctIds rows es h)
]

fresh-snoc :
    (rows : List AuditEvent) (e : AuditEvent) (es : List AuditEvent)
    → has_id e.id es ≡ false
    → fresh (rows ++ e ∷ []) es ≡ fresh rows es
unfolding select_where
fresh-snoc rows e [] h = refl
fresh-snoc rows e (x ∷ es) h =
    let other : uuid_eq x.id e.id ≡ false = ground arith in
    let later : has_id e.id es ≡ false = ground arith in
    let same : has_id x.id (rows ++ e ∷ []) ≡ has_id x.id rows =
      has_id-append x.id rows (e ∷ []) ∙ ground (arith, uuid_eq-false x.id e.id other) in
    rw same (ap (λ xs. if is_new rows x then x ∷ xs else xs) (fresh-snoc rows e es later))

append_snoc : (xs ys : List AuditEvent) (x : AuditEvent) → (xs ++ x ∷ []) ++ ys ≡ xs ++ x ∷ ys
append_snoc [] ys x = refl
append_snoc (z ∷ xs) ys x = ap (λ zs. z ∷ zs) (append_snoc xs ys x)

append_nil : (xs : List AuditEvent) → xs ++ [] ≡ xs
append_nil [] = refl
append_nil (x ∷ xs) = ap (λ zs. x ∷ zs) (append_nil xs)

-- The new events go to the end of the table, and their ids are returned.
pub ingest_events-fresh :
    (es rows : List AuditEvent)
    → HasDistinctIds es
    → ingest_events es rows ≡ (rows ++ fresh rows es, ids_of (fresh rows es))
unfolding ingest_events select_where
ingest_events-fresh [] rows h = ap (λ xs. (xs, [])) (sym (append_nil rows))
ingest_events-fresh (e ∷ es) rows (absent, h) = elim (Bool-cases (has_id e.id rows)) [
  | inl old ↦ rw old (ingest_events-fresh es rows h)
  | inr new ↦
      rw (new, ingest_events-fresh es (rows ++ e ∷ []) h, fresh-snoc rows e es absent)
        (ap (λ xs. (xs, e.id ∷ ids_of (fresh rows es))) (append_snoc rows (fresh rows es) e))
]

pub rows-HasDistinctIds :
    (rows es : List AuditEvent)
    → HasDistinctIds rows
    → HasDistinctIds es
    → HasDistinctIds (rows ++ fresh rows es)
unfolding select_where
rows-HasDistinctIds rows [] h k = subst HasDistinctIds (sym (append_nil rows)) h
rows-HasDistinctIds rows (e ∷ es) h (absent, k) = elim (Bool-cases (has_id e.id rows)) [
  | inl old ↦ rw old (rows-HasDistinctIds rows es h k)
  | inr new ↦ rw new (
      subst HasDistinctIds
        (append_snoc rows (fresh (rows ++ e ∷ []) es) e
          ∙ ap (λ xs. rows ++ e ∷ xs) (fresh-snoc rows e es absent))
        (rows-HasDistinctIds (rows ++ e ∷ []) es (snoc-HasDistinctIds rows e h new) k))
]

-- The ids that are returned pick the new events.
is_inserted-ids_of :
    (es : List AuditEvent) (e : AuditEvent) → is_inserted (ids_of es) e ≡ has_id e.id es
is_inserted-ids_of [] e = refl
is_inserted-ids_of (x ∷ es) e = ap (λ b. uuid_eq x.id e.id || b) (is_inserted-ids_of es e)

select_where_cong :
    (p q : AuditEvent → Bool) (es : List AuditEvent)
    → ((e : AuditEvent) → In e es → p e ≡ q e)
    → select_where p es ≡ select_where q es
unfolding select_where
select_where_cong p q [] h = refl
select_where_cong p q (e ∷ es) h =
    rw (h e (inl refl)) (
      ap (λ xs. if q e then e ∷ xs else xs) (select_where_cong p q es (λ x there. h x (inr there))))

uuid_eq_refl : (a : Uuid) → uuid_eq a a ≡ true
uuid_eq_refl a = ground (arith, uuid_eq_iff a a)

pub In-has_id : (e : AuditEvent) (es : List AuditEvent) → In e es → has_id e.id es ≡ true
In-has_id e [] there = absurd there
In-has_id e (x ∷ es) (inl same) =
    ap (λ y. has_id y.id (x ∷ es)) same ∙ ap (λ b. b || has_id x.id es) (uuid_eq_refl x.id)
In-has_id e (x ∷ es) (inr there) = ground (arith, In-has_id e es there)

pub select-inserted :
    (rows es : List AuditEvent)
    → select_where (is_inserted (ids_of (fresh rows es))) es ≡ fresh rows es
select-inserted rows es =
    select_where_cong (is_inserted (ids_of (fresh rows es))) (is_new rows) es (λ e there.
      is_inserted-ids_of (fresh rows es) e
      ∙ has_id-fresh rows e.id es
      ∙ ap (λ b. b && not (has_id e.id rows)) (In-has_id e es there))

any-ids_of : (es : List AuditEvent) (id : Uuid) → any (λ j. uuid_eq j id) (ids_of es) ≡ has_id id es
any-ids_of [] id = refl
any-ids_of (e ∷ es) id = ap (λ b. uuid_eq e.id id || b) (any-ids_of es id)

length-distinct_ids :
    (es : List AuditEvent) → HasDistinctIds es → length (distinct_ids (ids_of es)) ≡ length es
unfolding distinct_ids
length-distinct_ids [] h = refl
length-distinct_ids (e ∷ es) (absent, h) =
    rw (any-ids_of es e.id, absent) (ap (λ n. suc n) (length-distinct_ids es h))

pub length-inserted :
    (rows es : List AuditEvent)
    → HasDistinctIds es
    → length (distinct_ids (ids_of (fresh rows es))) ≡ length (fresh rows es)
length-inserted rows es h = length-distinct_ids (fresh rows es) (fresh-HasDistinctIds rows es h)
