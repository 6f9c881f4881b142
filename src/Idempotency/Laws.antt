-- ===== src/Idempotency/Laws.antt =====
-- What src/lib/idempotency.ts answers under a key: first completions, replays and races.
use aitp_control_plane.Prelude.{
  ℕ, ◌≡◌, refl, Bool, true, false, none, some, String, List, [], ◌∷◌, ◌++◌, ◌&&◌, not, ◌==◌, eq_iff,
  arith, Option-cases, inl, inr, ap, ◌∙◌, sym,
}
use aitp_control_plane.Prelude.Tables.{find_where}
use aitp_control_plane.Json.{Json}
use aitp_control_plane.Idempotency.Key.{Text, text_eq_iff, normalize_key}
use aitp_control_plane.Idempotency.{
  Body, encodable, IdempotentResult, Row, Reply, answered, Storage, is_cacheable, make_response,
  of_row, is_keyed, find_row, begin, insert_row, answer_of_winner, conclude,
}

is_keyed_self :
    (scope : String) (key : Text) (status : ℕ) (body : Json)
    → is_keyed scope key
        (record { scope = scope; key = key; response_status = status; response_body = body })
      ≡ true
is_keyed_self scope key status body = ground (arith, eq_iff scope scope, text_eq_iff key key)

find_row-snoc :
    (scope : String) (key : Text) (r : Row) (rows : List Row)
    → is_keyed scope key r ≡ true
    → find_row scope key rows ≡ none
    → find_row scope key (rows ++ r ∷ []) ≡ some r
unfolding find_row find_where
find_row-snoc scope key r [] h e = rw h
find_row-snoc scope key r (x ∷ rows) h e = ground (arith, find_row-snoc scope key r rows h)

-- After an insert there is a row under the key: the one that was there, or the new one.
find_row-insert :
    (st : Storage) (scope : String) (key : Text) (status : ℕ) (body : Json) (rows : List Row)
    → (r : Row) × (find_row scope key (insert_row st scope key status body rows) ≡ some r)
unfolding insert_row
find_row-insert st scope key status body rows = elim (Option-cases (find_row scope key rows)) [
  | inl missed ↦ (
    record { scope = scope; key = key; response_status = status; response_body = st.jsonb body },
    rw (missed, insert_row)
        (find_row-snoc scope key _ rows (is_keyed_self scope key status (st.jsonb body)) missed),
  )
  | inr (r, found) ↦ (r, rw (found, insert_row) found)
]

reply_of_winner :
    (st : Storage) (scope : String) (key : Text) (status : ℕ) (body : Json) (rows : List Row)
    (r : Row)
    → find_row scope key rows ≡ some r
    → answer_of_winner st scope key status body rows
      ≡ of_row r (not (r.response_status == status && st.deep_equal r.response_body body))
unfolding answer_of_winner
reply_of_winner st scope key status body rows r found = rw (found, answer_of_winner) refl

-- An answer as its replay gives it.
abbrev pub as_replay : Reply → Reply
as_replay r = record r { replayed = true }

as_replay-make_response :
    (status : ℕ) (body : Body) (replayed : Bool)
    → as_replay (make_response status body replayed) ≡ make_response status body true
unfolding make_response
as_replay-make_response status body replayed = ground arith

of_row_alike :
    (r : Row) (a b : Bool)
    → ((of_row r a).status ≡ (of_row r b).status) × ((of_row r a).body ≡ (of_row r b).body)
unfolding make_response
of_row_alike r a b = ground arith

replayed-of_row : (r : Row) (a : Bool) → (of_row r a).replayed ≡ a
unfolding make_response
replayed-of_row r a = ground arith

-- The row that a request stores.
abbrev new_row : Storage → String → Text → ℕ → Json → Row
new_row st scope key status body = record {
  scope = scope;
  key = key;
  response_status = status;
  response_body = st.jsonb body;
}

find_row-insert_new :
    (st : Storage) (scope : String) (key : Text) (status : ℕ) (body : Json) (rows : List Row)
    → find_row scope key rows ≡ none
    → find_row scope key (insert_row st scope key status body rows)
      ≡ some (new_row st scope key status body)
unfolding insert_row
find_row-insert_new st scope key status body rows missed =
    rw (missed, insert_row)
      (find_row-snoc scope key _ rows (is_keyed_self scope key status (st.jsonb body)) missed)

-- The rest of a request whose handler gave a body that JSON can represent, and whose insert went
-- through.
abbrev pub completed : Storage → String → Text → ℕ → Json → List Row → List Row × Reply
completed st scope key status body rows =
    conclude st true scope key (record { status = status; body = encodable body }) rows

-- A stable result whose insert went through: what the table and the answer are.
conclude_stored :
    (st : Storage) (scope : String) (key : Text) (status : ℕ) (body : Json) (rows : List Row)
    → is_cacheable status ≡ true
    → completed st scope key status body rows ≡ (
      insert_row st scope key status body rows,
      answer_of_winner st scope key status body (insert_row st scope key status body rows),
    )
unfolding conclude
conclude_stored st scope key status body rows h = rw (h, conclude) refl

insert_again :
    (st : Storage) (scope : String) (key : Text) (status : ℕ) (body : Json) (rows : List Row)
    (r : Row)
    → find_row scope key rows ≡ some r
    → insert_row st scope key status body rows ≡ rows
unfolding insert_row
insert_again st scope key status body rows r found = rw (found, insert_row) refl

begin_found :
    (invalid : Json) (raw key : Text) (scope : String) (rows : List Row) (r : Row)
    → normalize_key raw ≡ some key
    → find_row scope key rows ≡ some r
    → begin invalid (some raw) scope rows ≡ answered (of_row r true)
unfolding begin
begin_found invalid raw key scope rows r k found = rw (k, begin) (rw (found, begin) refl)

-- Once a stable result has been stored under a key, and as long as the key's row stays as it was, a
-- request whose header gives that key is answered at once, its handler not run, with the answer
-- given then, marked as replayed.
pub replay_answers_alike :
    (st : Storage) (invalid : Json) (scope : String) (raw key : Text) (status : ℕ) (body : Json)
    (rows later : List Row)
    → is_cacheable status ≡ true
    → normalize_key raw ≡ some key
    → find_row scope key later ≡ find_row scope key (completed st scope key status body rows).0
    → begin invalid (some raw) scope later
      ≡ answered (as_replay (completed st scope key status body rows).1)
replay_answers_alike st invalid scope raw key status body rows later stable k kept =
    let (r, found) = find_row-insert st scope key status body rows in
    let inserted = insert_row st scope key status body rows in
    let won = conclude_stored st scope key status body rows stable in
    let there : find_row scope key later ≡ some r =
      kept ∙ ap (λ q. find_row scope key q.0) won ∙ found in
    begin_found invalid raw key scope later r k there
    ∙ ap answered (
        sym (
          ap (λ q. as_replay q.1) won
          ∙ ap as_replay (reply_of_winner st scope key status body inserted r found)
          ∙ as_replay-make_response r.response_status (encodable r.response_body) _))

-- Two requests under one key whose handlers both ran to stable results, which may differ: the second
-- to finish changes nothing in the table and gives the status and the body of the first.
pub racers_agree :
    (st : Storage) (scope : String) (key : Text) (status₁ status₂ : ℕ) (body₁ body₂ : Json)
    (rows : List Row)
    → is_cacheable status₁ ≡ true
    → is_cacheable status₂ ≡ true
    → let first = completed st scope key status₁ body₁ rows in
      let second = completed st scope key status₂ body₂ first.0 in
      (second.0 ≡ first.0) × (second.1.status ≡ first.1.status) × (second.1.body ≡ first.1.body)
racers_agree st scope key status₁ status₂ body₁ body₂ rows stable₁ stable₂ =
    let (r, found) = find_row-insert st scope key status₁ body₁ rows in
    let rows' = insert_row st scope key status₁ body₁ rows in
    rw (conclude_stored st scope key status₁ body₁ rows stable₁) (
      rw (conclude_stored st scope key status₂ body₂ rows' stable₂) (
        rw (insert_again st scope key status₂ body₂ rows' r found) (
          rw
            (
              reply_of_winner st scope key status₁ body₁ rows' r found,
              reply_of_winner st scope key status₂ body₂ rows' r found,
            )
            (refl, (of_row_alike r _ _).0, (of_row_alike r _ _).1))))

-- The first completion under a key is not marked as a replay, when the stored body reads back
-- structurally equal to what was stored.
pub first_not_replayed :
    (st : Storage) (scope : String) (key : Text) (status : ℕ) (body : Json) (rows : List Row)
    → st.deep_equal (st.jsonb body) body ≡ true
    → is_cacheable status ≡ true
    → find_row scope key rows ≡ none
    → (completed st scope key status body rows).1.replayed ≡ false
first_not_replayed st scope key status body rows equal stable fresh =
    let r = new_row st scope key status body in
    rw (conclude_stored st scope key status body rows stable) (
      rw
        (reply_of_winner st scope key status body _ r
          (find_row-insert_new st scope key status body rows fresh))
        (replayed-of_row r _ ∙ rw equal (ground arith)))

-- A result that is not stable, or that could not be stored, pins nothing: the table is unchanged
-- and the answer is the handler's own, not marked as a replay.
pub unstable_not_pinned :
    (st : Storage) (stored : Bool) (scope : String) (key : Text) (result : IdempotentResult)
    (rows : List Row)
    → (is_cacheable result.status && stored) ≡ false
    → conclude st stored scope key result rows
      ≡ (rows, make_response result.status result.body false)
unfolding conclude
unstable_not_pinned st stored scope key result rows h = ground arith
