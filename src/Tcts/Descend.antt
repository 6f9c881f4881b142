-- ===== src/Tcts/Descend.antt =====
-- The recursive query of src/lib/tcts/monitor.ts: the jtis of the delegations below a jti. It is
-- computed in rounds, each of which takes in the delegations whose parent the last one had; there
-- are as many rounds as rows.
pub mod Rounds
use aitp_control_plane.Prelude.{
  ℕ, zero, suc, Bool, true, false, List, [], ◌∷◌, ◌||◌, any, length, map,
}
use aitp_control_plane.Prelude.Tables.{select_where}
use aitp_control_plane.Uuid.{Uuid, uuid_eq}
use aitp_control_plane.Tcts.Store.{DelegationRow}

abbrev pub is_among : Uuid → List Uuid → Bool
is_among u us = any (λ v. uuid_eq v u) us

abbrev pub is_below : Uuid → List Uuid → DelegationRow → Bool
is_below root found r =
    uuid_eq r.delegation.parent_jti root || is_among r.delegation.parent_jti found

abbrev pub next_round : List DelegationRow → Uuid → List Uuid → List Uuid
next_round rows root found = map (λ r. r.delegation.jti) (select_where (is_below root found) rows)

unfoldable pub rounds : ℕ → List DelegationRow → Uuid → List Uuid
rounds zero rows root = []
rounds (suc k) rows root = next_round rows root (rounds k rows root)

unfoldable pub descendants : List DelegationRow → Uuid → List Uuid
descendants rows root = rounds (length rows) rows root
