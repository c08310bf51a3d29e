-- ===== src/Scanner/Pairing.antt =====
-- src/scanner/pairing.ts: every Polymarket contract against every Kalshi contract of its window.
pub mod Sound
use pok_poly_kalshi.Prelude.{Bool, true, false, Option, none, some, List, [], ◌∷◌, ◌++◌}
use pok_poly_kalshi.Prelude.Tests.{if◌then◌else◌, nat_beq}
use pok_poly_kalshi.Prelude.Int.{ℤ, ltb_ℤ}
use pok_poly_kalshi.Types.{Venue, kalshi, polymarket, BinaryContract}
use pok_poly_kalshi.Scanner.Candidate.{
  ArbCandidate, guaranteed_spread_candidate, dead_zone_candidate,
}

-- Both contracts are on BTC, by their type.
unfoldable pub same_contract_window : BinaryContract → BinaryContract → Bool
same_contract_window left right = nat_beq left.expiry_ms right.expiry_ms

-- `left.venue <= right.venue` on the names.
abbrev venue_le : Venue → Venue → Bool
venue_le kalshi v = true
venue_le polymarket kalshi = false
venue_le polymarket polymarket = true

unfoldable pub order_by_strike : BinaryContract → BinaryContract → BinaryContract × BinaryContract
order_by_strike left right =
    if ltb_ℤ left.strike right.strike
    then (left, right)
    else if ltb_ℤ right.strike left.strike
    then (right, left)
    else if venue_le left.venue right.venue
    then (left, right)
    else (right, left)

pub record Candidates : Type 0 where
  pub executable : List ArbCandidate
  pub rejected : List ArbCandidate

abbrev push_guaranteed : Candidates → Option ArbCandidate → Candidates
push_guaranteed acc none = acc
push_guaranteed acc (some c) =
    if c.executable
    then record acc { executable = acc.executable ++ c ∷ [] }
    else record acc { rejected = acc.rejected ++ c ∷ [] }

abbrev push_rejected : Candidates → Option ArbCandidate → Candidates
push_rejected acc none = acc
push_rejected acc (some c) = record acc { rejected = acc.rejected ++ c ∷ [] }

-- The body of the inner loop.
unfoldable pub add_pair : ℤ → Candidates → BinaryContract → BinaryContract → Candidates
add_pair threshold acc p k =
    let (lower, higher) = order_by_strike p k in
    if same_contract_window p k
    then push_rejected (push_guaranteed acc (guaranteed_spread_candidate lower higher threshold))
        (dead_zone_candidate lower higher threshold)
    else acc

unfoldable pub add_row : ℤ → Candidates → BinaryContract → List BinaryContract → Candidates
add_row threshold acc p [] = acc
add_row threshold acc p (k ∷ ks) = add_row threshold (add_pair threshold acc p k) p ks

unfoldable pub add_rows : ℤ → Candidates → List BinaryContract → List BinaryContract → Candidates
add_rows threshold acc [] ks = acc
add_rows threshold acc (p ∷ ps) ks = add_rows threshold (add_row threshold acc p ks) ps ks

unfoldable pub enumerate_candidates : List BinaryContract → List BinaryContract → ℤ → Candidates
enumerate_candidates ps ks threshold =
    add_rows threshold (record { executable = []; rejected = [] }) ps ks

unfoldable pub enumerate_synthetic_structures :
    List BinaryContract → List BinaryContract → ℤ → List ArbCandidate
enumerate_synthetic_structures ps ks threshold =
    let c = enumerate_candidates ps ks threshold in c.executable ++ c.rejected

unfoldable pub pair_executable_candidates :
    List BinaryContract → List BinaryContract → ℤ → List ArbCandidate
pair_executable_candidates ps ks threshold = (enumerate_candidates ps ks threshold).executable
