-- ===== src/Backend/Db/Tests.antt =====
-- The statement for a row of three columns.
use duel_protocol.Prelude.{◌≡◌, refl, [], ◌∷◌}
use duel_protocol.Backend.Db.{
  str, num, null, Row, position, placeholders_from, set_clauses, upsert_market,
}

abbrev market_row : Row
market_row = ("pubkey", str "M") ∷ ("winner", null) ∷ ("reserve_a", num 7) ∷ []

sets_run :
    ((upsert_market market_row).sets ≡ ("winner", 2) ∷ ("reserve_a", 3) ∷ [])
    × ((upsert_market market_row).placeholders ≡ 1 ∷ 2 ∷ 3 ∷ [])
unfolding upsert_market set_clauses position placeholders_from
sets_run = (refl, refl)
