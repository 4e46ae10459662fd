-- ===== src/ConcurrencyControl/HalfWordSet/Order.antt =====
-- How the two comparisons of the sets are related.
use lineair_db.Base.{ℕ, ◌≡◌, arith, true, List, [], ◌∷◌}
use lineair_db.Base.{ltb, leb}
use lineair_db.ConcurrencyControl.HalfWordSet.{
  greater_loop, masks, is_greater_than, is_greater_or_equal_than,
}

greater_loop_mono :
    (masks : List ℕ) (lhs rhs : ℕ)
    → greater_loop ltb masks lhs rhs ≡ true
    → greater_loop leb masks lhs rhs ≡ true
unfolding greater_loop
greater_loop_mono [] lhs rhs h = cc
greater_loop_mono (mask ∷ masks) lhs rhs h = ground (arith, greater_loop_mono masks lhs rhs)

-- Of two sets of versions, one that is greater than the other is also greater than or equal to it,
-- saturated counters and empty slots included.
pub is_greater_or_equal_than-is_greater_than :
    (lhs rhs : ℕ) → is_greater_than lhs rhs ≡ true → is_greater_or_equal_than lhs rhs ≡ true
unfolding is_greater_than is_greater_or_equal_than
is_greater_or_equal_than-is_greater_than lhs rhs h = ground (arith, greater_loop_mono masks lhs rhs)
