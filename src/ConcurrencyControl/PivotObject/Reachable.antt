-- ===== src/ConcurrencyControl/PivotObject/Reachable.antt =====
-- When no path is found between two pivot objects.
use lineair_db.Base.{◌≡◌, arith, false, Bool-cases, inl, inr}
use lineair_db.ConcurrencyControl.HalfWordSet.{is_greater_than, is_greater_or_equal_than}
use lineair_db.ConcurrencyControl.HalfWordSet.Order.{is_greater_or_equal_than-is_greater_than}
use lineair_db.ConcurrencyControl.PivotObject.{NwrPivotObject, acyclic, is_reachable_into}

-- What the two tests have found where there is no path.
pub is_reachable_into-acyclic :
    (lhs rhs : NwrPivotObject)
    → is_reachable_into lhs rhs ≡ acyclic
    → (is_greater_or_equal_than rhs.msets.rset lhs.msets.wset ≡ false)
      × (is_greater_than rhs.msets.rset lhs.msets.wset ≡ false)
      × (is_greater_than rhs.msets.wset lhs.msets.rset ≡ false)
unfolding is_reachable_into
is_reachable_into-acyclic lhs rhs h =
    elim (Bool-cases (is_greater_or_equal_than rhs.msets.rset lhs.msets.wset)) [
      | inl e ↦ cc (rw e at h)
      | inr n ↦ (
        n,
        ground (arith, is_greater_or_equal_than-is_greater_than rhs.msets.rset lhs.msets.wset),
        ground arith,
      )
    ]
