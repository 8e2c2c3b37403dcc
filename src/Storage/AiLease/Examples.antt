-- ===== src/Storage/AiLease/Examples.antt =====
-- Three callers with room for two.
use lobbytally.Base.{List, [], ◌∷◌, arith}
use lobbytally.Table.{count_where}
use lobbytally.Storage.AiLease.Concurrency.{
  AiCall, acquires, releases, leases_after, IsAdmitted, leases_after-IsAdmitted,
}

abbrev calls : List AiCall
calls =
    acquires "r1" "a" 60 1000
    ∷ acquires "r2" "a" 60 1000
    ∷ acquires "r3" "b" 60 1000
    ∷ releases "r1"
    ∷ acquires "r4" "b" 60 2000
    ∷ []

nobody-IsAdmitted : IsAdmitted 1 2 []
unfolding count_where
nobody-IsAdmitted = record { all = omega arith; each = λ scope. omega arith }

leases_after-IsAdmitted_example : IsAdmitted 1 2 (leases_after 1 2 calls [])
leases_after-IsAdmitted_example = leases_after-IsAdmitted 1 2 calls [] nobody-IsAdmitted
