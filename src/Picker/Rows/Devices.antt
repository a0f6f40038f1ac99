-- ===== src/Picker/Rows/Devices.antt =====
-- Devices/DevicePicker.m: the order of the rows.
use connect_sdk_i_os_core.Prelude.{ℕ, String, ◌≡◌, ◌≢◌, List, [], ◌∷◌, all_values, Has, SameCounts}
use connect_sdk_i_os_core.Device.{Device}
use connect_sdk_i_os_core.Picker.{
  Picker, ComparisonResult, descending, compare_names, run_sort, name_for_device,
}
use connect_sdk_i_os_core.Picker.Rows.{rows}

-- Each element against every later one.
abbrev pub IsAscending : (ℕ → ℕ → ComparisonResult) → List ℕ → Type 0
IsAscending cmp [] = Unit
IsAscending cmp (r ∷ rs) = ((s : ℕ) → Has s rs → cmp r s ≢ descending) × IsAscending cmp rs

-- `compare:` does not descend twice to ascend, and descends one way only.
pub record IsComparison {A : Type 0} (cmp : A → A → ComparisonResult) : Type 0 where
  pub chains : (a b c : A) → cmp a b ≢ descending → cmp b c ≢ descending → cmp a c ≢ descending
  pub one_way : (a b : A) → cmp a b ≡ descending → cmp b a ≢ descending

-- `sortedArrayUsingComparator:` sorts by any comparison.
abbrev pub Sorts : ((ℕ → ℕ → ComparisonResult) → List ℕ → List ℕ) → Type 0
Sorts sorted_array =
    (cmp : ℕ → ℕ → ComparisonResult) (rs : List ℕ)
    → IsComparison cmp
    → IsAscending cmp (sorted_array cmp rs) × SameCounts (sorted_array cmp rs) rs

module _ (objects : ℕ → Device) (unnamed : String) (lowercase : String → String)
    (compare : String → String → ComparisonResult) where
  compare_names-IsComparison :
      IsComparison compare → IsComparison (compare_names objects unnamed lowercase compare)
  unfolding compare_names
  compare_names-IsComparison c = record {
    chains = λ r s t. c.chains _ _ _;
    one_way = λ r s. c.one_way _ _;
  }

  -- A block of the sort queue leaves a row for each device, and of two rows the upper one's name
  -- does not come behind the lower one's, in lower case.
  pub run_sort-IsAscending :
      (sorted_array : (ℕ → ℕ → ComparisonResult) → List ℕ → List ℕ) (p : Picker)
      → IsComparison compare
      → Sorts sorted_array
      → IsAscending
          (λ r s.
            compare
              (lowercase (name_for_device objects unnamed r))
              (lowercase (name_for_device objects unnamed s)))
          (rows (run_sort objects unnamed lowercase compare sorted_array p))
        × SameCounts
            (rows (run_sort objects unnamed lowercase compare sorted_array p))
            (all_values p.devices)
  unfolding run_sort compare_names
  run_sort-IsAscending sorted_array p c s =
      s (compare_names objects unnamed lowercase compare) (all_values p.devices)
        (compare_names-IsComparison c)
