-- ===== src/Service/Contract.antt =====
-- Services/DeviceService.h: the questions about capabilities, and when
-- Services/DeviceService.m answers them with YES.
use connect_sdk_i_os_core.Prelude.{
  ℕ, String, ◌≡◌, ◌≢◌, sym, subst, refl, ◌⊎◌, inl, inr, Bool, true, List, [], some, any_of,
  any_witness, all_iff, Option-cases, ◌↔◌, Has, codes,
}
use connect_sdk_i_os_core.Prelude.Occurrences.{Occurs}
use connect_sdk_i_os_core.Service.{
  DeviceService, has_capability, has_capabilities, has_any_capability,
}
use connect_sdk_i_os_core.Service.Queries.{
  any_range, IsPlain, stem, has_capability_plain, has_capability_any,
}

-- The questions of the header about capabilities.
pub data CapabilityQuery : Type 0 where
  asks_for : String → CapabilityQuery
  asks_for_all asks_for_any : List String → CapabilityQuery

unfoldable pub answer_query : DeviceService → CapabilityQuery → Bool
answer_query s (asks_for c) = has_capability s.capabilities c
answer_query s (asks_for_all cs) = has_capabilities s.capabilities cs
answer_query s (asks_for_any cs) = has_any_capability s.capabilities cs

-- An item matches a term without the marker `.Any` if it is the term, and one with the marker if what
-- stands before the marker is not empty and stands somewhere in the item.
abbrev pub Matches : String → String → Type 0
Matches c item =
    (IsPlain c × (c ≡ item))
    ⊎ ((i : ℕ) × (any_range c ≡ some i) × (stem i c ≢ []) × Occurs (stem i c) (codes item))

-- A capability of the list matches the term.
abbrev pub HasMatch : List String → String → Type 0
HasMatch own c = (item : String) × Has item own × Matches c item

-- When the answer is YES.
abbrev pub IsYes : DeviceService → CapabilityQuery → Type 0
IsYes s (asks_for c) = HasMatch s.capabilities c
IsYes s (asks_for_all cs) = (c : String) → Has c cs → HasMatch s.capabilities c
IsYes s (asks_for_any cs) = (c : String) × Has c cs × HasMatch s.capabilities c

-- `hasCapability:` answers YES exactly if a capability of the list matches the term.
pub has_capability_iff :
    (own : List String) (c : String) → (has_capability own c ≡ true) ↔ HasMatch own c
has_capability_iff own c = (there, back)
  where
    there : has_capability own c ≡ true → HasMatch own c
    there t = elim (Option-cases (any_range c)) [
      | inl p ↦ (c, (has_capability_plain own c p).0 t, inl (p, refl))
      | inr (i, p) ↦
          let (item, m, filled, o) = (has_capability_any own c i p).0 t in
          (item, m, inr (i, p, filled, o))
    ]

    back : HasMatch own c → has_capability own c ≡ true
    back (item, m, inl (plain, same)) =
        (has_capability_plain own c plain).1 (subst (λ x. Has x own) (sym same) m)
    back (item, m, inr (i, marked, filled, o)) =
        (has_capability_any own c i marked).1 (item, m, filled, o)

all-each :
    (own cs : List String)
    → (has_capabilities own cs ≡ true) ↔ ((c : String) → Has c cs → has_capability own c ≡ true)
unfolding has_capabilities
all-each own cs = all_iff (has_capability own) cs

-- Each question about capabilities is answered with YES exactly if a capability of the service
-- matches the term, each of the terms, or one of them, where a term with the marker `.Any` matches
-- wherever in a capability the part before the marker stands.
pub answer_query_iff :
    (s : DeviceService) (q : CapabilityQuery) → (answer_query s q ≡ true) ↔ IsYes s q
unfolding answer_query has_any_capability
answer_query_iff s (asks_for c) = has_capability_iff s.capabilities c
answer_query_iff s (asks_for_all cs) = (
  λ t c m. (has_capability_iff s.capabilities c).0 ((all-each s.capabilities cs).0 t c m),
  λ h. (all-each s.capabilities cs).1 (λ c m. (has_capability_iff s.capabilities c).1 (h c m)),
)
answer_query_iff s (asks_for_any cs) = (
  λ t.
      let (c, m, e) = any_witness (has_capability s.capabilities) cs t in
      (c, m, (has_capability_iff s.capabilities c).0 e),
  λ (c, m, h).
      any_of (has_capability s.capabilities) cs c m ((has_capability_iff s.capabilities c).1 h),
)
