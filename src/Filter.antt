-- ===== src/Filter.antt =====
-- Discovery/CapabilityFilter.m: a filter of devices by required capabilities. The manager holds a
-- filter as its list of capabilities.
use mathlib.Core.Bool.{false≢true}
use connect_sdk_i_os_core.Prelude.{
  String, ◌≡◌, refl, ◌↔◌, inl, inr, true, List, [], ◌∷◌, ◌++◌, map, Has, Has-append_left,
  Has-append_right, Has-of_append, Bool-cases, sym, subst, arith, any,
}
use connect_sdk_i_os_core.Device.{Device, has_capabilities}
use connect_sdk_i_os_core.Device.Contract.{Lists, has_capabilities_iff}
use connect_sdk_i_os_core.Manager.{device_is_compatible}

pub record CapabilityFilter : Type 0 where
  pub capabilities : List String

abbrev pub new_filter : CapabilityFilter
new_filter = record { capabilities = [] }

unfoldable pub add_capability : CapabilityFilter → String → CapabilityFilter
add_capability f c = record { capabilities = f.capabilities ++ c ∷ [] }

unfoldable pub add_capabilities : CapabilityFilter → List String → CapabilityFilter
add_capabilities f cs = record { capabilities = f.capabilities ++ cs }

unfoldable pub filter_with_capabilities : List String → CapabilityFilter
filter_with_capabilities cs = add_capabilities new_filter cs

abbrev requirements : List CapabilityFilter → List (List String)
requirements fs = map (λ f. f.capabilities) fs

-- The device satisfies all conditions of the filter.
abbrev pub Satisfies : Device → CapabilityFilter → Type 0
Satisfies d f = (c : String) → Has c f.capabilities → Lists d c

-- What the documentation says of filtering: a filter asks for all its conditions, and a device needs
-- to satisfy one filter.
abbrev pub Passes : Device → List CapabilityFilter → Type 0
Passes d fs = (f : CapabilityFilter) × Has f fs × Satisfies d f

any_more :
    (d : Device) (f : CapabilityFilter) (fs : List CapabilityFilter)
    → (any (has_capabilities d) (requirements fs) ≡ true) ↔ Passes d fs
    → (any (has_capabilities d) (requirements (f ∷ fs)) ≡ true) ↔ Passes d (f ∷ fs)
unfolding any
any_more d f fs (there, back) = (into, out)
  where
    into : any (has_capabilities d) (requirements (f ∷ fs)) ≡ true → Passes d (f ∷ fs)
    into t = elim (Bool-cases (has_capabilities d f.capabilities)) [
      | inl e ↦ (f, inl refl, (has_capabilities_iff d f.capabilities).0 e)
      | inr e ↦ let (g, m, h) = there (rw e at t) in (g, inr m, h)
    ]

    out : Passes d (f ∷ fs) → any (has_capabilities d) (requirements (f ∷ fs)) ≡ true
    out (g, inl e, h) =
        rw ((has_capabilities_iff d f.capabilities).1 (subst (Satisfies d) (sym e) h)) refl
    out (g, inr m, h) = let rest = back (g, m, h) in ground arith

any_filter :
    (d : Device) (fs : List CapabilityFilter)
    → (any (has_capabilities d) (requirements fs) ≡ true) ↔ Passes d fs
any_filter d [] = (λ t. absurd (false≢true (unfold any in t)), λ (f, m, h). absurd m)
any_filter d (f ∷ fs) = any_more d f fs (any_filter d fs)

-- A device is compatible with a list of filters that is not empty exactly if it satisfies all
-- conditions of one of them.
pub device_is_compatible_iff :
    (d : Device) (f : CapabilityFilter) (fs : List CapabilityFilter)
    → (device_is_compatible (requirements (f ∷ fs)) d ≡ true) ↔ Passes d (f ∷ fs)
unfolding device_is_compatible
device_is_compatible_iff d f fs = any_filter d (f ∷ fs)

-- A filter that is extended asks for what it asked for and for the capabilities added.
pub add_capabilities-Satisfies :
    (d : Device) (f : CapabilityFilter) (cs : List String)
    → Satisfies d (add_capabilities f cs)
      ↔ (Satisfies d f × Satisfies d (filter_with_capabilities cs))
unfolding add_capabilities filter_with_capabilities
add_capabilities-Satisfies d f cs = (
  λ h. (
    λ c m. h c (Has-append_left c f.capabilities cs m),
    λ c m. h c (Has-append_right c f.capabilities cs m),
  ),
  λ (own, new) c m. elim (Has-of_append c f.capabilities cs m) [
    | inl k ↦ own c k
    | inr k ↦ new c k
  ],
)
