-- ===== src/Ssdp/Filters.antt =====
-- Discovery/Providers/SSDPDiscoveryProvider.m: the filters of the provider.
use connect_sdk_i_os_core.Prelude.{
  String, ◌≡◌, ◌≢◌, ap, List, [], ◌∷◌, text_eq, text_eq_iff, text_eq_refl, Bool-cases, inl, inr,
}
use connect_sdk_i_os_core.Ssdp.{Filter, add_device_filter, remove_device_filter}

abbrev pub Free : String → List Filter → Type 0
Free service_id [] = Unit
Free service_id (f ∷ fs) = (f.service_id ≢ service_id) × Free service_id fs

-- A filter for a service id that no filter had before is taken out again by `removeDeviceFilter:`,
-- and the other filters keep their places.
pub remove_device_filter-add_device_filter :
    (filters : List Filter) (f : Filter)
    → Free f.service_id filters
    → remove_device_filter (add_device_filter filters f) f.service_id ≡ filters
unfolding remove_device_filter add_device_filter
remove_device_filter-add_device_filter [] f h = rw (text_eq_refl f.service_id)
remove_device_filter-add_device_filter (g ∷ gs) f (ne, h) =
    elim (Bool-cases (text_eq g.service_id f.service_id)) [
      | inl e ↦ absurd (ne ((text_eq_iff g.service_id f.service_id).0 e))
      | inr e ↦ rw e (ap (λ fs. g ∷ fs) (remove_device_filter-add_device_filter gs f h))
    ]
