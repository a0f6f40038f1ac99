-- ===== src/Store/Protocol/Making.antt =====
-- Devices/DefaultConnectableDeviceStore.m: the records that the store makes of a device have what the
-- protocol asks for.
use connect_sdk_i_os_core.Prelude.{
  String, ◌≡◌, ◌∙◌, sym, ap, refl, inl, inr, List, [], ◌∷◌, Option, none, some, if◌then◌else◌, Dict,
  object_for_key, set_object, set_object?, object_for_key-set_object, ◌>>=◌, All, Bool-cases,
  text_eq, text_eq_iff,
}
use connect_sdk_i_os_core.Service.{DeviceService}
use connect_sdk_i_os_core.Device.{Device, services}
use connect_sdk_i_os_core.Store.{StoredDevice, ServiceInfo}
use connect_sdk_i_os_core.Store.Updates.{
  file_services, json_representation_for_device, updated_record, infos_of, new_record,
}
use connect_sdk_i_os_core.Store.Contract.{made_of}
use connect_sdk_i_os_core.Store.Refinement.Changes.{HasUuids}
use connect_sdk_i_os_core.Store.Protocol.{FiledUnder, IsRecordOf}

module _ (info_of : DeviceService → ServiceInfo) where
  FiledUnder-one :
      (k uuid : String) (service : DeviceService) (ss : List DeviceService)
      (infos : Dict ServiceInfo) (o : Option ServiceInfo)
      → service.description.uuid ≡ some uuid
      → FiledUnder info_of k ss (object_for_key k (set_object uuid (info_of service) infos)) o
      → FiledUnder info_of k (service ∷ ss) (object_for_key k infos) o
  FiledUnder-one k uuid service ss infos o e (inl (s, m, own, r)) = inl (s, inr m, own, r)
  FiledUnder-one k uuid service ss infos o e (inr (other, r)) = elim (Bool-cases (text_eq uuid k)) [
    | inl t ↦
        inl (service, inl refl, e ∙ ap some ((text_eq_iff uuid k).0 t), r ∙ (lookup ∙ rw t refl))
    | inr t ↦ inr (
      λ s m own. elim m [
        | inl i ↦
            cc ((text_eq_iff uuid k).1 (same (sym e ∙ (ap (λ x. x.description.uuid) i ∙ own))), t)
        | inr n ↦ other s n own
      ],
      r ∙ (lookup ∙ rw t refl),
    )
  ]
    where
      lookup :
          object_for_key k (set_object uuid (info_of service) infos)
          ≡ (if text_eq uuid k then some (info_of service) else object_for_key k infos)
      lookup = object_for_key-set_object uuid k (info_of service) infos

      same : some uuid ≡ some k → uuid ≡ k
      same p = cc p

  file_services-FiledUnder :
      (ss : List DeviceService) (infos : Dict ServiceInfo)
      → All (λ service. (uuid : String) × (service.description.uuid ≡ some uuid)) ss
      → (infos' : Dict ServiceInfo) × (file_services info_of ss infos ≡ some infos')
        × ((k : String)
            → FiledUnder info_of k ss (object_for_key k infos) (object_for_key k infos'))
  unfolding file_services
  file_services-FiledUnder [] infos h = (infos, refl, λ k. inr (λ s m own. m, refl))
  file_services-FiledUnder (service ∷ ss) infos ((uuid, e), h) =
      let (infos', e', filed) =
        file_services-FiledUnder ss (set_object uuid (info_of service) infos) h in
      (
        infos',
        ap (λ o. set_object? o (info_of service) infos >>= file_services info_of ss) e ∙ e',
        λ k. FiledUnder-one k uuid service ss infos (object_for_key k infos') e (filed k),
      )

  pub made_of-IsRecordOf :
      (key : String) (o : Option StoredDevice) (d : Device)
      → HasUuids d
      → (made : StoredDevice) × (made_of info_of key o d ≡ some made)
        × IsRecordOf info_of key o d made
  unfolding json_representation_for_device updated_record
  made_of-IsRecordOf key none d h =
      let (infos, e, filed) = file_services-FiledUnder (services d) [] h in
      (
        new_record key d infos,
        rw e refl,
        record {
          names = (refl, refl);
          address = refl;
          wifi = refl;
          connected_at = refl;
          detected_at = refl;
          filed = (infos, refl, filed);
        },
      )
  made_of-IsRecordOf key (some old) d h =
      let (infos, e, filed) = file_services-FiledUnder (services d) (infos_of old.services) h in
      (
        record old {
          last_known_ip_address = d.last_known_ip_address;
          last_seen_on_wifi = d.last_seen_on_wifi;
          last_connected = some d.last_connected;
          last_detection = some d.last_detection;
          services = some infos;
        },
        rw e refl,
        record {
          names = (refl, refl);
          address = refl;
          wifi = refl;
          connected_at = refl;
          detected_at = refl;
          filed = (infos, refl, filed);
        },
      )
