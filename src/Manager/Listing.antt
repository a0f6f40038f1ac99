-- ===== src/Manager/Listing.antt =====
-- Discovery/DiscoveryManager.m: the compatible devices are exactly those of all devices that pass
-- the filters, each under its address.
use connect_sdk_i_os_core.Prelude.{
  ℕ, String, ◌≡◌, ◌≢◌, ◌∙◌, sym, refl, subst, ◌⊎◌, inl, inr, true, false, List, [], ◌∷◌, Option,
  none, some, arith, if◌then◌else◌, text_eq, text_eq_iff, object_for_key, set_object, remove_object,
  object_for_key-set_object, object_for_key-remove_object, Bool-cases,
}
use connect_sdk_i_os_core.Device.{address}
use connect_sdk_i_os_core.Manager.{
  Manager, ManagerEvent, Outcome, found, updated, store_update, notify, is_compatible, list_device,
  unlist_device, add_updated, handle_device_add, handle_device_update, handle_device_loss,
}

-- What the compatible devices should hold under an address.
abbrev pub expected : Manager → String → Option ℕ
expected m a = elim (object_for_key a m.all_devices) [
  | none ↦ none
  | some r ↦ if is_compatible m r then some r else none
]

abbrev pub IsFiledByAddress : Manager → Type 0
IsFiledByAddress m =
    (a : String) (r : ℕ) → object_for_key a m.all_devices ≡ some r → address (m.objects r) ≡ some a

pub record IsListed (m : Manager) : Type 0 where
  pub filed : IsFiledByAddress m
  pub exact : (a : String) → object_for_key a m.compatible_devices ≡ expected m a

-- The device `r` at the address `a` has changed, and the compatible devices may be behind.
pub record IsBehind (m : Manager) (a : String) (r : ℕ) : Type 0 where
  pub filed : IsFiledByAddress m
  pub here : object_for_key a m.all_devices ≡ some r
  pub exact : (b : String) → b ≢ a → object_for_key b m.compatible_devices ≡ expected m b
  pub shown :
      (object_for_key a m.compatible_devices ≡ none)
      ⊎ (object_for_key a m.compatible_devices ≡ some r)

-- What a handler leaves: only the compatible devices change.
pub record Lists (m : Manager) (o : Outcome) : Type 0 where
  pub m' : Manager
  pub events : List ManagerEvent
  pub answer : o ≡ some (m', events)
  pub listed : IsListed m'
  pub rest : m' ≡ record m { compatible_devices = m'.compatible_devices }

module _ (m : Manager) (a : String) (r : ℕ) (h : IsBehind m a r) where
  -- With the address set as expected the manager is listed.
  caught_up :
      (compatible : List (String × ℕ))
      → (object_for_key a compatible ≡ expected m a)
      → ((b : String) → b ≢ a → object_for_key b compatible ≡ object_for_key b m.compatible_devices)
      → IsListed (record m { compatible_devices = compatible })
  caught_up compatible at_a elsewhere = record {
    filed = h.filed;
    exact = λ b. elim (Bool-cases (text_eq b a)) [
      | inl t ↦
          subst (λ c. object_for_key c compatible ≡ expected m c) (sym ((text_eq_iff b a).0 t)) at_a
      | inr t ↦ let ne : b ≢ a = ground (arith, text_eq_iff b a) in elsewhere b ne ∙ h.exact b ne
    ];
  }

  expected_here : expected m a ≡ (if is_compatible m r then some r else none)
  expected_here = rw (h.here, expected)

  list_device-Lists : is_compatible m r ≡ true → Lists m (list_device m r)
  unfolding list_device
  list_device-Lists t = record {
    m' = record m { compatible_devices = set_object a r m.compatible_devices };
    events = notify m found r;
    answer = rw (h.filed a r h.here);
    listed =
        caught_up (set_object a r m.compatible_devices)
          (object_for_key-set_object a a r m.compatible_devices
            ∙ (rw (expected_here, t, (text_eq_iff a a).1 refl)))
          (λ b ne.
            ground (arith, object_for_key-set_object a b r m.compatible_devices, text_eq_iff a b));
    rest = refl;
  }

  -- `handleDeviceAdd:` of a device whose address is not among the compatible ones.
  pub handle_device_add-Lists :
      object_for_key a m.compatible_devices ≡ none → Lists m (handle_device_add m r)
  unfolding handle_device_add
  handle_device_add-Lists absent = elim (Bool-cases (is_compatible m r)) [
    | inl t ↦ rw t (list_device-Lists t)
    | inr t ↦ rw t (record {
      m' = m;
      events = [];
      answer = refl;
      listed = caught_up m.compatible_devices (absent ∙ (rw (expected_here, t))) (λ b ne. refl);
      rest = refl;
    })
  ]

  add_updated-Lists : object_for_key a m.compatible_devices ≡ none → Lists m (add_updated m r)
  unfolding add_updated
  add_updated-Lists absent =
      let l = handle_device_add-Lists absent in
      record {
        m' = l.m';
        events = store_update r ∷ l.events;
        answer = rw l.answer;
        listed = l.listed;
        rest = l.rest;
      }

  unlist_device-Lists : is_compatible m r ≡ false → Lists m (unlist_device m r)
  unfolding unlist_device
  unlist_device-Lists t = record {
    m' = record m { compatible_devices = remove_object a m.compatible_devices };
    events = store_update r ∷ handle_device_loss m r;
    answer = rw (h.filed a r h.here);
    listed =
        caught_up (remove_object a m.compatible_devices)
          (object_for_key-remove_object a a m.compatible_devices
            ∙ (rw (expected_here, t, (text_eq_iff a a).1 refl)))
          (λ b ne.
            ground (arith, object_for_key-remove_object a b m.compatible_devices, text_eq_iff a b));
    rest = refl;
  }

  shown_device-Lists :
      is_compatible m r ≡ true → object_for_key a m.compatible_devices ≡ some r → IsListed m
  shown_device-Lists t e =
      caught_up m.compatible_devices (e ∙ (rw (expected_here, t))) (λ b ne. refl)

  -- `handleDeviceUpdate:` lists the device if it passes the filters, takes it off if it does not,
  -- and so makes the compatible devices right again.
  pub handle_device_update-Lists : Lists m (handle_device_update m r)
  unfolding handle_device_update
  handle_device_update-Lists = elim (Bool-cases (is_compatible m r)) [
    | inl t ↦ elim h.shown [
      | inl absent ↦ rw (t, h.filed a r h.here) (rw absent (add_updated-Lists absent))
      | inr e ↦
          rw (t, h.filed a r h.here)
            (rw e (record {
              m' = m;
              events = store_update r ∷ notify m updated r;
              answer = refl;
              listed = shown_device-Lists t e;
              rest = refl;
            }))
    ]
    | inr t ↦ rw t (unlist_device-Lists t)
  ]
