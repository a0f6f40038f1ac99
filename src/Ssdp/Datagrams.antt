-- ===== src/Ssdp/Datagrams.antt =====
-- Discovery/Providers/SSDPDiscoveryProvider.m: which datagrams end in an exception.
use connect_sdk_i_os_core.Prelude.{
  ℕ, Option, ◌>>=◌, ◌+◌, ◌^◌, ◌<◌, ◌≤◌, String, ◌≡◌, refl, ◌↔◌, ◌⊎◌, true, inl, inr, List, none,
  some, length, ltb, Bool-cases, arith,
}
use connect_sdk_i_os_core.Prelude.Occurrences.{substring_with_range-cases}
use connect_sdk_i_os_core.Ssdp.{Provider, Datagram, heed}
use connect_sdk_i_os_core.Ssdp.Receiving.{
  minus, uuid_range, uuid_units, usn_of, announced, is_wanted, did_receive_data,
}

-- The range that is read without a match ends inside the USN exactly if that has five units.
range_fits :
    (size : ℕ)
    → size < 2 ^ 64
    → ((uuid_range none size).0 + (uuid_range none size).1 ≤ size) ↔ (5 ≤ size)
range_fits size h = elim (Bool-cases (ltb (minus 0 7) (minus size 5))) [
  | inl t ↦ rw t (λ e. ground arith, λ e. ground arith)
  | inr t ↦ rw t (λ e. ground arith, λ e. ground arith)
]

uuid_units-cases :
    (usn : List ℕ)
    → length usn < 2 ^ 64
    → ((length usn < 5) × (uuid_units none usn ≡ none))
      ⊎ ((5 ≤ length usn) × ((t : List ℕ) × (uuid_units none usn ≡ some t)))
unfolding uuid_units
uuid_units-cases usn small =
    elim (substring_with_range-cases (uuid_range none (length usn)).0
      (uuid_range none (length usn)).1 usn) [
        | inl (h, e) ↦ inl (short h, e)
        | inr (h, r) ↦ inr ((range_fits (length usn) small).0 h, r)
      ]
  where
    short :
        length usn < (uuid_range none (length usn)).0 + (uuid_range none (length usn)).1
        → length usn < 5
    short h = elim (Bool-cases (ltb (length usn) 5)) [
      | inl t ↦ ground arith
      | inr t ↦
          let long : 5 ≤ length usn = ground arith in
          let fits = (range_fits (length usn) small).1 long in absurd (omega (arith, h, fits))
    ]

-- A datagram that passes the guards, and in whose USN the regular expression finds nothing, raises an
-- exception exactly if the USN has fewer than five UTF-16 units.
pub did_receive_data-raises_iff :
    (string_of : List ℕ → String) (p : Provider) (g : Datagram) (now : ℕ) (usn : List ℕ)
    → is_wanted p g ≡ true
    → g.usn ≡ some usn
    → length usn < 2 ^ 64
    → g.usn_match ≡ none
    → (did_receive_data string_of p g now ≡ none) ↔ (length usn < 5)
unfolding did_receive_data
did_receive_data-raises_iff string_of p g now usn wanted own small unmatched =
    elim (uuid_units-cases usn small) [
      | inl (h, e) ↦ (λ x. h, λ x. answer none e)
      | inr (h, (t, e)) ↦ ((λ x. cc (answer (some t) e, x)), λ x. absurd (omega (arith, h, x)))
    ]
  where
    read : (o : Option (List ℕ)) → uuid_units none usn ≡ o → uuid_units g.usn_match (usn_of g) ≡ o
    read o e = rw (unmatched, own) e

    answer :
        (o : Option (List ℕ))
        → uuid_units none usn ≡ o
        → did_receive_data string_of p g now
          ≡ (do units ← o; some (heed p (announced g (string_of units)) now))
    answer o e = rw wanted (rw (read o e) refl)
