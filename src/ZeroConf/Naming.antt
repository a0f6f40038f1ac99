-- ===== src/ZeroConf/Naming.antt =====
-- Discovery/Providers/ZeroConfDiscoveryProvider.m: the identifier of a service that was resolved.
use connect_sdk_i_os_core.Prelude.{
  ℕ, ◌+◌, ◌<◌, String, ◌≡◌, refl, ◌↔◌, inl, inr, Option, none, some, ◌>>=◌, codes, List,
  range_of_string, substring_with_range, length, arith,
}
use connect_sdk_i_os_core.Prelude.Occurrences.{substring_with_range-cases}
use connect_sdk_i_os_core.ZeroConf.{
  ZeroConf, NetService, first_ip4, uuid_of, resolved, did_resolve_address, file_service,
  describe_service,
}

-- A service that resolves to an address of IPv4, and whose TXT record has a device id at `i`, raises
-- an exception exactly if fewer than fourteen UTF-16 units follow its key.
pub did_resolve_address-raises_iff :
    (command_url : String → ℕ → Option String) (now : ℕ) (string_of : List ℕ → String)
    (s : NetService) (z : ZeroConf) (address : String) (txt : List ℕ) (port i : ℕ)
    → first_ip4 s.addresses ≡ some (address, port)
    → s.txt_record ≡ some txt
    → range_of_string (codes "deviceid=") txt ≡ some i
    → (did_resolve_address command_url now string_of s z ≡ none) ↔ (length txt < i + 23)
unfolding did_resolve_address uuid_of
did_resolve_address-raises_iff command_url now string_of s z address txt port i ip record_set
      found =
    elim (substring_with_range-cases (i + 9) 14 txt) [
      | inl (h, e) ↦ (λ x. omega (arith, h), λ x. answer none (read none e))
      | inr (h, (t, e)) ↦ (
        (λ x. cc (answer (some (some (string_of t))) (read (some t) e), x)),
        λ x. absurd (omega (arith, h, x)),
      )
    ]
  where
    read :
        (o : Option (List ℕ))
        → substring_with_range (i + 9) 14 txt ≡ o
        → uuid_of string_of s ≡ (do units ← o; some (some (string_of units)))
    read o e = rw record_set (rw found (rw e refl))

    answer :
        (o : Option (Option String))
        → uuid_of string_of s ≡ o
        → did_resolve_address command_url now string_of s z ≡ (do
          uuid ← o
          some (
              file_service command_url now s.name
                (describe_service command_url now s (resolved s.name z) address port uuid)
                (resolved s.name z)))
    answer o e = rw ip (rw e refl)
