-- ===== src/Ssdp/Receiving.antt =====
-- Discovery/Providers/SSDPDiscoveryProvider.m: the handler of a datagram, with the UUID that it reads of
-- the USN.
use connect_sdk_i_os_core.Prelude.{
  ℕ, ◌+◌, ◌-◌, String, Bool, true, false, not, ◌&&◌, List, [], ◌∷◌, Option, none, some,
  if◌then◌else◌, is_equal_to_string, ltb, ◌==◌, ◌%◌, ◌^◌, ◌>>=◌, length, substring_with_range,
}
use connect_sdk_i_os_core.Ssdp.{
  Provider, Datagram, Announcement, SsdpEvent, is_searching_for_filter, heed,
}

-- `length > 0`, where a message to nil answers 0.
abbrev is_filled : Option (List ℕ) → Bool
is_filled none = false
is_filled (some []) = false
is_filled (some (u ∷ units)) = true

-- The guards of the handler before the USN is read.
unfoldable pub is_wanted : Provider → Datagram → Bool
is_wanted p g =
    (g.code == 200)
    && (not (is_equal_to_string g.method (some "M-SEARCH"))
        && (is_searching_for_filter p.service_filters g.type && is_filled g.usn))

-- Differences of `NSUInteger` wrap around.
abbrev pub minus : ℕ → ℕ → ℕ
minus a b = (a + 2 ^ 64 - b) % 2 ^ 64

-- The first match is by `uuid:` and `::` longer than the UUID. Without one, a message to nil answers
-- the empty range at 0, and the length of the range wraps around.
abbrev pub uuid_range : Option (ℕ × ℕ) → ℕ → ℕ × ℕ
uuid_range none size = (5, if ltb (minus 0 7) (minus size 5) then minus 0 7 else minus size 5)
uuid_range (some (location, count)) size = (
  location + 5,
  if ltb (minus count 7) (minus size (location + 5))
      then minus count 7
      else minus size (location + 5),
)

-- What stands in that range of the USN. It raises an exception, `none`, out of range.
unfoldable pub uuid_units : Option (ℕ × ℕ) → List ℕ → Option (List ℕ)
uuid_units found usn =
    let range = uuid_range found (length usn) in substring_with_range range.0 range.1 usn

abbrev pub announced : Datagram → String → Announcement
announced g uuid = record {
  uuid = uuid;
  type = g.type;
  nts = g.nts;
  location = g.location;
  host = g.host;
  sender = g.sender;
}

abbrev pub usn_of : Datagram → List ℕ
usn_of g = elim g.usn [ none ↦ [] | some usn ↦ usn ]

-- `socket:didReceiveData:fromAddress:`, where `string_of` is the text with the UTF-16 units given.
module _ (string_of : List ℕ → String) where
  unfoldable pub did_receive_data : Provider → Datagram → ℕ → Option (Provider × List SsdpEvent)
  did_receive_data p g now = if not (is_wanted p g) then some (p, []) else do
    units ← uuid_units g.usn_match (usn_of g)
    some (heed p (announced g (string_of units)) now)
