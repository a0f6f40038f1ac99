-- ===== src/Description/Equality.antt =====
-- Services/Config/ServiceDescription.m: when two descriptions are equal, and their hash.
use Prim.Native.Nat.{bit_xor}
use connect_sdk_i_os_core.Prelude.{
  ℕ, String, ◌≡◌, ap, refl, ◌↔◌, Bool, true, false, not, ◌&&◌, ◌||◌, List, [], ◌∷◌, Option, none,
  some, if◌then◌else◌, is_set, is_equal_to_string, text_eq_iff, some_injective, length, arith, ◌==◌,
}
use connect_sdk_i_os_core.Description.{ServiceDescription}
use connect_sdk_i_os_core.Info.Equality.{&&-iff}

-- `(!a && !b) || [a isEqualToString:b]`.
unfoldable pub same_text : Option String → Option String → Bool
same_text a b = (not (is_set a) && not (is_set b)) || is_equal_to_string a b

-- `[a isEqual:b]` of objects that stand as numbers, where either may be nil.
abbrev pub is_equal : Option ℕ → Option ℕ → Bool
is_equal none b = false
is_equal (some a) none = false
is_equal (some a) (some b) = a == b

unfoldable pub same_object : Option ℕ → Option ℕ → Bool
same_object a b = (not (is_set a) && not (is_set b)) || is_equal a b

-- The properties that are compared one by one until two differ.
unfoldable pub string_properties : ServiceDescription → List (Option String)
string_properties d =
    d.address ∷ d.service_id ∷ d.uuid ∷ d.type ∷ d.version ∷ d.friendly_name ∷ d.manufacturer
    ∷ d.model_name ∷ d.model_description ∷ d.model_number ∷ d.location_xml ∷ []

unfoldable pub have_same_properties : List (Option String) → List (Option String) → Bool
have_same_properties [] ys = true
have_same_properties (a ∷ xs) [] = true
have_same_properties (a ∷ xs) (b ∷ ys) =
    let rest = have_same_properties xs ys in if same_text a b then rest else false

-- `isEqualToServiceDescription:` of a description that is not nil.
unfoldable pub is_equal_to_service_description : ServiceDescription → ServiceDescription → Bool
is_equal_to_service_description d e =
    if have_same_properties (string_properties d) (string_properties e)
    then (d.port == e.port)
      && (same_text d.command_url e.command_url
          && (same_object d.service_list e.service_list
              && (same_object d.location_response_headers e.location_response_headers
                  && same_object d.device e.device)))
    else false

same_text_iff : (a b : Option String) → (same_text a b ≡ true) ↔ (a ≡ b)
unfolding same_text
same_text_iff none none = (λ x. refl, λ x. refl)
same_text_iff none (some b) = (λ x. cc x, λ x. cc x)
same_text_iff (some a) none = (λ x. cc x, λ x. cc x)
same_text_iff (some a) (some b) =
    (λ x. ap some ((text_eq_iff a b).0 x), λ x. (text_eq_iff a b).1 (some_injective x))

same_object_iff : (a b : Option ℕ) → (same_object a b ≡ true) ↔ (a ≡ b)
unfolding same_object
same_object_iff none none = (λ x. refl, λ x. refl)
same_object_iff none (some b) = (λ x. cc x, λ x. cc x)
same_object_iff (some a) none = (λ x. cc x, λ x. cc x)
same_object_iff (some a) (some b) =
    (λ x. let e : a ≡ b = ground arith in ap some e, λ x. ground (arith, some_injective x))

port_iff : (a b : ℕ) → (a == b ≡ true) ↔ (a ≡ b)
port_iff a b = (λ x. ground arith, λ x. ground arith)

have_same_properties_iff :
    (xs ys : List (Option String))
    → length xs ≡ length ys
    → (have_same_properties xs ys ≡ true) ↔ (xs ≡ ys)
unfolding have_same_properties
have_same_properties_iff [] [] h = (λ x. refl, λ x. refl)
have_same_properties_iff [] (b ∷ ys) h = absurd (omega arith)
have_same_properties_iff (a ∷ xs) [] h = absurd (omega arith)
have_same_properties_iff (a ∷ xs) (b ∷ ys) h =
    let ih = have_same_properties_iff xs ys (omega arith) in
    ((λ x. ground (arith, x, same_text_iff a b, ih)), λ x. ground (arith, x, same_text_iff a b, ih))

-- The two agree in everything that is compared.
abbrev pub Agree : ServiceDescription → ServiceDescription → Type 0
Agree d e =
    (string_properties d ≡ string_properties e)
    × ((d.port ≡ e.port)
        × ((d.command_url ≡ e.command_url)
            × ((d.service_list ≡ e.service_list)
                × ((d.location_response_headers ≡ e.location_response_headers)
                    × (d.device ≡ e.device)))))

if_true_iff :
    {P Q : Type 0} (a b : Bool)
    → (a ≡ true) ↔ P
    → (b ≡ true) ↔ Q
    → ((if a then b else false) ≡ true) ↔ (P × Q)
if_true_iff true b p q = (λ e. (p.0 refl, q.0 e), λ (x, y). q.1 y)
if_true_iff false b p q = (λ e. cc e, λ (x, y). p.1 x)

Agree-iff : (d e : ServiceDescription) → (is_equal_to_service_description d e ≡ true) ↔ Agree d e
unfolding is_equal_to_service_description string_properties
Agree-iff d e =
    if_true_iff _ _ (have_same_properties_iff (string_properties d) (string_properties e) refl) (
      &&-iff _ _ (port_iff d.port e.port) (
        &&-iff _ _ (same_text_iff d.command_url e.command_url) (
          &&-iff _ _ (same_object_iff d.service_list e.service_list) (
            &&-iff _ _ (same_object_iff d.location_response_headers e.location_response_headers)
              (same_object_iff d.device e.device)))))

-- Two descriptions are equal exactly if they differ at most in the time of the last detection.
pub is_equal_to_service_description_iff :
    (d e : ServiceDescription)
    → (is_equal_to_service_description d e ≡ true)
      ↔ (d ≡ record e { last_detection = d.last_detection })
unfolding string_properties
is_equal_to_service_description_iff d e =
    (λ x. all_equal ((Agree-iff d e).0 x), λ same. (Agree-iff d e).1 (agreeing same))
  where
    all_equal : Agree d e → d ≡ record e { last_detection = d.last_detection }
    all_equal (s, (p, (u, (l, (h, o))))) = cc (s, p, u, l, h, o)

    agreeing : d ≡ record e { last_detection = d.last_detection } → Agree d e
    agreeing same = (
      ap string_properties same,
      (
        ap (λ (x : ServiceDescription). x.port) same,
        (
          ap (λ (x : ServiceDescription). x.command_url) same,
          (
            ap (λ (x : ServiceDescription). x.service_list) same,
            (
              ap (λ (x : ServiceDescription). x.location_response_headers) same,
              ap (λ (x : ServiceDescription). x.device) same,
            ),
          ),
        ),
      ),
    )

-- `isEqual:` of the object itself, or of one that is a description or not.
unfoldable pub description_is_equal : ServiceDescription → Bool → Option ServiceDescription → Bool
description_is_equal d itself other =
    if itself
    then true
    else elim other [ none ↦ false | some e ↦ is_equal_to_service_description d e ]

-- `hash`, by the hashes of the texts and of the other objects.
module _ (text_hash : String → ℕ) (object_hash : ℕ → ℕ) where
  abbrev pub hash_of_text : Option String → ℕ
  hash_of_text none = 0
  hash_of_text (some t) = text_hash t

  abbrev pub hash_of_object : Option ℕ → ℕ
  hash_of_object none = 0
  hash_of_object (some o) = object_hash o

  unfoldable pub xor_all : List ℕ → ℕ → ℕ
  xor_all [] hash = hash
  xor_all (x ∷ xs) hash = xor_all xs (bit_xor hash x)

  unfoldable pub description_hash : ServiceDescription → ℕ
  description_hash d =
      bit_xor
        (xor_all
          (hash_of_text d.address
            ∷ hash_of_text d.service_id
            ∷ hash_of_text d.uuid
            ∷ hash_of_text d.type
            ∷ hash_of_text d.version
            ∷ hash_of_text d.friendly_name
            ∷ hash_of_text d.manufacturer
            ∷ hash_of_text d.model_name
            ∷ hash_of_text d.model_description
            ∷ hash_of_text d.model_number
            ∷ hash_of_text d.command_url
            ∷ hash_of_text d.location_xml
            ∷ hash_of_object d.service_list
            ∷ hash_of_object d.location_response_headers
            ∷ hash_of_object d.device
            ∷ [])
          0)
        d.port

  -- Equal descriptions have the same hash, as collections of Foundation rely on.
  pub description_hash-is_equal :
      (d e : ServiceDescription)
      → is_equal_to_service_description d e ≡ true
      → description_hash d ≡ description_hash e
  unfolding description_hash
  description_hash-is_equal d e h =
      ap description_hash ((is_equal_to_service_description_iff d e).0 h)
