-- ===== src/Prelude/Dictionary.antt =====
-- NSMutableDictionary with text keys, as an association list in the order of its enumeration.
-- Foundation leaves that order open, so what is proved of an enumeration holds of every list.
use Prim.Native.String.{String}
use mathlib.Core.Path.{◌≡◌, refl, subst₂}
use mathlib.Core.Logic.{inl, inr}
use mathlib.Core.Option.{Option, none, some}
use mathlib.Core.List.{List, [], ◌∷◌, map}
use native.Mathlib.Omega.{arith}
use connect_sdk_i_os_core.Prelude.Tests.{if◌then◌else◌, or_else, Bool-cases}
use connect_sdk_i_os_core.Prelude.Texts.{text_eq, text_eq_iff}

abbrev pub Dict {ℓ} : Type ℓ → Type ℓ
Dict V = List (String × V)

module _ {ℓ} {V : Type ℓ} where
  unfoldable pub object_for_key : String → Dict V → Option V
  object_for_key k [] = none
  object_for_key k ((j, v) ∷ d) = if text_eq j k then some v else object_for_key k d

  -- `setObject:forKey:`: replaces the value of the key, or adds the key.
  unfoldable pub set_object : String → V → Dict V → Dict V
  set_object k v [] = (k, v) ∷ []
  set_object k v ((j, w) ∷ d) = if text_eq j k then (k, v) ∷ d else (j, w) ∷ set_object k v d

  unfoldable pub remove_object : String → Dict V → Dict V
  remove_object k [] = []
  remove_object k ((j, w) ∷ d) =
      let rest = remove_object k d in if text_eq j k then rest else (j, w) ∷ rest

  abbrev pub all_values : Dict V → List V
  all_values = map (λ e. e.1)

  -- No key twice, as in every dictionary.
  abbrev pub IsDict : Dict V → Type ℓ
  IsDict [] = Unit
  IsDict ((j, w) ∷ d) = (object_for_key j d ≡ none) × IsDict d

  -- A message with a nil key: `objectForKey:nil` answers nil.
  abbrev pub object_for : Option String → Dict V → Option V
  object_for none d = none
  object_for (some k) d = object_for_key k d

  -- `setObject:forKey:nil` raises an exception, which `none` stands for.
  abbrev pub set_object? : Option String → V → Dict V → Option (Dict V)
  set_object? none v d = none
  set_object? (some k) v d = some (set_object k v d)

  pub object_for_key-set_object :
      (k j : String) (v : V) (d : Dict V)
      → object_for_key j (set_object k v d) ≡ (if text_eq k j then some v else object_for_key j d)
  unfolding object_for_key set_object
  object_for_key-set_object k j v [] = refl
  object_for_key-set_object k j v ((i, w) ∷ d) =
      ground (
        arith,
        text_eq_iff k j,
        text_eq_iff i k,
        text_eq_iff i j,
        object_for_key-set_object k j v d,
      )

  pub object_for_key-remove_object :
      (k j : String) (d : Dict V)
      → object_for_key j (remove_object k d) ≡ (if text_eq k j then none else object_for_key j d)
  unfolding object_for_key remove_object
  object_for_key-remove_object k j [] = ground arith
  object_for_key-remove_object k j ((i, w) ∷ d) =
      ground (
        arith,
        text_eq_iff k j,
        text_eq_iff i k,
        text_eq_iff i j,
        object_for_key-remove_object k j d,
      )

  pub set_object-IsDict : (k : String) (v : V) (d : Dict V) → IsDict d → IsDict (set_object k v d)
  unfolding set_object object_for_key
  set_object-IsDict k v [] h = (refl, tt)
  set_object-IsDict k v ((i, w) ∷ d) h = ground (
    arith,
    text_eq_iff i k,
    text_eq_iff k i,
    object_for_key-set_object k i v d,
    set_object-IsDict k v d,
  )

  pub remove_object-IsDict : (k : String) (d : Dict V) → IsDict d → IsDict (remove_object k d)
  unfolding remove_object
  remove_object-IsDict k [] h = tt
  remove_object-IsDict k ((i, w) ∷ d) h =
      ground (arith, object_for_key-remove_object k i d, remove_object-IsDict k d)

  -- `if (value) [json setObject:value forKey:key]`.
  unfoldable pub put_value : String → Option V → Dict V → Dict V
  put_value k none d = d
  put_value k (some v) d = set_object k v d

  pub object_for_key-put_value :
      (k j : String) (v : Option V) (d : Dict V)
      → object_for_key j (put_value k v d)
        ≡ (if text_eq k j then or_else v (object_for_key j d) else object_for_key j d)
  unfolding put_value
  object_for_key-put_value k j none d = ground arith
  object_for_key-put_value k j (some v) d = object_for_key-set_object k j v d

  -- A statement of every entry.
  abbrev pub AllEntries {κ} : (String → V → Type κ) → Dict V → Type κ
  AllEntries P [] = Unit
  AllEntries P ((j, w) ∷ d) = P j w × AllEntries P d

  module _ {κ} (P : String → V → Type κ) where
    pub object_for_key-AllEntries :
        (k : String) (v : V) (d : Dict V) → AllEntries P d → object_for_key k d ≡ some v → P k v
    unfolding object_for_key
    object_for_key-AllEntries k v [] h e = ground arith
    object_for_key-AllEntries k v ((j, w) ∷ d) h e = elim (Bool-cases (text_eq j k)) [
      | inl t ↦ let same : w ≡ v = ground arith in subst₂ P ((text_eq_iff j k).0 t) same h.0
      | inr t ↦ object_for_key-AllEntries k v d h.1 (rw t at e)
    ]

    pub set_object-AllEntries :
        (k : String) (v : V) (d : Dict V) → P k v → AllEntries P d → AllEntries P (set_object k v d)
    unfolding set_object
    set_object-AllEntries k v [] p h = (p, tt)
    set_object-AllEntries k v ((j, w) ∷ d) p h = elim (Bool-cases (text_eq j k)) [
      | inl t ↦ rw t (p, h.1)
      | inr t ↦ rw t (h.0, set_object-AllEntries k v d p h.1)
    ]

    pub remove_object-AllEntries :
        (k : String) (d : Dict V) → AllEntries P d → AllEntries P (remove_object k d)
    unfolding remove_object
    remove_object-AllEntries k [] h = tt
    remove_object-AllEntries k ((j, w) ∷ d) h = elim (Bool-cases (text_eq j k)) [
      | inl t ↦ rw t (remove_object-AllEntries k d h.1)
      | inr t ↦ rw t (h.0, remove_object-AllEntries k d h.1)
    ]

pub ruleset dict_laws = (object_for_key-set_object, object_for_key-remove_object)
