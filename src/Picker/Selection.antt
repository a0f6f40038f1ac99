-- ===== src/Picker/Selection.antt =====
-- Devices/DevicePicker.m: what a tap on a button or a row tells the delegate.
use connect_sdk_i_os_core.Prelude.{
  ℕ, zero, suc, ◌<◌, ◌≤◌, ◌≡◌, ◌≢◌, ◌∙◌, sym, ap, refl, subst, ◌↔◌, ◌⊎◌, inl, inr, true, false,
  List, [], ◌∷◌, ◌++◌, Option, none, some, some_injective, arith, if◌then◌else◌, length, Has,
  any_of, Bool-cases, ◌==◌, any_witness,
}
use connect_sdk_i_os_core.Device.{Device}
use connect_sdk_i_os_core.Picker.{
  Picker, did_select, object_at_index, contains_device, clicked_button, tell_select, tell_cancel,
  cleanup_views, did_select_row, selected, dismiss_picker, is_current,
}
use connect_sdk_i_os_core.Picker.Rows.{rows}

object_at_index-cases :
    (i : ℕ) (rs : List ℕ)
    → ((length rs ≤ i) × (object_at_index i rs ≡ none))
      ⊎ ((i < length rs) × ((r : ℕ) × (object_at_index i rs ≡ some r)))
unfolding object_at_index
object_at_index-cases i [] = inl (omega arith, refl)
object_at_index-cases zero (r ∷ rs) = inr (omega arith, (r, refl))
object_at_index-cases (suc i) (r ∷ rs) = elim (object_at_index-cases i rs) [
  | inl (h, e) ↦ inl (omega arith, e)
  | inr (h, (x, e)) ↦ inr (omega arith, (x, e))
]

contains_device_iff :
    (r : ℕ) (p : Picker)
    → (contains_device (some r) p.generated_device_list ≡ true) ↔ Has r (rows p)
unfolding contains_device
contains_device_iff r p = (forth p.generated_device_list, back p.generated_device_list)
  where
    forth :
        (o : Option (List ℕ))
        → contains_device (some r) o ≡ true
        → Has r (elim o [ none ↦ [] | some rs ↦ rs ])
    forth none e = cc e
    forth (some rs) e =
        let (x, m, t) = any_witness (λ x. x == r) rs e in
        let same : x ≡ r = ground (arith, t) in subst (λ y. Has y rs) same m

    back :
        (o : Option (List ℕ))
        → Has r (elim o [ none ↦ [] | some rs ↦ rs ])
        → contains_device (some r) o ≡ true
    back none m = absurd m
    back (some rs) m = any_of (λ x. x == r) rs r m (ground arith)

-- An action sheet is up, with the devices `rs`.
abbrev pub HasSheet : Picker → List ℕ → Type 0
HasSheet p rs = (p.action_sheet_device_list ≡ some rs) × (p.cancel_button_index ≡ some (length rs))

module _ (p : Picker) (rs : List ℕ) (sheet : HasSheet p rs) where
  clicked_cancel : (i : ℕ) → i ≡ length rs → clicked_button i p ≡ some []
  unfolding clicked_button
  clicked_cancel i e = rw (sheet.1, e) (ground arith)

  clicked_device :
      (i x : ℕ)
      → i < length rs
      → object_at_index i rs ≡ some x
      → clicked_button i p
        ≡ some (
            if contains_device (some x) p.generated_device_list then tell_select p (some x) else [])
  unfolding clicked_button
  clicked_device i x h e =
      let other : (i == length rs) ≡ false = ground arith in
      rw (sheet.1, other) (rw sheet.0 (rw e refl))

-- A tap on any button of the action sheet raises no exception. The delegate is told of a device
-- exactly when it is the one of that button, still has a row, and the delegate wants to know.
pub clicked_button_iff :
    (p : Picker) (rs : List ℕ) (i r : ℕ)
    → HasSheet p rs
    → i ≤ length rs
    → (clicked_button i p ≢ none)
      × ((clicked_button i p ≡ some (did_select (some r) ∷ []))
          ↔ ((object_at_index i rs ≡ some r) × Has r (rows p) × (p.selects ≡ true)))
clicked_button_iff p rs i r sheet within = elim (object_at_index-cases i rs) [
  | inl (over, e) ↦
      let silent : clicked_button i p ≡ some [] = clicked_cancel p rs sheet i (omega arith) in
      ((λ x. cc), ((λ x. cc), λ y. cc (e, y.0)))
  | inr (h, (x, e)) ↦
      let answer = clicked_device p rs sheet i x h e in
      ((λ y. cc (answer, y)), (told x e answer, back x e answer))
]
  where
    told :
        (x : ℕ)
        → object_at_index i rs ≡ some x
        → clicked_button i p
          ≡ some (
              if contains_device (some x) p.generated_device_list
              then tell_select p (some x)
              else [])
        → clicked_button i p ≡ some (did_select (some r) ∷ [])
        → (object_at_index i rs ≡ some r) × Has r (rows p) × (p.selects ≡ true)
    told x e answer y = elim (Bool-cases (contains_device (some x) p.generated_device_list)) [
      | inr t ↦ cc (answer, y, t)
      | inl t ↦ elim (Bool-cases p.selects) [
        | inr s ↦ cc (answer, y, t, s)
        | inl s ↦
            let same : x ≡ r = ground (arith, answer, y, t, s) in
            (e ∙ ap some same, subst (λ z. Has z (rows p)) same ((contains_device_iff x p).0 t), s)
      ]
    ]

    back :
        (x : ℕ)
        → object_at_index i rs ≡ some x
        → clicked_button i p
          ≡ some (
              if contains_device (some x) p.generated_device_list
              then tell_select p (some x)
              else [])
        → (object_at_index i rs ≡ some r) × Has r (rows p) × (p.selects ≡ true)
        → clicked_button i p ≡ some (did_select (some r) ∷ [])
    back x e answer (y, m, s) =
        let same : r ≡ x = some_injective (sym y ∙ e) in
        let t = (contains_device_iff r p).1 m in ground (arith, answer, same, t, s)

module _ (objects : ℕ → Device) (p : Picker) (rs : List ℕ) (i : ℕ)
    (e : p.generated_device_list ≡ some rs) where
  select_there :
      (r : ℕ)
      → object_at_index i rs ≡ some r
      → did_select_row objects i p ≡ some (selected objects p (some r))
  unfolding did_select_row
  select_there r there = rw e (rw there refl)

  -- A tap on a row raises an exception exactly when the list has no such row, which the table may
  -- still show.
  pub did_select_row-raises_iff : (did_select_row objects i p ≡ none) ↔ (length rs ≤ i)
  unfolding did_select_row
  did_select_row-raises_iff = elim (object_at_index-cases i rs) [
    | inl (over, none_there) ↦ ((λ x. over), λ x. rw e (rw none_there refl))
    | inr (h, (r, there)) ↦ ((λ x. cc (select_there r there, x)), λ x. absurd (omega arith))
  ]

  -- A tap on a row of the list: where the device of the row has the address of the current one,
  -- nothing happens; else the views go, and the delegate, as far as it responds, is told first of
  -- the device and then that the user cancelled.
  pub did_select_row-tells :
      (r : ℕ)
      → object_at_index i rs ≡ some r
      → ((is_current objects p (some r) ≡ true) × (did_select_row objects i p ≡ some (p, [])))
        ⊎ ((is_current objects p (some r) ≡ false)
            × (did_select_row objects i p
                ≡ some (cleanup_views p, tell_select p (some r) ++ tell_cancel p)))
  unfolding dismiss_picker
  did_select_row-tells r there = elim (Bool-cases (is_current objects p (some r))) [
    | inl t ↦ inl (t, select_there r there ∙ (rw t refl))
    | inr t ↦ inr (t, select_there r there ∙ (rw t refl))
  ]
