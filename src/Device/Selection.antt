-- ===== src/Device/Selection.antt =====
-- Devices/ConnectableDevice.m: the control that a device answers for each interface is the one of
-- the service with the highest priority.
use connect_sdk_i_os_core.Prelude.{
  ◌≤◌, ◌≡◌, refl, List, [], ◌∷◌, map, Option, none, some, arith, ltb, if◌then◌else◌, Has, ◌⊎◌, inl,
  inr, Bool-cases, SameSet, ap,
}
use connect_sdk_i_os_core.Service.{Control, ControlKind}
use connect_sdk_i_os_core.Device.{Device, services}

-- One round of the enumeration.
prefer : Option Control → Option Control → Option Control
prefer found none = found
prefer none (some c) = some c
prefer (some f) (some c) = if ltb f.priority c.priority then some c else some f

unfoldable pub best_from : Option Control → List (Option Control) → Option Control
unfolding prefer
best_from found [] = found
best_from found (c ∷ cs) = best_from (prefer found c) cs

-- What the services offer for an interface, in the order of the enumeration.
abbrev pub offers : Device → ControlKind → List (Option Control)
offers d kind = map (λ s. s.controls kind) (services d)

unfoldable pub select_control : Device → ControlKind → Option Control
unfolding best_from
select_control d kind = best_from none (offers d kind)

abbrev pub launcher : Device → Option Control
launcher d = select_control d ControlKind.launcher

abbrev pub external_input_control : Device → Option Control
external_input_control d = select_control d ControlKind.external_input_control

abbrev pub media_player : Device → Option Control
media_player d = select_control d ControlKind.media_player

abbrev pub media_control : Device → Option Control
media_control d = select_control d ControlKind.media_control

abbrev pub volume_control : Device → Option Control
volume_control d = select_control d ControlKind.volume_control

abbrev pub tv_control : Device → Option Control
tv_control d = select_control d ControlKind.tv_control

abbrev pub key_control : Device → Option Control
key_control d = select_control d ControlKind.key_control

abbrev pub text_input_control : Device → Option Control
text_input_control d = select_control d ControlKind.text_input_control

abbrev pub mouse_control : Device → Option Control
mouse_control d = select_control d ControlKind.mouse_control

abbrev pub power_control : Device → Option Control
power_control d = select_control d ControlKind.power_control

abbrev pub toast_control : Device → Option Control
toast_control d = select_control d ControlKind.toast_control

abbrev pub web_app_launcher : Device → Option Control
web_app_launcher d = select_control d ControlKind.web_app_launcher

abbrev pub screen_mirroring_control : Device → Option Control
screen_mirroring_control d = select_control d ControlKind.screen_mirroring_control

abbrev pub remote_camera_control : Device → Option Control
remote_camera_control d = select_control d ControlKind.remote_camera_control

-- `r` is a right answer where `seen` was offered: nothing, if nothing was offered, or an offer
-- that no other offer exceeds.
abbrev pub IsBest : List (Option Control) → Option Control → Type 0
IsBest seen none = (c : Control) → ¬ Has (some c) seen
IsBest seen (some b) =
    Has (some b) seen × ((c : Control) → Has (some c) seen → c.priority ≤ b.priority)

-- A round loses nothing and adds nothing: what it keeps was offered, and what it drops is exceeded
-- or equalled by what it keeps.
kept :
    (found offer : Option Control) (b : Control)
    → prefer found offer ≡ some b
    → (found ≡ some b) ⊎ (offer ≡ some b)
unfolding prefer
kept none none b e = inl e
kept none (some c) b e = inr e
kept (some f) none b e = inl e
kept (some f) (some c) b e = ground arith

dropped :
    (found offer : Option Control) (c : Control)
    → (found ≡ some c) ⊎ (offer ≡ some c)
    → (k : Control) × (prefer found offer ≡ some k) × (c.priority ≤ k.priority)
unfolding prefer
dropped none none c o = ground arith
dropped none (some x) c o = (x, refl, ground arith)
dropped (some f) none c o = (f, refl, ground arith)
dropped (some f) (some x) c o = elim (Bool-cases (ltb f.priority x.priority)) [
  | inl t ↦ (x, rw t, ground arith)
  | inr t ↦ (f, rw t, ground arith)
]

IsBest-round :
    (found offer : Option Control) (cs : List (Option Control)) (r : Option Control)
    → IsBest (prefer found offer ∷ cs) r
    → IsBest (found ∷ offer ∷ cs) r
IsBest-round found offer cs none h = λ c m. elim m [
  | inl e ↦ let (k, p, _) = dropped found offer c (inl e) in h k (inl p)
  | inr (inl e) ↦ let (k, p, _) = dropped found offer c (inr e) in h k (inl p)
  | inr (inr n) ↦ h c (inr n)
]
IsBest-round found offer cs (some b) (own, above) = (place own, bound)
  where
    place : Has (some b) (prefer found offer ∷ cs) → Has (some b) (found ∷ offer ∷ cs)
    place (inl e) = elim (kept found offer b e) [ inl f ↦ inl f | inr f ↦ inr (inl f) ]
    place (inr n) = inr (inr n)

    bound : (c : Control) → Has (some c) (found ∷ offer ∷ cs) → c.priority ≤ b.priority
    bound c (inl e) =
        let (k, p, q) = dropped found offer c (inl e) in let r = above k (inl p) in omega arith
    bound c (inr (inl e)) =
        let (k, p, q) = dropped found offer c (inr e) in let r = above k (inl p) in omega arith
    bound c (inr (inr n)) = above c (inr n)

IsBest-one : (found : Option Control) → IsBest (found ∷ []) found
IsBest-one none = λ c m. elim m [ inl e ↦ cc | inr b ↦ b ]
IsBest-one (some b) = (inl refl, λ c m. elim m [ inl e ↦ ground arith | inr n ↦ absurd n ])

best_from-IsBest :
    (found : Option Control) (cs : List (Option Control)) → IsBest (found ∷ cs) (best_from found cs)
unfolding best_from
best_from-IsBest found [] = IsBest-one found
best_from-IsBest found (c ∷ cs) =
    IsBest-round found c cs (best_from (prefer found c) cs) (best_from-IsBest (prefer found c) cs)

IsBest-drop : (cs : List (Option Control)) (r : Option Control) → IsBest (none ∷ cs) r → IsBest cs r
IsBest-drop cs none h = λ c m. h c (inr m)
IsBest-drop cs (some b) (own, above) = (elim own [ inl e ↦ cc | inr m ↦ m ], λ c m. above c (inr m))

-- For each interface the answer is a control that some service offers and whose priority no other
-- offer exceeds, and nil exactly if no service offers one.
pub select_control-IsBest :
    (d : Device) (kind : ControlKind) → IsBest (offers d kind) (select_control d kind)
unfolding select_control
select_control-IsBest d kind =
    IsBest-drop (offers d kind) (best_from none (offers d kind))
      (best_from-IsBest none (offers d kind))

-- Two enumeration orders, as of two lists with the same offers.
IsBest-SameSet :
    (xs ys : List (Option Control)) (r : Option Control) → SameSet xs ys → IsBest xs r → IsBest ys r
IsBest-SameSet xs ys none same h = λ c m. h c ((same (some c)).1 m)
IsBest-SameSet xs ys (some b) same (own, above) =
    ((same (some b)).0 own, λ c m. above c ((same (some c)).1 m))

-- No two different controls are offered at one priority.
abbrev pub HasNoTies : List (Option Control) → Type 0
HasNoTies xs = (a b : Control) → Has (some a) xs → Has (some b) xs → a.priority ≡ b.priority → a ≡ b

IsBest-unique :
    (xs : List (Option Control)) (r s : Option Control)
    → HasNoTies xs
    → IsBest xs r
    → IsBest xs s
    → r ≡ s
IsBest-unique xs none none u h k = refl
IsBest-unique xs none (some b) u h k = absurd (h b k.0)
IsBest-unique xs (some a) none u h k = absurd (k a h.0)
IsBest-unique xs (some a) (some b) u (am, ab) (bm, bb) =
    let p = ab b bm in let q = bb a am in ap some (u a b am bm (omega arith))

-- Where no two offers tie, the answer does not depend on the order in which the dictionary
-- enumerates the services, nor on which device holds them.
pub select_control-SameSet :
    (d d' : Device) (kind : ControlKind)
    → SameSet (offers d kind) (offers d' kind)
    → HasNoTies (offers d kind)
    → select_control d kind ≡ select_control d' kind
select_control-SameSet d d' kind same u =
    IsBest-unique (offers d kind) (select_control d kind) (select_control d' kind) u
      (select_control-IsBest d kind)
      (IsBest-SameSet (offers d' kind) (offers d kind) (select_control d' kind)
        (λ c. ((same c).1, (same c).0)) (select_control-IsBest d' kind))
