-- ===== src/Capabilities/Classes.antt =====
-- Services/Capabilities: the constants of all the headers together, and what the wildcards match.
use mathlib.Core.Bool.{false≢true}
use connect_sdk_i_os_core.Prelude.{
  ℕ, ◌==◌, String, ◌≡◌, sym, refl, Bool, true, false, not, ◌&&◌, ◌||◌, List, [], ◌∷◌, Option, none,
  some, all, any, Has, inl, inr, range_of_string, substring_to_index, contains_object, text_eq,
  arith,
}
use connect_sdk_i_os_core.Service.{has_capability}
use connect_sdk_i_os_core.Capabilities.{CapabilityClass}
use connect_sdk_i_os_core.Capabilities.Launcher.{launcher_class}
use connect_sdk_i_os_core.Capabilities.MediaPlayer.{media_player_class}
use connect_sdk_i_os_core.Capabilities.MediaControl.{media_control_class}
use connect_sdk_i_os_core.Capabilities.PlayListControl.{play_list_control_class}
use connect_sdk_i_os_core.Capabilities.VolumeControl.{volume_control_class}
use connect_sdk_i_os_core.Capabilities.TvControl.{tv_control_class}
use connect_sdk_i_os_core.Capabilities.WebAppLauncher.{web_app_launcher_class}
use connect_sdk_i_os_core.Capabilities.InputControls.{
  key_control_class, mouse_control_class, text_input_control_class,
}
use connect_sdk_i_os_core.Capabilities.SystemControls.{
  power_control_class, toast_control_class, external_input_control_class,
}
use connect_sdk_i_os_core.Capabilities.CastControls.{
  screen_mirroring_control_class, remote_camera_control_class,
}

-- A header that defines capabilities.
pub data ClassName : Type 0 where
  launcher media_player media_control play_list_control volume_control : ClassName
  tv_control web_app_launcher key_control mouse_control text_input_control : ClassName
  power_control toast_control external_input_control screen_mirroring_control
        remote_camera_control :
      ClassName

abbrev pub class_of : ClassName → CapabilityClass
class_of launcher = launcher_class
class_of media_player = media_player_class
class_of media_control = media_control_class
class_of play_list_control = play_list_control_class
class_of volume_control = volume_control_class
class_of tv_control = tv_control_class
class_of web_app_launcher = web_app_launcher_class
class_of key_control = key_control_class
class_of mouse_control = mouse_control_class
class_of text_input_control = text_input_control_class
class_of power_control = power_control_class
class_of toast_control = toast_control_class
class_of external_input_control = external_input_control_class
class_of screen_mirroring_control = screen_mirroring_control_class
class_of remote_camera_control = remote_camera_control_class

abbrev class_names : List ClassName
class_names =
    launcher ∷ media_player ∷ media_control ∷ play_list_control ∷ volume_control ∷ tv_control
    ∷ web_app_launcher ∷ key_control ∷ mouse_control ∷ text_input_control ∷ power_control
    ∷ toast_control ∷ external_input_control ∷ screen_mirroring_control ∷ remote_camera_control ∷ []

-- The classes whose constants the wildcard of a class matches: its own, and for `Launcher.Any` those
-- of the web app launcher too, since `Launcher` occurs in `WebAppLauncher`.
abbrev code : ClassName → ℕ
code launcher = 0
code media_player = 1
code media_control = 2
code play_list_control = 3
code volume_control = 4
code tv_control = 5
code web_app_launcher = 6
code key_control = 7
code mouse_control = 8
code text_input_control = 9
code power_control = 10
code toast_control = 11
code external_input_control = 12
code screen_mirroring_control = 13
code remote_camera_control = 14

abbrev pub covers : ClassName → ClassName → Bool
covers a b = (code a == code b) || ((code a == 0) && (code b == 6))

abbrev agrees : Bool → Bool → Bool
agrees true b = b
agrees false b = not b

agrees-≡ : (a b : Bool) → agrees a b ≡ true → a ≡ b
agrees-≡ true b e = sym e
agrees-≡ false true e = absurd (false≢true e)
agrees-≡ false false e = refl

abbrev is_checked : Option String → Bool → List String → Bool
is_checked none covered constants = true
is_checked (some wildcard) covered constants =
    all (λ c. agrees (has_capability (c ∷ []) wildcard) covered) constants

abbrev check : ClassName → ClassName → Bool
check a b = is_checked (class_of a).any_capability (covers a b) (class_of b).constants

module _ {A : Type 0} (p : A → Bool) where
  all_at : (xs : List A) (x : A) → all p xs ≡ true → Has x xs → p x ≡ true
  unfolding all
  all_at [] x e h = absurd h
  all_at (y ∷ ys) x e (inl i) = ground arith
  all_at (y ∷ ys) x e (inr h) = all_at ys x (ground arith) h

checked : (a : ClassName) → all (check a) class_names ≡ true
unfolding all has_capability range_of_string substring_to_index any contains_object text_eq
checked launcher = refl
checked media_player = refl
checked media_control = refl
checked play_list_control = refl
checked volume_control = refl
checked tv_control = refl
checked web_app_launcher = refl
checked key_control = refl
checked mouse_control = refl
checked text_input_control = refl
checked power_control = refl
checked toast_control = refl
checked external_input_control = refl
checked screen_mirroring_control = refl
checked remote_camera_control = refl

named : (b : ClassName) → Has b class_names
named launcher = inl refl
named media_player = inr (inl refl)
named media_control = inr (inr (inl refl))
named play_list_control = inr (inr (inr (inl refl)))
named volume_control = inr (inr (inr (inr (inl refl))))
named tv_control = inr (inr (inr (inr (inr (inl refl)))))
named web_app_launcher = inr (inr (inr (inr (inr (inr (inl refl))))))
named key_control = inr (inr (inr (inr (inr (inr (inr (inl refl)))))))
named mouse_control = inr (inr (inr (inr (inr (inr (inr (inr (inl refl))))))))
named text_input_control = inr (inr (inr (inr (inr (inr (inr (inr (inr (inl refl)))))))))
named power_control = inr (inr (inr (inr (inr (inr (inr (inr (inr (inr (inl refl))))))))))
named toast_control = inr (inr (inr (inr (inr (inr (inr (inr (inr (inr (inr (inl refl)))))))))))
named external_input_control =
    inr (inr (inr (inr (inr (inr (inr (inr (inr (inr (inr (inr (inl refl))))))))))))
named screen_mirroring_control =
    inr (inr (inr (inr (inr (inr (inr (inr (inr (inr (inr (inr (inr (inl refl)))))))))))))
named remote_camera_control =
    inr (inr (inr (inr (inr (inr (inr (inr (inr (inr (inr (inr (inr (inr (inl refl))))))))))))))

-- The wildcard of a class matches exactly the constants of the class itself, except that
-- `Launcher.Any` matches those of the web app launcher too.
pub any_capability-covers :
    (a b : ClassName) (wildcard c : String)
    → (class_of a).any_capability ≡ some wildcard
    → Has c (class_of b).constants
    → has_capability (c ∷ []) wildcard ≡ covers a b
any_capability-covers a b wildcard c e h =
    agrees-≡ (has_capability (c ∷ []) wildcard) (covers a b) (
      all_at (λ x. agrees (has_capability (x ∷ []) wildcard) (covers a b)) (class_of b).constants c
        (rw e at (all_at (check a) class_names b (checked a) (named b))) h)

-- The constants that no array lists.
abbrev pub unlisted : List String
unlisted =
    "MediaPlayer.Play.Playlist" ∷ "MediaPlayer.Loop" ∷ "MediaPlayer.Subtitle.SRT"
    ∷ "MediaPlayer.Subtitle.WebVTT" ∷ []

abbrev is_listed : CapabilityClass → String → Bool
is_listed k c = agrees (contains_object c k.listed) (not (contains_object c unlisted))

listed_checked : (a : ClassName) → all (is_listed (class_of a)) (class_of a).constants ≡ true
unfolding all contains_object text_eq
listed_checked launcher = refl
listed_checked media_player = refl
listed_checked media_control = refl
listed_checked play_list_control = refl
listed_checked volume_control = refl
listed_checked tv_control = refl
listed_checked web_app_launcher = refl
listed_checked key_control = refl
listed_checked mouse_control = refl
listed_checked text_input_control = refl
listed_checked power_control = refl
listed_checked toast_control = refl
listed_checked external_input_control = refl
listed_checked screen_mirroring_control = refl
listed_checked remote_camera_control = refl

-- The array of a header lists exactly the constants of the header, without the wildcard and four
-- constants of the media player.
pub listed_iff :
    (a : ClassName) (c : String)
    → Has c (class_of a).constants
    → contains_object c (class_of a).listed ≡ not (contains_object c unlisted)
listed_iff a c h =
    agrees-≡ (contains_object c (class_of a).listed) (not (contains_object c unlisted))
      (all_at (is_listed (class_of a)) (class_of a).constants c (listed_checked a) h)
