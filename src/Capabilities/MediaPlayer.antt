-- ===== src/Capabilities/MediaPlayer.antt =====
-- Services/Capabilities/MediaPlayer.h. The deprecated calls take the parts of a media object; what is
-- launched stands as the number of its object.
use connect_sdk_i_os_core.Prelude.{ℕ, String, Bool, [], ◌∷◌, Option, some}
use connect_sdk_i_os_core.Info.{MediaInfo}
use connect_sdk_i_os_core.Capabilities.{CapabilityClass}

-- The constants of the header.
abbrev pub media_player_class : CapabilityClass
media_player_class = record {
  any_capability = some "MediaPlayer.Any";
  constants =
      "MediaPlayer.Display.Image" ∷ "MediaPlayer.Play.Video" ∷ "MediaPlayer.Play.Audio"
      ∷ "MediaPlayer.Play.Playlist" ∷ "MediaPlayer.Loop" ∷ "MediaPlayer.Close"
      ∷ "MediaPlayer.MetaData.Title" ∷ "MediaPlayer.MetaData.Description"
      ∷ "MediaPlayer.MetaData.Thumbnail" ∷ "MediaPlayer.MetaData.MimeType"
      ∷ "MediaPlayer.Subtitle.SRT" ∷ "MediaPlayer.Subtitle.WebVTT" ∷ [];
  listed =
      "MediaPlayer.Display.Image" ∷ "MediaPlayer.Play.Video" ∷ "MediaPlayer.Play.Audio"
      ∷ "MediaPlayer.Close" ∷ "MediaPlayer.MetaData.Title" ∷ "MediaPlayer.MetaData.Description"
      ∷ "MediaPlayer.MetaData.Thumbnail" ∷ "MediaPlayer.MetaData.MimeType" ∷ [];
}

-- The calls of the protocol.
pub data MediaPlayerCall : Type 0 where
  display_image_with_media_info : Option MediaInfo → MediaPlayerCall
  play_media_with_media_info : Option MediaInfo → Bool → MediaPlayerCall
  close_media : Option ℕ → MediaPlayerCall
  display_image_at :
      Option String
      → Option String
      → Option String
      → Option String
      → Option String
      → MediaPlayerCall
  display_image : Option MediaInfo → MediaPlayerCall
  play_media_at :
      Option String
      → Option String
      → Option String
      → Option String
      → Option String
      → Bool
      → MediaPlayerCall
  play_media : Option MediaInfo → Bool → MediaPlayerCall

-- What the success block of a call receives.
abbrev pub MediaPlayerAnswer : MediaPlayerCall → Type 0
MediaPlayerAnswer (display_image_with_media_info a) = ℕ
MediaPlayerAnswer (play_media_with_media_info a b) = ℕ
MediaPlayerAnswer (close_media a) = Unit
MediaPlayerAnswer (display_image_at a b c d e) = ℕ × Option ℕ
MediaPlayerAnswer (display_image a) = ℕ × Option ℕ
MediaPlayerAnswer (play_media_at a b c d e f) = ℕ × Option ℕ
MediaPlayerAnswer (play_media a b) = ℕ × Option ℕ
