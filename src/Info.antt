-- ===== src/Info.antt =====
-- Helpers/*Info.h: the objects by which apps, channels, inputs and media are named.
-- A property is `none` where the source's pointer is nil. Raw data and other objects that the source
-- only passes on stand as numbers; a URL is its text; times are whole ticks.
pub mod Equality
use connect_sdk_i_os_core.Prelude.{
  ℕ, String, Bool, true, false, ◌&&◌, List, [], ◌∷◌, ◌++◌, Option, none, some, is_equal_to_string,
}

pub record AppInfo : Type 0 where
  pub id : Option String
  pub name : Option String
  pub raw_data : Option ℕ

-- `appInfoForId:`.
abbrev pub app_info_for_id : Option String → AppInfo
app_info_for_id app_id = record { id = app_id; name = none; raw_data = none }

pub record ChannelInfo : Type 0 where
  pub id : Option String
  pub name : Option String
  pub number : Option String
  pub major_number : ℕ
  pub minor_number : ℕ
  pub raw_data : Option ℕ

pub record ProgramInfo : Type 0 where
  pub id : Option String
  pub name : Option String
  pub channel_info : Option ChannelInfo
  pub raw_data : Option ℕ

pub record ExternalInputInfo : Type 0 where
  pub id : Option String
  pub name : Option String
  pub connected : Bool
  pub icon_url : Option String
  pub raw_data : Option ℕ

pub record TextInputStatusInfo : Type 0 where
  pub keyboard_type : ℕ
  pub is_visible : Bool
  pub raw_data : Option ℕ

pub data ImageType : Type 0 where
  unknown thumb video_poster album_art : ImageType

-- Images have whole sizes, 0 where none is given.
pub record ImageInfo : Type 0 where
  pub url : Option String
  pub type : ImageType
  pub width : ℕ
  pub height : ℕ

-- `initWithURL:type:`.
abbrev pub image_with_url : Option String → ImageType → ImageInfo
image_with_url url type = record { url = url; type = type; width = 0; height = 0 }

pub record SubtitleInfoBuilder : Type 0 where
  pub mime_type : Option String
  pub language : Option String
  pub label : Option String

pub record SubtitleInfo : Type 0 where
  pub url : String
  pub mime_type : Option String
  pub language : Option String
  pub label : Option String

abbrev empty_builder : SubtitleInfoBuilder
empty_builder = record { mime_type = none; language = none; label = none }

-- `infoWithURL:andBlock:`; the block fills the builder. A nil URL raises an exception, `none`.
unfoldable pub info_with_url :
    Option String → (SubtitleInfoBuilder → SubtitleInfoBuilder) → Option SubtitleInfo
unfolding empty_builder
info_with_url none block = none
info_with_url (some url) block =
    let built = block empty_builder in
    some (record {
      url = url;
      mime_type = built.mime_type;
      language = built.language;
      label = built.label;
    })

pub record MediaInfo : Type 0 where
  pub url : Option String
  pub mime_type : Option String
  pub title : Option String
  pub description : Option String
  pub duration : ℕ
  pub images : List ImageInfo
  pub subtitle_info : Option SubtitleInfo

-- `initWithURL:mimeType:`.
abbrev pub media_with_url : Option String → Option String → MediaInfo
media_with_url url mime_type = record {
  url = url;
  mime_type = mime_type;
  title = none;
  description = none;
  duration = 0;
  images = [];
  subtitle_info = none;
}

unfoldable pub add_image : MediaInfo → ImageInfo → MediaInfo
add_image m i = record m { images = m.images ++ i ∷ [] }

unfoldable pub add_images : MediaInfo → List ImageInfo → MediaInfo
add_images m is = record m { images = m.images ++ is }

-- `isEqual:` of each class. A message to nil answers NO.
unfoldable pub app_is_equal : AppInfo → AppInfo → Bool
app_is_equal a b = is_equal_to_string a.id b.id

unfoldable pub channel_is_equal : ChannelInfo → ChannelInfo → Bool
channel_is_equal a b = is_equal_to_string a.number b.number && is_equal_to_string a.name b.name

unfoldable pub program_is_equal : ProgramInfo → ProgramInfo → Bool
program_is_equal a b = is_equal_to_string a.id b.id && is_equal_to_string a.name b.name

unfoldable pub input_is_equal : ExternalInputInfo → ExternalInputInfo → Bool
input_is_equal a b = is_equal_to_string a.id b.id && is_equal_to_string a.name b.name
