-- ===== src/Voice/Support.antt =====
-- frontend/src/utils/speechRecognition.ts: whether the browser recognises speech.
use acp_webui.Common.{
  String, Bool, true, false, ◌&&◌, ◌||◌, Option, none, some, or_else, or_else?, ◌==◌,
}

-- What stands where the browser has a constructor.
pub data Constructor : Type 0 where
  function : Constructor
  other : Constructor

pub record Location : Type 0 where
  pub hostname : Option String
  pub protocol : Option String

pub record SpeechRecognitionTarget : Type 0 where
  pub speech_recognition : Option Constructor
  pub webkit_speech_recognition : Option Constructor
  pub is_secure_context : Option Bool
  pub location : Option Location

abbrev pub is_function : Option Constructor → Bool
is_function none = false
is_function (some Constructor.function) = true
is_function (some Constructor.other) = false

unfoldable pub has_speech_recognition_constructor : SpeechRecognitionTarget → Bool
has_speech_recognition_constructor target =
    is_function (or_else? target.speech_recognition target.webkit_speech_recognition)

abbrev pub is_text : Option String → String → Bool
is_text none t = false
is_text (some s) t = s == t

abbrev protocol_of : Option Location → Option String
protocol_of none = none
protocol_of (some l) = l.protocol

abbrev hostname_of : Option Location → Option String
hostname_of none = none
hostname_of (some l) = l.hostname

unfoldable pub has_secure_recognition_context : SpeechRecognitionTarget → Bool
has_secure_recognition_context target =
    or_else target.is_secure_context true
    || is_text (protocol_of target.location) "https:"
    || is_text (hostname_of target.location) "localhost"
    || is_text (hostname_of target.location) "127.0.0.1"
    || is_text (hostname_of target.location) "::1"

-- `none` is a target that is not an object.
unfoldable pub speech_recognition_supported : Option SpeechRecognitionTarget → Bool
unfolding has_speech_recognition_constructor has_secure_recognition_context
speech_recognition_supported none = false
speech_recognition_supported (some target) =
    has_speech_recognition_constructor target && has_secure_recognition_context target
