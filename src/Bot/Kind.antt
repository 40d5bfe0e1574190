-- ===== src/Bot/Kind.antt =====
-- `BotType` of src/bot/mod.rs.
use rust_multichat_server.Base.{◌≡◌, refl, codes, if◌then◌else◌}
use rust_multichat_server.Protocol.{Text}
use rust_multichat_server.Strings.{text_eq}

pub data BotType : Type 0 where
  normal fickle spammer ghost quitter : BotType

-- `Result<A, E>`.
pub data Result {ℓ} (E : Type ℓ) (A : Type ℓ) : Type ℓ where
  ok : A → Result E A
  err : E → Result E A

-- The messages of `RatioSpec::parse` and `BotType::from_str`.
pub data ParseError : Type 0 where
  empty_spec : ParseError
  bad_format : (part : Text) → ParseError
  bad_type : (other : Text) → ParseError
  bad_number : (ratio_str : Text) → ParseError
  zero_ratio : (type_str : Text) → ParseError

unfoldable pub as_str : BotType → Text
as_str normal = codes "normal"
as_str fickle = codes "fickle"
as_str spammer = codes "spammer"
as_str ghost = codes "ghost"
as_str quitter = codes "quitter"

unfoldable pub from_str : Text → Result ParseError BotType
unfolding text_eq
from_str s =
    if text_eq s (codes "normal")
    then ok normal
    else if text_eq s (codes "fickle")
    then ok fickle
    else if text_eq s (codes "spammer")
    then ok spammer
    else if text_eq s (codes "ghost")
    then ok ghost
    else if text_eq s (codes "quitter")
    then ok quitter
    else err (bad_type s)

-- Reading the name of a bot type gives the type back.
pub from_str-as_str : (b : BotType) → from_str (as_str b) ≡ ok b
unfolding from_str as_str
from_str-as_str normal = refl
from_str-as_str fickle = refl
from_str-as_str spammer = refl
from_str-as_str ghost = refl
from_str-as_str quitter = refl
