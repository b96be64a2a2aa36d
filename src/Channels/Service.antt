-- ===== src/Channels/Service.antt =====
-- The actions of a user on the channels: codegen_kit_tg_channels/service.py of
-- packages/codegen-kit-tg-channels. Lower case is of the standard library, a parameter.
pub mod Actions
use Prim.Native.Char.{code}
use Prim.Native.String
use codegen_product_kit.Base.{
  ℕ, suc, ◌≡◌, String, Bool, true, false, ◌&&◌, ◌||◌, Option, none, some, List, [], ◌∷◌,
  if◌then◌else◌, ◌==◌, leb, length,
}
use codegen_product_kit.Channels.Store.{Tables, Library, add, remove}
use codegen_product_kit.Channels.Poller.{ServiceError}

-- What an action answers: a value, or an `ActionError` with its code.
pub data Action : Type 0 where
  answered : String → Action
  action_error : String → Action

-- The status of a channel on the platform.
pub data Status : Type 0 where
  ok_channel pending_channel no_preview not_found not_a_channel error_channel : Status

-- What `ReaderClient.resolve` answers.
pub data Resolved : Type 0 where
  resolved : Status → Resolved
  unresolved : ServiceError → Resolved

abbrev codes : String → List ℕ
codes String.[] = []
codes (String.◌∷◌ c s) = code c ∷ codes s

-- `removeprefix`, where the text starts with the prefix.
pub after_prefix : String → String → Option String
after_prefix String.[] s = some s
after_prefix (String.◌∷◌ c p) String.[] = none
after_prefix (String.◌∷◌ c p) (String.◌∷◌ d s) = if code c == code d then after_prefix p s else none

pub unprefixed : List String → String → String
unfolding after_prefix
unprefixed [] s = s
unprefixed (p ∷ ps) s = elim (after_prefix p s) [ some t ↦ t | none ↦ unprefixed ps s ]

abbrev is_letter : ℕ → Bool
is_letter c = (leb 65 c && leb c 90) || (leb 97 c && leb c 122)

abbrev is_word : ℕ → Bool
is_word c = is_letter c || ((leb 48 c && leb c 57) || c == 95)

abbrev all_words : List ℕ → Bool
all_words [] = true
all_words (c ∷ l) = is_word c && all_words l

-- `USERNAME`
pub is_username : List ℕ → Bool
is_username [] = false
is_username (c ∷ l) = is_letter c && leb 3 (length l) && leb (length l) 31 && all_words l

abbrev prefixes : List String
prefixes = "https://t.me/" ∷ "http://t.me/" ∷ "t.me/" ∷ "@" ∷ []

-- `username`: `none` is `ActionError("invalid_username")`.
pub username : Library → (String → String) → String → Option String
unfolding unprefixed is_username
username lib lower text =
    let value = unprefixed prefixes (lib.strip text) in
    if is_username (codes value) then some (lower value) else none

-- `service_error`
pub service_error : ServiceError → String
service_error e =
    if e.status == 401 || e.status == 403
    then "not_configured"
    else if e.status == 429
    then "try_later"
    else if e.status == 400
    then "invalid_username"
    else "try_later"

abbrev stored : Tables → Action → Option Tables → Action × Tables
stored db a none = (action_error "try_later", db)
stored db a (some db') = (a, db')

abbrev after_resolve : ℕ → String → String → Tables → Resolved → Action × Tables
after_resolve now user_ref channel db (unresolved e) = (action_error (service_error e), db)
after_resolve now user_ref channel db (resolved ok_channel) =
    stored db (answered channel) (add now user_ref channel db)
after_resolve now user_ref channel db (resolved pending_channel) =
    stored db (action_error "pending") (add now user_ref channel db)
after_resolve now user_ref channel db (resolved no_preview) = (action_error "no_preview", db)
after_resolve now user_ref channel db (resolved not_found) = (action_error "not_found", db)
after_resolve now user_ref channel db (resolved not_a_channel) = (action_error "not_a_channel", db)
after_resolve now user_ref channel db (resolved error_channel) = (action_error "try_later", db)

abbrev after_username :
    ℕ → String → Option (String → Resolved) → Tables → Option String → Action × Tables
after_username now user_ref client db none = (action_error "invalid_username", db)
after_username now user_ref none db (some channel) = (action_error "not_configured", db)
after_username now user_ref (some resolve) db (some channel) =
    after_resolve now user_ref channel db (resolve channel)

-- `ChannelsService.add`
pub add_channel :
    Library
    → (String → String)
    → Option (String → Resolved)
    → ℕ
    → String
    → String
    → Tables
    → Action × Tables
unfolding username service_error
add_channel lib lower client now user_ref text db =
    after_username now user_ref client db (username lib lower text)

abbrev removed_or_error : ℕ → String → Tables → Option String → Action × Tables
removed_or_error now user_ref db none = (action_error "invalid_username", db)
removed_or_error now user_ref db (some channel) =
    stored db (answered channel) (remove now user_ref channel db)

-- `ChannelsService.remove`
pub remove_channel : Library → (String → String) → ℕ → String → String → Tables → Action × Tables
unfolding username
remove_channel lib lower now user_ref text db =
    removed_or_error now user_ref db (username lib lower text)
