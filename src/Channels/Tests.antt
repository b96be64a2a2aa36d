-- ===== src/Channels/Tests.antt =====
-- Runs of the channels package at small inputs.
use codegen_product_kit.Base.{
  ℕ, ◌≡◌, refl, String, false, none, some, [], ◌∷◌, ◌⊎◌, if◌then◌else◌, map, arith, str_eq,
}
use codegen_product_kit.Base.Dict.{Dict, insert}
use codegen_product_kit.Base.Sorting.{select}
use codegen_product_kit.Channels.Store.{
  Post, PollState, Tables, Library, union, add_rows, add, remove, accept_post, new_delivery,
}
use codegen_product_kit.Channels.Store.Limit.{IsBounded, Kept, channels-IsBounded}
use codegen_product_kit.Channels.Store.Feed.{accept_post_lem, is_eligible}
use codegen_product_kit.Channels.Poller.{failed, ServiceError, Client, poll}
use codegen_product_kit.Channels.Poller.Window.{poll_window, Advanced, is_empty}
use codegen_product_kit.Channels.Service.{
  Resolved, resolved, ok_channel, add_channel, remove_channel,
}
use codegen_product_kit.Channels.Service.Actions.{Safe, actions-Safe}

abbrev poll_state : PollState
poll_state = record { cursor = none; since_at = none; retry_at = none; stopped = false }

abbrev subscribed : Tables
subscribed = record {
  users = "tg:7" ∷ [];
  starting_list = [];
  subscriptions = record { user_ref = "tg:7"; channel = "news"; subscribed_at = 5 } ∷ [];
  seen_posts = [];
  deliveries = [];
  poll_state = poll_state;
}

abbrev first_letter : String → ℕ
first_letter s = if str_eq s "tg-channels:news:3:tg:7" then 1 else 2

abbrev lib : Library
lib = record { isoformat = λ n. "now"; strip = λ s. s; decimal = λ n. "3"; uuid5 = first_letter }

abbrev post : Post
post = record {
  channel = "news";
  id = 3;
  seq = 1;
  date = 9;
  text = "hi";
  edited = false;
  deleted = false;
  views = none;
}

abbrev subscribers : Dict (Dict ℕ)
subscribers = ("news", ("tg:7", 5) ∷ []) ∷ []

subscribed-IsBounded : IsBounded subscribed
unfolding IsBounded union add_rows insert
subscribed-IsBounded = omega arith

channels-IsBounded_example :
    Kept IsBounded (add 6 "tg:8" "sport" subscribed)
    × Kept IsBounded (remove 6 "tg:8" "sport" subscribed)
channels-IsBounded_example = channels-IsBounded 6 "tg:8" "sport" subscribed subscribed-IsBounded

accept_post_example : accept_post lib 7 post (("tg:7", 5) ∷ []) subscribed ≡ record subscribed {
  seen_posts = ("news", 3) ∷ [];
  deliveries =
      map (λ e. new_delivery lib 7 post e.0) (select (is_eligible post) (("tg:7", 5) ∷ []));
}
accept_post_example =
    accept_post_lem lib 7 post (("tg:7", 5) ∷ []) subscribed refl (tt, tt) (refl, tt)

abbrev denied : ServiceError
denied = record { status = 403; retry_after = 60 }

abbrev client : Client
client channels since cursor = failed denied

poll_window_example :
    (poll lib (some client) 9 subscribed ≡ subscribed)
    ⊎ Advanced 9 none (poll lib (some client) 9 subscribed).poll_state.since_at
poll_window_example = poll_window lib (some client) 9 subscribed

subscribed_is_not_empty : is_empty (union subscribed) ≡ false
unfolding union add_rows insert
subscribed_is_not_empty = refl

abbrev found : String → Resolved
found channel = resolved ok_channel

actions-Safe_example :
    Safe subscribed (add_channel lib (λ s. s) (some found) 9 "tg:8" "@sport" subscribed)
    × Safe subscribed (remove_channel lib (λ s. s) 9 "tg:8" "@sport" subscribed)
actions-Safe_example =
    actions-Safe lib (λ s. s) (some found) 9 "tg:8" "@sport" subscribed subscribed-IsBounded
