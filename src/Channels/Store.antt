-- ===== src/Channels/Store.antt =====
-- Subscriptions, seen posts and deliveries: codegen_kit_tg_channels/store.py with the tables of
-- migrations/versions/0001_channels.py and the post of models.py, all in
-- packages/codegen-kit-tg-channels. Instants are microseconds; the rows that one action inserts take one
-- instant.
pub mod Limit
pub mod Feed
use Prim.Native.String.{◌++◌ as str_append}
use Prim.Native.String
use codegen_product_kit.Base.{
  ℕ, zero, suc, ◌+◌, ◌≡◌, String, Bool, true, false, ◌&&◌, not, Option, none, some, List, [], ◌∷◌,
  ◌++◌, if◌then◌else◌, ◌==◌, leb, ltb, str_eq, same_pair, length, take, is_some,
}
use codegen_product_kit.Base.Dict.{Dict, lookup, insert}
use codegen_product_kit.Base.Sorting.{any, select, sort_by}

abbrev pub channel_limit : ℕ
channel_limit = 50

-- Ten minutes.
abbrev pub subscription_slack : ℕ
subscription_slack = 600000000

pub record Subscription : Type 0 where
  pub user_ref : String
  pub channel : String
  pub subscribed_at : ℕ

pub record Post : Type 0 where
  pub channel : String
  pub id : ℕ
  pub seq : ℕ
  pub date : ℕ
  pub text : String
  pub edited : Bool
  pub deleted : Bool
  pub views : Option ℕ

pub record PostView : Type 0 where
  pub channel : String
  pub date : String
  pub text : String
  pub url : String

pub record Delivery : Type 0 where
  pub event_id : ℕ
  pub payload : PostView
  pub user_ref : String
  pub occurred_at : ℕ
  pub emitted_at : Option ℕ

pub record PollState : Type 0 where
  pub cursor : Option String
  pub since_at : Option ℕ
  pub retry_at : Option ℕ
  pub stopped : Bool

pub record Tables : Type 0 where
  pub users : List String
  pub starting_list : List String
  pub subscriptions : List Subscription
  pub seen_posts : List (String × ℕ)
  pub deliveries : List Delivery
  pub poll_state : PollState

abbrev or_empty : Option (Dict ℕ) → Dict ℕ
or_empty none = []
or_empty (some d) = d

-- `result.setdefault(row.channel, {})[row.user_ref] = row.subscribed_at`
abbrev pub row_of : Subscription → Dict (Dict ℕ) → Dict ℕ
row_of s d = insert s.user_ref s.subscribed_at (or_empty (lookup s.channel d))

-- The loop of `Store.subscriptions`.
unfoldable pub add_rows : List Subscription → Dict (Dict ℕ) → Dict (Dict ℕ)
unfolding lookup insert
add_rows [] d = d
add_rows (s ∷ l) d = add_rows l (insert s.channel (row_of s d) d)

-- `Store.subscriptions`: the subscribers of each channel.
unfoldable pub union : Tables → Dict (Dict ℕ)
unfolding add_rows
union db = add_rows db.subscriptions []

abbrev pub is_subscription : String → String → Subscription → Bool
is_subscription user_ref channel s = same_pair s.user_ref s.channel user_ref channel

abbrev pub add_subscription : Subscription → List Subscription → List Subscription
add_subscription s l = if any (is_subscription s.user_ref s.channel) l then l else l ++ s ∷ []

-- `Store._insert`; `none` is `ActionError("try_later")`, which rolls the transaction back.
pub insert_subscription : ℕ → String → String → Tables → Option Tables
unfolding union lookup
insert_subscription now user_ref channel db =
    if not (is_some (lookup channel (union db))) && leb channel_limit (length (union db))
    then none
    else some (record db {
      subscriptions =
          add_subscription (record { user_ref = user_ref; channel = channel; subscribed_at = now })
            db.subscriptions;
    })

pub insert_all : ℕ → String → List String → Tables → Option Tables
unfolding insert_subscription
insert_all now user_ref [] db = some db
insert_all now user_ref (c ∷ cs) db = elim (insert_subscription now user_ref c db) [
  | none ↦ none
  | some db' ↦ insert_all now user_ref cs db'
]

-- `Store._initialize`
pub initialize : ℕ → String → Tables → Option Tables
unfolding insert_all
initialize now user_ref db =
    if any (λ u. str_eq u user_ref) db.users
    then some db
    else insert_all now user_ref db.starting_list (record db { users = db.users ++ user_ref ∷ [] })

-- `Store.add`
pub add : ℕ → String → String → Tables → Option Tables
unfolding initialize
add now user_ref channel db = elim (initialize now user_ref db) [
  | none ↦ none
  | some db' ↦ insert_subscription now user_ref channel db'
]

-- `Store.remove`
pub remove : ℕ → String → String → Tables → Option Tables
unfolding initialize
remove now user_ref channel db = elim (initialize now user_ref db) [
  | none ↦ none
  | some db' ↦ some (record db' {
    subscriptions = select (λ s. not (is_subscription user_ref channel s)) db'.subscriptions;
  })
]

-- `text[:n]`
pub shorten : ℕ → String → String
shorten zero s = ""
shorten (suc n) String.[] = ""
shorten (suc n) (String.◌∷◌ c s) = String.◌∷◌ c (shorten n s)

-- What the standard library gives: `isoformat`, `strip`, the decimal digits and `uuid5`.
pub record Library : Type 0 where
  pub isoformat : ℕ → String
  pub strip : String → String
  pub decimal : ℕ → String
  pub uuid5 : String → ℕ

-- `Post.view`
pub view : Library → Post → PostView
unfolding shorten
view lib p = record {
  channel = p.channel;
  date = lib.isoformat p.date;
  text = shorten 2500 (lib.strip p.text);
  url = str_append "https://t.me/" (str_append p.channel (str_append "/" (lib.decimal p.id)));
}

pub event_id_of : Library → Post → String → ℕ
event_id_of lib p user_ref = lib.uuid5 (
    str_append "tg-channels:" (
      str_append p.channel
        (str_append ":" (str_append (lib.decimal p.id) (str_append ":" user_ref)))))

abbrev pub new_delivery : Library → ℕ → Post → String → Delivery
new_delivery lib at p user_ref = record {
  event_id = event_id_of lib p user_ref;
  payload = view lib p;
  user_ref = user_ref;
  occurred_at = at;
  emitted_at = none;
}

abbrev pub add_delivery : Delivery → List Delivery → List Delivery
add_delivery d l = if any (λ e. e.event_id == d.event_id) l then l else l ++ d ∷ []

-- The loop over the subscribers of a post.
pub deliver_each : Library → ℕ → Post → Dict ℕ → List Delivery → List Delivery
unfolding view event_id_of
deliver_each lib at p [] l = l
deliver_each lib at p ((user_ref, subscribed_at) ∷ us) l = deliver_each lib at p us (
    if ltb (p.date + subscription_slack) subscribed_at
    then l
    else add_delivery (new_delivery lib at p user_ref) l)

abbrev pub is_seen : Post → List (String × ℕ) → Bool
is_seen p l = any (λ s. str_eq s.0 p.channel && s.1 == p.id) l

-- The body of the loop of `accept_page`, once the channel has subscribers.
pub accept_post : Library → ℕ → Post → Dict ℕ → Tables → Tables
unfolding deliver_each
accept_post lib at p users db = if is_seen p db.seen_posts then db else record db {
  seen_posts = db.seen_posts ++ (p.channel, p.id) ∷ [];
  deliveries = if p.deleted then db.deliveries else deliver_each lib at p users db.deliveries;
}

abbrev accept_for : Library → ℕ → Post → Option (Dict ℕ) → Tables → Tables
accept_for lib at p none db = db
accept_for lib at p (some users) db = accept_post lib at p users db

pub accept_posts : Library → ℕ → Dict (Dict ℕ) → List Post → Tables → Tables
unfolding accept_post lookup
accept_posts lib at subscribers [] db = db
accept_posts lib at subscribers (p ∷ ps) db =
    accept_posts lib at subscribers ps (accept_for lib at p (lookup p.channel subscribers) db)

abbrev pub by_seq : Post → Post → Bool
by_seq p q = leb p.seq q.seq

-- `Store.accept_page`
pub accept_page : Library → ℕ → Dict (Dict ℕ) → List Post → Tables → Tables
unfolding accept_posts
accept_page lib at subscribers items db = accept_posts lib at subscribers (sort_by by_seq items) db

-- `ORDER BY occurred_at, event_id LIMIT 200`
abbrev pub pending_before : Delivery → Delivery → Bool
pending_before d e =
    if d.occurred_at == e.occurred_at
    then leb d.event_id e.event_id
    else ltb d.occurred_at e.occurred_at

abbrev pub is_pending : Delivery → Bool
is_pending d = not (is_some d.emitted_at)

abbrev pub pending_limit : ℕ
pending_limit = 200

-- `Store.pending`
pub pending : Tables → List Delivery
pending db = take pending_limit (sort_by pending_before (select is_pending db.deliveries))

abbrev pub confirm_delivery : ℕ → ℕ → Delivery → Delivery
confirm_delivery event_id at d =
    if d.event_id == event_id then record d { emitted_at = some at } else d
