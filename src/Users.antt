-- ===== src/Users.antt =====
-- Users and their external identities: template/services/backend/src/app/models/user.py, the
-- repository app/repositories/user.py and the controller controllers/users.py beside it.
mod Access
mod Caller
mod Tests
use codegen_product_kit.Base.{
  ℕ, suc, ◌+◌, String, Bool, true, false, Option, none, some, List, [], ◌∷◌, ◌++◌, map,
  if◌then◌else◌, ◌==◌, same_pair, is_some, Http, ok, http_error,
}

pub data UserStatus : Type 0 where
  active inactive : UserStatus

pub record User : Type 0 where
  pub id : ℕ
  pub status : UserStatus

pub record UserChannel : Type 0 where
  pub user_id : ℕ
  pub channel : String
  pub external_id : String

-- The two tables; `next_id` is what the database gives to the next user.
pub record Tables : Type 0 where
  pub users : List User
  pub channels : List UserChannel
  pub next_id : ℕ

-- A row of `user_channels` with its user loaded beside it.
pub record Identity : Type 0 where
  pub user_id : ℕ
  pub status : UserStatus
  pub channel : String
  pub external_id : String

pub find_channel : String → String → List UserChannel → Option UserChannel
find_channel channel external_id [] = none
find_channel channel external_id (c ∷ l) =
    if same_pair c.channel c.external_id channel external_id
    then some c
    else find_channel channel external_id l

pub status_of : ℕ → List User → Option UserStatus
status_of i [] = none
status_of i (u ∷ l) = if u.id == i then some u.status else status_of i l

abbrev identity : UserChannel → UserStatus → Identity
identity c status = record {
  user_id = c.user_id;
  status = status;
  channel = c.channel;
  external_id = c.external_id;
}

abbrev with_status : UserChannel → Option UserStatus → Option Identity
with_status c none = none
with_status c (some status) = some (identity c status)

abbrev with_user : List User → Option UserChannel → Option Identity
with_user users none = none
with_user users (some c) = with_status c (status_of c.user_id users)

-- `UserRepository.get_channel`, an inner join.
pub get_channel : String → String → Tables → Option Identity
get_channel channel external_id db =
    with_user db.users (find_channel channel external_id db.channels)

abbrev pub write_status : ℕ → UserStatus → User → User
write_status i status u = if u.id == i then record u { status = status } else u

-- The assignment to `identity.user.status`.
abbrev pub set_status : ℕ → UserStatus → Tables → Tables
set_status i status db = record db { users = map (write_status i status) db.users }

-- The nested transaction of `grant`: `none` is the `IntegrityError` of the unique constraint, which
-- undoes the new user too.
abbrev pub create_identity : String → String → Tables → Option Tables
create_identity channel external_id db =
    if is_some (find_channel channel external_id db.channels)
    then none
    else some (record {
      users = db.users ++ record { id = db.next_id; status = active } ∷ [];
      channels =
          db.channels
          ++ record { user_id = db.next_id; channel = channel; external_id = external_id } ∷ [];
      next_id = suc db.next_id;
    })

abbrev activate : Tables → Option Identity → Option (Identity × Tables)
activate db none = none
activate db (some i) = some (record i { status = active }, set_status i.user_id active db)

abbrev after_create : String → String → Tables → Option Tables → Option (Identity × Tables)
after_create channel external_id db none = activate db (get_channel channel external_id db)
after_create channel external_id db (some db') = some (
  record { user_id = db.next_id; status = active; channel = channel; external_id = external_id },
  db',
)

abbrev after_get : String → String → Tables → Option Identity → Option (Identity × Tables)
after_get channel external_id db none =
    after_create channel external_id db (create_identity channel external_id db)
after_get channel external_id db (some i) = activate db (some i)

-- `UserRepository.grant`. The first lookup reads the tables `seen`; another session may commit before
-- the insert, which meets `db`. `none` is an error raised again.
pub grant : String → String → Tables → Tables → Option (Identity × Tables)
unfolding get_channel
grant channel external_id seen db =
    after_get channel external_id db (get_channel channel external_id seen)

abbrev deactivate : Tables → Option Identity → Option (Identity × Tables)
deactivate db none = none
deactivate db (some i) = some (record i { status = inactive }, set_status i.user_id inactive db)

-- `UserRepository.revoke`
pub revoke : String → String → Tables → Option (Identity × Tables)
unfolding get_channel
revoke channel external_id db = deactivate db (get_channel channel external_id db)

-- `UsersController`: the identity is the `UserAccess` that is returned.
abbrev answered : ℕ → Tables → Option (Identity × Tables) → Http Identity × Tables
answered status db none = (http_error status, db)
answered status db (some (i, db')) = (ok i, db')

pub grant_access : String → String → Tables → Http Identity × Tables
unfolding grant
grant_access channel external_id db = answered 500 db (grant channel external_id db db)

pub revoke_access : String → String → Tables → Http Identity × Tables
unfolding revoke
revoke_access channel external_id db = answered 404 db (revoke channel external_id db)

abbrev resolved : Option Identity → Http Identity
resolved none = http_error 404
resolved (some i) = ok i

pub resolve : String → String → Tables → Http Identity
unfolding get_channel
resolve channel external_id db = resolved (get_channel channel external_id db)
