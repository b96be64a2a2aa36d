-- ===== src/Users/Access.antt =====
-- Granting and revoking.
use codegen_product_kit.Base.{
  ℕ, suc, ◌<◌, ◌≡◌, refl, String, true, none, some, List, [], ◌∷◌, ◌++◌, map, if◌then◌else◌, ◌==◌,
  same_pair, same_pair_iff, is_some, ok, http_error, arith, All, All-map, All-append, All-of_map,
  Option-cases, inl, inr, ap₂,
}
use codegen_product_kit.Users.{
  UserStatus, active, inactive, User, UserChannel, Tables, Identity, find_channel, status_of,
  get_channel, write_status, set_status, grant, revoke_access,
}

-- Every channel identity is of one user that is there, stands once, and ids below `next_id` are given.
abbrev pub ChannelsUnique : List UserChannel → Type 0
ChannelsUnique [] = Unit
ChannelsUnique (c ∷ l) = (find_channel c.channel c.external_id l ≡ none) × ChannelsUnique l

pub record IsConsistent (db : Tables) : Type 0 where
  pub unique : ChannelsUnique db.channels
  pub owned : All (λ c. is_some (status_of c.user_id db.users) ≡ true) db.channels
  pub below : All (λ u. u.id < db.next_id) db.users

pub status_of-write :
    (i j : ℕ) (s : UserStatus) (us : List User)
    → status_of j (map (write_status i s) us)
      ≡ elim (status_of j us) [ none ↦ none | some t ↦ some (if i == j then s else t) ]
unfolding status_of
status_of-write i j s [] = refl
status_of-write i j s (u ∷ us) = ground (arith, status_of-write i j s us)

status_of-append :
    (j : ℕ) (us : List User) (u : User)
    → status_of j (us ++ u ∷ [])
      ≡ elim (status_of j us) [ some t ↦ some t | none ↦ if u.id == j then some u.status else none ]
unfolding status_of
status_of-append j [] u = ground arith
status_of-append j (v ∷ us) u = ground (arith, status_of-append j us u)

status_of-fresh : (n : ℕ) (us : List User) → All (λ u. u.id < n) us → status_of n us ≡ none
unfolding status_of
status_of-fresh n [] h = refl
status_of-fresh n (u ∷ us) h = ground (arith, status_of-fresh n us h.1)

find_channel-append :
    (c e : String) (l : List UserChannel) (x : UserChannel)
    → find_channel c e (l ++ x ∷ []) ≡ elim (find_channel c e l) [
      | some y ↦ some y
      | none ↦ if same_pair x.channel x.external_id c e then some x else none
    ]
unfolding find_channel
find_channel-append c e [] x = ground arith
find_channel-append c e (y ∷ l) x = ground (arith, find_channel-append c e l x)

pub find_channel-names :
    (c e : String) (l : List UserChannel) {x : UserChannel}
    → find_channel c e l ≡ some x
    → (x.channel ≡ c) × (x.external_id ≡ e)
unfolding find_channel
find_channel-names c e [] h = cc
find_channel-names c e (y ∷ l) {x} h =
    ground (arith, find_channel-names c e l {x = x}, same_pair_iff y.channel y.external_id c e)

append-ChannelsUnique :
    (l : List UserChannel) (x : UserChannel)
    → find_channel x.channel x.external_id l ≡ none
    → ChannelsUnique l
    → ChannelsUnique (l ++ x ∷ [])
unfolding find_channel
append-ChannelsUnique [] x n u = (refl, tt)
append-ChannelsUnique (y ∷ l) x n u = ground (
  arith,
  append-ChannelsUnique l x,
  find_channel-append y.channel y.external_id l x,
  same_pair_iff x.channel x.external_id y.channel y.external_id,
  same_pair_iff y.channel y.external_id x.channel x.external_id,
)

owned_of_find :
    (c e : String) (us : List User) (l : List UserChannel) {x : UserChannel}
    → All (λ y. is_some (status_of y.user_id us) ≡ true) l
    → find_channel c e l ≡ some x
    → is_some (status_of x.user_id us) ≡ true
unfolding find_channel
owned_of_find c e us [] h f = cc
owned_of_find c e us (y ∷ l) {x} h f = ground (arith, owned_of_find c e us l {x = x} h.1)

set_status-IsConsistent :
    (i : ℕ) (s : UserStatus) (db : Tables) → IsConsistent db → IsConsistent (set_status i s db)
set_status-IsConsistent i s db k = record {
  unique = k.unique;
  owned =
      All-map _ _ (λ c h. ground (arith, status_of-write i c.user_id s db.users)) db.channels
        k.owned;
  below =
      All-of_map _ (write_status i s) db.users (All-map _ _ (λ u h. ground arith) db.users k.below);
}

write_twice :
    (i : ℕ) (s : UserStatus) (us : List User)
    → map (write_status i s) (map (write_status i s) us) ≡ map (write_status i s) us
write_twice i s [] = refl
write_twice i s (u ∷ us) = ap₂ ◌∷◌ (ground arith) (write_twice i s us)

write_others :
    (i : ℕ) (s : UserStatus) (us : List User)
    → All (λ u. u.id < i) us
    → map (write_status i s) us ≡ us
write_others i s [] h = refl
write_others i s (u ∷ us) h = ap₂ ◌∷◌ (ground arith) (write_others i s us h.1)

-- An identity that is not found has no row.
find_channel-none :
    (c e : String) (db : Tables)
    → IsConsistent db
    → get_channel c e db ≡ none
    → find_channel c e db.channels ≡ none
unfolding get_channel
find_channel-none c e db k h = elim (Option-cases (find_channel c e db.channels)) [
  | inl f ↦ f
  | inr (x, f) ↦ ground (arith, owned_of_find c e db.users db.channels {x = x} k.owned f)
]

pub get_channel-names :
    (c e : String) (db : Tables) {i : Identity}
    → get_channel c e db ≡ some i
    → (i.channel ≡ c) × (i.external_id ≡ e)
unfolding get_channel
get_channel-names c e db {i} h = elim (Option-cases (find_channel c e db.channels)) [
  | inl f ↦ ground arith
  | inr (x, f) ↦ ground (arith, find_channel-names c e db.channels {x = x} f)
]

pub get_channel-set_status :
    (c e : String) (s : UserStatus) (db : Tables) {i : Identity}
    → get_channel c e db ≡ some i
    → get_channel c e (set_status i.user_id s db) ≡ some (record i { status = s })
unfolding get_channel
get_channel-set_status c e s db {i} h = elim (Option-cases (find_channel c e db.channels)) [
  | inl f ↦ ground arith
  | inr (x, f) ↦ ground (arith, status_of-write i.user_id x.user_id s db.users)
]

get_channel-write :
    (c e : String) (u : ℕ) (s : UserStatus) (db : Tables) {j : Identity}
    → get_channel c e db ≡ some j
    → get_channel c e (set_status u s db)
      ≡ some (record j { status = if u == j.user_id then s else j.status })
unfolding get_channel
get_channel-write c e u s db {j} h = elim (Option-cases (find_channel c e db.channels)) [
  | inl f ↦ ground arith
  | inr (x, f) ↦ ground (arith, status_of-write u x.user_id s db.users)
]

-- The identity and the tables that a grant leaves behind: the identity is found, active; the tables are
-- consistent; and a second grant returns the same and changes nothing.
abbrev Granted : String → String → Tables → Identity → Tables → Type 0
Granted c e db i db' =
    (grant c e db db ≡ some (i, db'))
    × (get_channel c e db' ≡ some i)
    × (i.status ≡ active)
    × IsConsistent db'
    × (grant c e db' db' ≡ some (i, db'))

grant_known :
    (c e : String) (db : Tables) (i : Identity)
    → IsConsistent db
    → get_channel c e db ≡ some i
    → Granted c e db (record i { status = active }) (set_status i.user_id active db)
unfolding grant
grant_known c e db i k h =
    let found = get_channel-set_status c e active db {i = i} h in
    (
      rw h refl,
      found,
      refl,
      set_status-IsConsistent i.user_id active db k,
      rw found (λ j. some (
        record i { status = active },
        record db { users = write_twice i.user_id active db.users j },
      )),
    )

abbrev newcomer : String → String → Tables → Tables
newcomer c e db = record {
  users = db.users ++ record { id = db.next_id; status = active } ∷ [];
  channels = db.channels ++ record { user_id = db.next_id; channel = c; external_id = e } ∷ [];
  next_id = suc db.next_id;
}

newcomer-IsConsistent :
    (c e : String) (db : Tables)
    → IsConsistent db
    → find_channel c e db.channels ≡ none
    → IsConsistent (newcomer c e db)
newcomer-IsConsistent c e db k n =
    let u : User = record { id = db.next_id; status = active } in
    record {
      unique =
          append-ChannelsUnique db.channels
            (record { user_id = db.next_id; channel = c; external_id = e }) n k.unique;
      owned =
          All-append _ db.channels _
            (All-map _ _ (λ x h. ground (arith, status_of-append x.user_id db.users u)) db.channels
              k.owned)
            (
              ground (
                arith,
                status_of-append db.next_id db.users u,
                status_of-fresh db.next_id db.users k.below,
              ),
              tt,
            );
      below =
          All-append _ db.users _ (All-map _ _ (λ x h. omega arith) db.users k.below)
            (omega arith, tt);
    }

write_new :
    (i : ℕ) (us : List User)
    → All (λ u. u.id < i) us
    → let us' = us ++ record { id = i; status = active } ∷ [] in
      map (write_status i active) us' ≡ us'
write_new i [] h = ap₂ ◌∷◌ (ground arith) refl
write_new i (u ∷ us) h = ap₂ ◌∷◌ (ground arith) (write_new i us h.1)

get_channel-newcomer :
    (c e : String) (db : Tables)
    → IsConsistent db
    → find_channel c e db.channels ≡ none
    → get_channel c e (newcomer c e db)
      ≡ some (record { user_id = db.next_id; status = active; channel = c; external_id = e })
unfolding get_channel
get_channel-newcomer c e db k n = ground (
  arith,
  find_channel-append c e db.channels
      (record { user_id = db.next_id; channel = c; external_id = e }),
  same_pair_iff c e c e,
  status_of-append db.next_id db.users (record { id = db.next_id; status = active }),
  status_of-fresh db.next_id db.users k.below,
)

grant_new :
    (c e : String) (db : Tables)
    → IsConsistent db
    → get_channel c e db ≡ none
    → Granted c e db
        (record { user_id = db.next_id; status = active; channel = c; external_id = e })
        (newcomer c e db)
unfolding grant
grant_new c e db k h =
    let n = find_channel-none c e db k h in
    let found = get_channel-newcomer c e db k n in
    (
      rw (h, n) refl,
      found,
      refl,
      newcomer-IsConsistent c e db k n,
      rw found (λ j. some (
        record { user_id = db.next_id; status = active; channel = c; external_id = e },
        record (newcomer c e db) { users = write_new db.next_id db.users k.below j },
      )),
    )

-- On consistent tables a grant succeeds and leaves the identity found and active and the tables
-- consistent; to grant it again returns the same identity and changes nothing.
pub grant_lem :
    (c e : String) (db : Tables)
    → IsConsistent db
    → (i : Identity) × (db' : Tables) × (grant c e db db ≡ some (i, db'))
      × (get_channel c e db' ≡ some i)
      × (i.status ≡ active)
      × IsConsistent db'
      × (grant c e db' db' ≡ some (i, db'))
grant_lem c e db k = elim (Option-cases (get_channel c e db)) [
  | inl h ↦ let (a, b, s, d, f) = grant_new c e db k h in (_, newcomer c e db, a, b, s, d, f)
  | inr (i, h) ↦
      let (a, b, s, d, f) = grant_known c e db i k h in
      (record i { status = active }, set_status i.user_id active db, a, b, s, d, f)
]

-- Revoking an identity that is not there answers nothing, creates nothing and changes nothing; one
-- that is there is found inactive afterwards, and so is every other identity of its user, while an
-- identity of another user stays as it was, and the tables stay consistent.
pub revoke_lem :
    (c e : String) (db : Tables)
    → IsConsistent db
    → (get_channel c e db ≡ none → revoke_access c e db ≡ (http_error 404, db))
      × ((i : Identity)
          → get_channel c e db ≡ some i
          → (c' e' : String) (j : Identity) → get_channel c' e' db ≡ some j
          → let (reply, db') = revoke_access c e db in
            (reply ≡ ok (record i { status = inactive }))
            × (get_channel c e db' ≡ some (record i { status = inactive }))
            × (get_channel c' e' db'
                ≡ some
                    (record j { status = if i.user_id == j.user_id then inactive else j.status }))
            × IsConsistent db')
unfolding revoke_access
revoke_lem c e db k = (
  λ h. rw h refl,
  λ i h c' e' j h'. rw h (
    refl,
    get_channel-set_status c e inactive db {i = i} h,
    get_channel-write c' e' i.user_id inactive db {j = j} h',
    set_status-IsConsistent i.user_id inactive db k,
  ),
)

listed :
    (c e : String) (db : Tables) {i : Identity}
    → get_channel c e db ≡ some i
    → is_some (find_channel c e db.channels) ≡ true
unfolding get_channel
listed c e db h = ground arith

-- A grant that looked before another session committed, and found nothing, ends as one that looked
-- afterwards.
pub grant_race :
    (c e : String) (seen db : Tables)
    → IsConsistent db
    → get_channel c e seen ≡ none
    → grant c e seen db ≡ grant c e db db
unfolding grant
grant_race c e seen db k h = elim (Option-cases (get_channel c e db)) [
  | inl n ↦ rw (h, n) refl
  | inr (i, f) ↦ rw (h, f, listed c e db {i = i} f) (rw f refl)
]
