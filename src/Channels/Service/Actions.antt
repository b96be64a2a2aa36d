-- ===== src/Channels/Service/Actions.antt =====
-- What the actions leave in the tables.
use codegen_product_kit.Base.{ℕ, ◌≡◌, refl, String, Option, none, some, ◌⊎◌, inl, inr}
use codegen_product_kit.Channels.Store.{Tables, Library, add, remove}
use codegen_product_kit.Channels.Store.Limit.{IsBounded, Kept, channels-IsBounded}
use codegen_product_kit.Channels.Service.{
  Action, answered, action_error, ok_channel, pending_channel, no_preview, not_found, not_a_channel,
  error_channel, Resolved, resolved, unresolved, username, stored, after_resolve, after_username,
  add_channel, removed_or_error, remove_channel,
}

-- An action keeps the bound, and an error other than "pending" keeps the tables.
abbrev pub Safe : Tables → Action × Tables → Type 0
Safe db (answered c, db') = IsBounded db'
Safe db (action_error e, db') = IsBounded db' × ((e ≡ "pending") ⊎ (db' ≡ db))

stored-answered :
    (db : Tables) (c : String) (o : Option Tables)
    → IsBounded db
    → Kept IsBounded o
    → Safe db (stored db (answered c) o)
stored-answered db c none b k = (b, inr refl)
stored-answered db c (some db') b k = k

stored-pending :
    (db : Tables) (o : Option Tables)
    → IsBounded db
    → Kept IsBounded o
    → Safe db (stored db (action_error "pending") o)
stored-pending db none b k = (b, inr refl)
stored-pending db (some db') b k = (k, inl refl)

after_resolve-Safe :
    (now : ℕ) (user_ref channel : String) (db : Tables) (r : Resolved)
    → IsBounded db
    → Safe db (after_resolve now user_ref channel db r)
after_resolve-Safe now u c db (unresolved e) b = (b, inr refl)
after_resolve-Safe now u c db (resolved ok_channel) b =
    stored-answered db c (add now u c db) b (channels-IsBounded now u c db b).0
after_resolve-Safe now u c db (resolved pending_channel) b =
    stored-pending db (add now u c db) b (channels-IsBounded now u c db b).0
after_resolve-Safe now u c db (resolved no_preview) b = (b, inr refl)
after_resolve-Safe now u c db (resolved not_found) b = (b, inr refl)
after_resolve-Safe now u c db (resolved not_a_channel) b = (b, inr refl)
after_resolve-Safe now u c db (resolved error_channel) b = (b, inr refl)

-- Whatever the platform answers, adding and removing a channel keep the channels of all users together
-- at 50 at most, and an answer that is an error other than "pending" leaves the tables as they were.
pub actions-Safe :
    (lib : Library) (lower : String → String) (client : Option (String → Resolved)) (now : ℕ)
    (user_ref text : String) (db : Tables)
    → IsBounded db
    → Safe db (add_channel lib lower client now user_ref text db)
      × Safe db (remove_channel lib lower now user_ref text db)
unfolding add_channel remove_channel
actions-Safe lib lower client now user_ref text db b =
    (by_name client (username lib lower text), by_removal (username lib lower text))
  where
    by_name :
        (c : Option (String → Resolved)) (o : Option String)
        → Safe db (after_username now user_ref c db o)
    by_name c none = (b, inr refl)
    by_name none (some n) = (b, inr refl)
    by_name (some f) (some n) = after_resolve-Safe now user_ref n db (f n) b

    by_removal : (o : Option String) → Safe db (removed_or_error now user_ref db o)
    by_removal none = (b, inr refl)
    by_removal (some n) =
        stored-answered db n (remove now user_ref n db) b (channels-IsBounded now user_ref n db b).1
