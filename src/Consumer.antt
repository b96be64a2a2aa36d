-- ===== src/Consumer.antt =====
-- The consumer of events: template/services/backend/src/core/idempotent_consumer.py and its model
-- app/models/event_consumption.py beside it.

mod Once
mod Tests
use codegen_product_kit.Base.{
  ◌≡◌, String, Bool, true, false, ◌||◌, Option, none, some, List, [], ◌∷◌, if◌then◌else◌, same_pair,
}

pub record EventConsumption : Type 0 where
  pub consumer_group : String
  pub event_id : String

-- The database: the markers, and the tables that effects change, of a type `S` that is a parameter.
pub record Store (S : Type 0) : Type 0 where
  pub markers : List EventConsumption
  pub tables : S

pub is_consumed : String → String → List EventConsumption → Bool
is_consumed g e [] = false
is_consumed g e (m ∷ ms) = same_pair m.consumer_group m.event_id g e || is_consumed g e ms

module _ {S : Type 0} where
  abbrev applied : String → String → List EventConsumption → Option S → Option (Bool × Store S)
  applied g e ms none = none
  applied g e ms (some s) =
      some (true, record { markers = record { consumer_group = g; event_id = e } ∷ ms; tables = s })

  -- `consume_once`. The effect changes the tables or raises: `none`.
  pub consume_once : String → String → (S → Option S) → Store S → Option (Bool × Store S)
  unfolding is_consumed
  consume_once g e effect db =
      if is_consumed g e db.markers
      then some (false, db)
      else applied g e db.markers (effect db.tables)

  -- The caller's transaction. It is committed only if nothing raised and the caller, which goes on after
  -- `consume_once`, comes to its commit; else both the marker and the effect are rolled back.
  abbrev committed : Bool → Store S → Option (Bool × Store S) → Store S
  committed true db (some (ran, db')) = db'
  committed true db none = db
  committed false db result = db

  pub deliver : Bool → String → String → (S → Option S) → Store S → Store S
  unfolding consume_once
  deliver commits g e effect db = committed commits db (consume_once g e effect db)
