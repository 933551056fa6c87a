-- ===== src/Square/Entities.antt =====
-- The stored orders, tenders and payments of square/entities.py, as paying an order reads and
-- writes them.
use vendorfake.Prelude.{String, Option, List, [], ◌∷◌, map}
use vendorfake.Dict
use vendorfake.Dict.{Dict}
use vendorfake.Json.{ℤ, pos, Value, str}
use vendorfake.Json.Canonical.{compact}
use vendorfake.Integers.{◌+ℤ◌, ◌-ℤ◌}
use vendorfake.Store.State.{Entity}
use vendorfake.Square.Readers.{
  Money, money_or, money_to_entity, optional_money, tip_of, objects, money_from_entity, read_int,
  read_str, read_opt_str, read_mapping, read_details, read_pairs,
}

pub record OrderLineItem : Type 0 where
  pub uid : String
  pub quantity : String
  pub base_price_money : Money
  pub name : Option String
  pub note : Option String
  pub catalog_object_id : Option String
  pub variation_name : Option String

pub record Tender : Type 0 where
  pub id : String
  pub location_id : String
  pub transaction_id : String
  pub created_at : String
  pub amount_money : Money
  pub kind : String
  pub payment_id : String
  pub tip_money : Option Money

-- `Tender.applied`
unfoldable pub applied : Tender → ℤ
applied t = t.amount_money.amount -ℤ tip_of t.tip_money

-- `Tender.to_entity`; `kind` is the field `type`.
unfoldable pub tender_to_entity : Tender → Entity
unfolding compact
tender_to_entity t = compact (
    ("id", str t.id)
    ∷ ("location_id", str t.location_id)
    ∷ ("transaction_id", str t.transaction_id)
    ∷ ("created_at", str t.created_at)
    ∷ ("amount_money", money_to_entity t.amount_money)
    ∷ ("type", str t.kind)
    ∷ ("payment_id", str t.payment_id)
    ∷ ("tip_money", optional_money t.tip_money)
    ∷ [])

pub record Fulfillment : Type 0 where
  pub uid : String
  pub kind : String
  pub state : String
  pub line_item_application : String
  pub pickup_details : Option (Dict Value)
  pub delivery_details : Option (Dict Value)
  pub shipment_details : Option (Dict Value)
  pub supplied_stamps : Option (List (String × Value))

pub record OrderEntity : Type 0 where
  pub id : String
  pub location_id : String
  pub merchant_id : String
  pub currency : String
  pub state : String
  pub line_items : List OrderLineItem
  pub tenders : List Tender
  pub fulfillments : List Fulfillment
  pub reference_id : Option String
  pub customer_id : Option String
  pub source_name : Option String
  pub ticket_name : Option String
  pub closed_at : Option String
  pub metadata : Option (Dict String)
  pub version : ℤ
  pub created_at : String
  pub updated_at : String

pub record PaymentEntity : Type 0 where
  pub id : String
  pub location_id : String
  pub merchant_id : String
  pub amount_money : Money
  pub status : String
  pub source_type : String
  pub tip_money : Option Money
  pub order_id : Option String
  pub customer_id : Option String
  pub reference_id : Option String
  pub note : Option String
  pub external_type : Option String
  pub external_source : Option String
  pub external_source_id : Option String
  pub version : ℤ
  pub created_at : String
  pub updated_at : String

-- `PaymentEntity.total`
unfoldable pub total : PaymentEntity → ℤ
total p = p.amount_money.amount +ℤ tip_of p.tip_money

-- `text_of` is `str` of a value that is no text.
module _ (text_of : Value → String) where
  -- `OrderLineItem.from_entity`
  unfoldable pub line_from_entity : Dict Value → OrderLineItem
  unfolding read_str read_opt_str money_from_entity
  line_from_entity entity = record {
    uid = read_str text_of "" (Dict.get entity "uid");
    quantity = read_str text_of "1" (Dict.get entity "quantity");
    base_price_money = money_or (money_from_entity text_of (Dict.get entity "base_price_money"));
    name = read_opt_str text_of (Dict.get entity "name");
    note = read_opt_str text_of (Dict.get entity "note");
    catalog_object_id = read_opt_str text_of (Dict.get entity "catalog_object_id");
    variation_name = read_opt_str text_of (Dict.get entity "variation_name");
  }

  -- `Tender.from_entity`
  unfoldable pub tender_from_entity : Dict Value → Tender
  unfolding read_str money_from_entity
  tender_from_entity entity = record {
    id = read_str text_of "" (Dict.get entity "id");
    location_id = read_str text_of "" (Dict.get entity "location_id");
    transaction_id = read_str text_of "" (Dict.get entity "transaction_id");
    created_at = read_str text_of "" (Dict.get entity "created_at");
    amount_money = money_or (money_from_entity text_of (Dict.get entity "amount_money"));
    kind = read_str text_of "CARD" (Dict.get entity "type");
    payment_id = read_str text_of "" (Dict.get entity "payment_id");
    tip_money = money_from_entity text_of (Dict.get entity "tip_money");
  }

  -- `Fulfillment.from_entity`; `kind` is the field `type`.
  unfoldable pub fulfillment_from_entity : Dict Value → Fulfillment
  unfolding read_str read_details read_pairs
  fulfillment_from_entity entity = record {
    uid = read_str text_of "" (Dict.get entity "uid");
    kind = read_str text_of "PICKUP" (Dict.get entity "type");
    state = read_str text_of "PROPOSED" (Dict.get entity "state");
    line_item_application = read_str text_of "ALL" (Dict.get entity "line_item_application");
    pickup_details = read_details (Dict.get entity "pickup_details");
    delivery_details = read_details (Dict.get entity "delivery_details");
    shipment_details = read_details (Dict.get entity "shipment_details");
    supplied_stamps = read_pairs text_of (Dict.get entity "supplied_stamps");
  }

  -- `OrderEntity.from_entity`; an entity of a collection has an `id`.
  unfoldable pub order_from_entity : Entity → OrderEntity
  unfolding read_int read_str read_opt_str read_mapping objects line_from_entity tender_from_entity
      fulfillment_from_entity
  order_from_entity entity = record {
    id = read_str text_of "" (Dict.get entity "id");
    location_id = read_str text_of "" (Dict.get entity "location_id");
    merchant_id = read_str text_of "" (Dict.get entity "merchant_id");
    currency = read_str text_of "USD" (Dict.get entity "currency");
    state = read_str text_of "OPEN" (Dict.get entity "state");
    line_items = map line_from_entity (objects (Dict.get entity "line_items"));
    tenders = map tender_from_entity (objects (Dict.get entity "tenders"));
    fulfillments = map fulfillment_from_entity (objects (Dict.get entity "fulfillments"));
    reference_id = read_opt_str text_of (Dict.get entity "reference_id");
    customer_id = read_opt_str text_of (Dict.get entity "customer_id");
    source_name = read_opt_str text_of (Dict.get entity "source_name");
    ticket_name = read_opt_str text_of (Dict.get entity "ticket_name");
    closed_at = read_opt_str text_of (Dict.get entity "closed_at");
    metadata = read_mapping text_of (Dict.get entity "metadata");
    version = read_int (pos 1) (Dict.get entity "version");
    created_at = read_str text_of "" (Dict.get entity "created_at");
    updated_at = read_str text_of "" (Dict.get entity "updated_at");
  }

  -- `PaymentEntity.from_entity`
  unfoldable pub payment_from_entity : Entity → PaymentEntity
  unfolding read_int read_str read_opt_str money_from_entity
  payment_from_entity entity = record {
    id = read_str text_of "" (Dict.get entity "id");
    location_id = read_str text_of "" (Dict.get entity "location_id");
    merchant_id = read_str text_of "" (Dict.get entity "merchant_id");
    amount_money = money_or (money_from_entity text_of (Dict.get entity "amount_money"));
    status = read_str text_of "APPROVED" (Dict.get entity "status");
    source_type = read_str text_of "EXTERNAL" (Dict.get entity "source_type");
    tip_money = money_from_entity text_of (Dict.get entity "tip_money");
    order_id = read_opt_str text_of (Dict.get entity "order_id");
    customer_id = read_opt_str text_of (Dict.get entity "customer_id");
    reference_id = read_opt_str text_of (Dict.get entity "reference_id");
    note = read_opt_str text_of (Dict.get entity "note");
    external_type = read_opt_str text_of (Dict.get entity "external_type");
    external_source = read_opt_str text_of (Dict.get entity "external_source");
    external_source_id = read_opt_str text_of (Dict.get entity "external_source_id");
    version = read_int (pos 1) (Dict.get entity "version");
    created_at = read_str text_of "" (Dict.get entity "created_at");
    updated_at = read_str text_of "" (Dict.get entity "updated_at");
  }
