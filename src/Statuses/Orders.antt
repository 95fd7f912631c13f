-- ===== src/Statuses/Orders.antt =====
-- packages/contracts/src/enums.ts: the state machines of orders, quotations and shipments.
pub mod Traces
use distribuitor_app.Prelude.{ℕ, Bool, List, [], ◌∷◌, any, ◌==◌}

pub data OrderStatus : Type 0 where
  draft pending_approval approved processing partially_dispatched dispatched : OrderStatus
  delivered completed cancelled rejected : OrderStatus

abbrev pub order_number : OrderStatus → ℕ
order_number draft = 0
order_number pending_approval = 1
order_number approved = 2
order_number processing = 3
order_number partially_dispatched = 4
order_number dispatched = 5
order_number delivered = 6
order_number completed = 7
order_number cancelled = 8
order_number rejected = 9

abbrev pub order_includes : List OrderStatus → OrderStatus → Bool
order_includes list s = any (λ t. order_number t == order_number s) list

unfoldable pub order_transitions : OrderStatus → List OrderStatus
order_transitions draft = pending_approval ∷ cancelled ∷ []
order_transitions pending_approval = approved ∷ rejected ∷ draft ∷ cancelled ∷ []
order_transitions approved = processing ∷ cancelled ∷ []
order_transitions processing = partially_dispatched ∷ dispatched ∷ cancelled ∷ []
order_transitions partially_dispatched = dispatched ∷ cancelled ∷ []
order_transitions dispatched = delivered ∷ []
order_transitions delivered = completed ∷ []
order_transitions completed = []
order_transitions cancelled = []
order_transitions rejected = draft ∷ []

unfoldable pub can_transition_order : OrderStatus → OrderStatus → Bool
unfolding order_transitions
can_transition_order from to = order_includes (order_transitions from) to

pub data QuotationStatus : Type 0 where
  draft sent accepted rejected expired converted : QuotationStatus

abbrev pub quotation_number : QuotationStatus → ℕ
quotation_number QuotationStatus.draft = 0
quotation_number sent = 1
quotation_number accepted = 2
quotation_number QuotationStatus.rejected = 3
quotation_number expired = 4
quotation_number converted = 5

abbrev pub quotation_includes : List QuotationStatus → QuotationStatus → Bool
quotation_includes list s = any (λ t. quotation_number t == quotation_number s) list

unfoldable pub quotation_transitions : QuotationStatus → List QuotationStatus
quotation_transitions QuotationStatus.draft = sent ∷ QuotationStatus.rejected ∷ []
quotation_transitions sent = accepted ∷ QuotationStatus.rejected ∷ expired ∷ sent ∷ []
quotation_transitions accepted = converted ∷ QuotationStatus.rejected ∷ []
quotation_transitions QuotationStatus.rejected = QuotationStatus.draft ∷ []
quotation_transitions expired = QuotationStatus.draft ∷ []
quotation_transitions converted = []

unfoldable pub can_transition_quotation : QuotationStatus → QuotationStatus → Bool
unfolding quotation_transitions
can_transition_quotation from to = quotation_includes (quotation_transitions from) to

-- `CONVERTIBLE_QUOTATION_STATUSES`.
unfoldable pub convertible_quotation_statuses : List QuotationStatus
convertible_quotation_statuses = accepted ∷ []

pub data ShipmentStatus : Type 0 where
  pending packed dispatched in_transit delivered returned : ShipmentStatus

abbrev pub shipment_number : ShipmentStatus → ℕ
shipment_number pending = 0
shipment_number packed = 1
shipment_number ShipmentStatus.dispatched = 2
shipment_number in_transit = 3
shipment_number ShipmentStatus.delivered = 4
shipment_number returned = 5

abbrev pub shipment_includes : List ShipmentStatus → ShipmentStatus → Bool
shipment_includes list s = any (λ t. shipment_number t == shipment_number s) list

unfoldable pub shipment_transitions : ShipmentStatus → List ShipmentStatus
shipment_transitions pending = packed ∷ returned ∷ []
shipment_transitions packed = ShipmentStatus.dispatched ∷ pending ∷ []
shipment_transitions ShipmentStatus.dispatched =
    in_transit ∷ ShipmentStatus.delivered ∷ returned ∷ []
shipment_transitions in_transit = ShipmentStatus.delivered ∷ returned ∷ []
shipment_transitions ShipmentStatus.delivered = returned ∷ []
shipment_transitions returned = []

unfoldable pub can_transition_shipment : ShipmentStatus → ShipmentStatus → Bool
unfolding shipment_transitions
can_transition_shipment from to = shipment_includes (shipment_transitions from) to

-- `STOCK_COMMITTED_ORDER_STATUSES` and `CANCELLABLE_ORDER_STATUSES`.
unfoldable pub stock_committed_order_statuses : List OrderStatus
stock_committed_order_statuses = approved ∷ processing ∷ partially_dispatched ∷ []

unfoldable pub cancellable_order_statuses : List OrderStatus
cancellable_order_statuses = OrderStatus.draft ∷ pending_approval ∷ approved ∷ processing ∷ []
