-- ===== src/Statuses/Tests.antt =====
-- Runs of the state machines and dates of invoices, and what the theorems say of them.
use distribuitor_app.Prelude.{◌≡◌, ◌↔◌, ◌≤◌, ◌<◌, refl, true, pos, ◌≤ℤ◌, List, [], ◌∷◌, any, some}
use distribuitor_app.Statuses.Orders.{
  OrderStatus, pending_approval, approved, processing, ShipmentStatus, packed, in_transit,
  can_transition_order, can_transition_shipment,
}
use distribuitor_app.Statuses.Orders.Traces.{
  order_run_approved, shipment_dispatched_once, is_approved, dispatches, IsOrderRun, IsShipmentRun,
}
use distribuitor_app.Statuses.Stock.{
  active, consumed, can_transition_reservation, TransferStatus, received, can_transition_transfer,
}
use distribuitor_app.Statuses.Stock.Laws.{IsReservationRun, IsTransferRun, transfer_run_received}
use distribuitor_app.Statuses.Invoices.{
  issued, is_overdue, outstanding_invoice_statuses, invoice_includes,
}
use distribuitor_app.Statuses.Invoices.Aging.{is_overdue_iff}

abbrev dispatched_order : List OrderStatus
dispatched_order = pending_approval ∷ approved ∷ processing ∷ OrderStatus.dispatched ∷ []

dispatched_order_run : IsOrderRun OrderStatus.draft dispatched_order
unfolding can_transition_order
dispatched_order_run = (refl, (refl, (refl, (refl, tt))))

order_run_approved_example : any is_approved dispatched_order ≡ true
order_run_approved_example = order_run_approved dispatched_order dispatched_order_run refl

abbrev returned_shipment : List ShipmentStatus
returned_shipment = packed ∷ ShipmentStatus.dispatched ∷ in_transit ∷ ShipmentStatus.returned ∷ []

returned_shipment_run : IsShipmentRun ShipmentStatus.pending returned_shipment
unfolding can_transition_shipment
returned_shipment_run = (refl, (refl, (refl, (refl, tt))))

shipment_dispatched_once_example : dispatches returned_shipment ≤ 1
shipment_dispatched_once_example =
    shipment_dispatched_once ShipmentStatus.pending returned_shipment returned_shipment_run

consumed_run : IsReservationRun active (consumed ∷ [])
unfolding can_transition_reservation
consumed_run = (refl, tt)

abbrev received_transfer : List TransferStatus
received_transfer = TransferStatus.in_transit ∷ received ∷ []

received_transfer_run : IsTransferRun TransferStatus.draft received_transfer
unfolding can_transition_transfer
received_transfer_run = (refl, (refl, tt))

transfer_run_received_example : received_transfer ≡ TransferStatus.in_transit ∷ received ∷ []
transfer_run_received_example = transfer_run_received received_transfer received_transfer_run refl

is_overdue_iff_example : (is_overdue (some 10) (pos 5_000) issued 11 ≡ true) ↔ (
    (invoice_includes outstanding_invoice_statuses issued ≡ true)
    × (pos 1 ≤ℤ pos 5_000)
    × (10 < 11))
is_overdue_iff_example = is_overdue_iff 10 11 (pos 5_000) issued
