-- ===== src/Statuses/Orders/Traces.antt =====
-- Runs of the state machines: each status follows the one before by the transition table.
use distribuitor_app.Prelude.{
  ℕ, ◌+◌, ◌≤◌, ◌≡◌, refl, Bool, true, false, List, [], ◌∷◌, any, if◌then◌else◌, arith,
}
use distribuitor_app.Statuses.Orders.{
  OrderStatus, can_transition_order, ShipmentStatus, can_transition_shipment,
}

abbrev pub IsOrderRun : OrderStatus → List OrderStatus → Type 0
IsOrderRun s [] = Unit
IsOrderRun s (t ∷ rest) = (can_transition_order s t ≡ true) × IsOrderRun t rest

-- The statuses in which goods are being prepared or have left.
abbrev pub is_moving : OrderStatus → Bool
is_moving OrderStatus.processing = true
is_moving OrderStatus.partially_dispatched = true
is_moving OrderStatus.dispatched = true
is_moving OrderStatus.delivered = true
is_moving OrderStatus.completed = true
is_moving _ = false

abbrev pub is_approved : OrderStatus → Bool
is_approved OrderStatus.approved = true
is_approved _ = false

unapproved_step :
    (s t : OrderStatus)
    → can_transition_order s t ≡ true
    → is_moving s ≡ false
    → is_approved s ≡ false
    → is_moving t ≡ false
unfolding can_transition_order
unapproved_step s t = ground arith

run_approved :
    (s : OrderStatus) (run : List OrderStatus)
    → is_moving s ≡ false
    → is_approved s ≡ false
    → IsOrderRun s run
    → any is_moving run ≡ true
    → any is_approved run ≡ true
run_approved s [] m a r e = e
run_approved s (t ∷ rest) m a r e = ground (arith, unapproved_step s t, run_approved t rest)

-- An order that starts as a draft is approved before it is processed or dispatched: a run whose
-- statuses include one where goods move also includes APPROVED.
pub order_run_approved :
    (run : List OrderStatus)
    → IsOrderRun OrderStatus.draft run
    → any is_moving run ≡ true
    → any is_approved run ≡ true
order_run_approved run = run_approved OrderStatus.draft run refl refl

abbrev pub IsShipmentRun : ShipmentStatus → List ShipmentStatus → Type 0
IsShipmentRun s [] = Unit
IsShipmentRun s (t ∷ rest) = (can_transition_shipment s t ≡ true) × IsShipmentRun t rest

abbrev pub is_dispatched : ShipmentStatus → Bool
is_dispatched ShipmentStatus.dispatched = true
is_dispatched _ = false

-- How often a run enters DISPATCHED.
abbrev pub dispatches : List ShipmentStatus → ℕ
dispatches [] = 0
dispatches (t ∷ rest) = (if is_dispatched t then 1 else 0) + dispatches rest

-- What a shipment may still do: nothing is dispatched once it has left the building.
abbrev allowance : ShipmentStatus → ℕ
allowance ShipmentStatus.pending = 1
allowance ShipmentStatus.packed = 1
allowance _ = 0

shipment_step :
    (s t : ShipmentStatus)
    → can_transition_shipment s t ≡ true
    → (if is_dispatched t then 1 else 0) + allowance t ≤ allowance s
unfolding can_transition_shipment
shipment_step s t = ground arith

dispatches-le :
    (s : ShipmentStatus) (run : List ShipmentStatus)
    → IsShipmentRun s run
    → dispatches run ≤ allowance s
dispatches-le s [] r = omega arith
dispatches-le s (t ∷ rest) r = omega (arith, shipment_step s t r.0, dispatches-le t rest r.1)

-- Stock leaves the building at most once: no run of a shipment, from any status, enters DISPATCHED
-- twice.
pub shipment_dispatched_once :
    (s : ShipmentStatus) (run : List ShipmentStatus) → IsShipmentRun s run → dispatches run ≤ 1
shipment_dispatched_once s run r = omega (arith, dispatches-le s run r, allowance-le s)
  where
    allowance-le : (u : ShipmentStatus) → allowance u ≤ 1
    allowance-le ShipmentStatus.pending = omega arith
    allowance-le _ = omega arith
