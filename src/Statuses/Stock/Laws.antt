-- ===== src/Statuses/Stock/Laws.antt =====
-- Signs of movements, and runs of reservations and transfers.
use distribuitor_app.Prelude.{
  ◌≤◌, ◌≡◌, ◌≢◌, ◌↔◌, Bool, true, false, List, [], ◌∷◌, any, length, arith,
}
use distribuitor_app.Statuses.Stock.{
  ReservationStatus, active, can_transition_reservation, TransferStatus, draft, in_transit,
  received, can_transition_transfer,
}

abbrev pub IsReservationRun : ReservationStatus → List ReservationStatus → Type 0
IsReservationRun s [] = Unit
IsReservationRun s (t ∷ rest) = (can_transition_reservation s t ≡ true) × IsReservationRun t rest

-- A reservation changes status exactly when it leaves ACTIVE.
can_transition_reservation_iff :
    (s t : ReservationStatus)
    → (can_transition_reservation s t ≡ true) ↔ ((s ≡ active) × (t ≢ active))
unfolding can_transition_reservation
can_transition_reservation_iff s t = (ground arith, ground arith)

-- A reservation leaves ACTIVE at most once, and then never changes: a run of transitions from any
-- status has at most one step, and no step goes to ACTIVE.
pub reservation_run_short :
    (s : ReservationStatus) (run : List ReservationStatus)
    → IsReservationRun s run
    → (length run ≤ 1) × (run ≢ active ∷ [])
unfolding can_transition_reservation
reservation_run_short s [] r = (omega arith, ground arith)
reservation_run_short s (t ∷ []) r = (omega arith, ground arith)
reservation_run_short s (t ∷ u ∷ rest) r = absurd (ground arith)

abbrev pub IsTransferRun : TransferStatus → List TransferStatus → Type 0
IsTransferRun s [] = Unit
IsTransferRun s (t ∷ rest) = (can_transition_transfer s t ≡ true) × IsTransferRun t rest

abbrev pub is_received : TransferStatus → Bool
is_received received = true
is_received _ = false

-- A transfer is received only after it was dispatched, and then rests: a run from DRAFT that includes
-- RECEIVED is IN_TRANSIT and then RECEIVED.
pub transfer_run_received :
    (run : List TransferStatus)
    → IsTransferRun draft run
    → any is_received run ≡ true
    → run ≡ in_transit ∷ received ∷ []
unfolding can_transition_transfer
transfer_run_received [] r e = cc
transfer_run_received (t ∷ []) r e = absurd (ground arith)
transfer_run_received (t ∷ u ∷ []) r e = ground arith
transfer_run_received (t ∷ u ∷ v ∷ rest) r e = absurd (ground arith)
