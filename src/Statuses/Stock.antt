-- ===== src/Statuses/Stock.antt =====
-- packages/contracts/src/enums.ts: movements of stock, reservations and transfers.
pub mod Laws
use distribuitor_app.Prelude.{ℕ, Bool, ℤ, pos, negsuc, List, [], ◌∷◌, any, ◌==◌, if◌then◌else◌}

pub data MovementType : Type 0 where
  opening receipt issue transfer_in transfer_out adjustment sales_return scrap : MovementType

abbrev pub movement_number : MovementType → ℕ
movement_number opening = 0
movement_number receipt = 1
movement_number issue = 2
movement_number transfer_in = 3
movement_number transfer_out = 4
movement_number adjustment = 5
movement_number sales_return = 6
movement_number scrap = 7

abbrev pub movement_includes : List MovementType → MovementType → Bool
movement_includes list m = any (λ n. movement_number n == movement_number m) list

unfoldable pub inbound_movements : List MovementType
inbound_movements = opening ∷ receipt ∷ transfer_in ∷ sales_return ∷ []

unfoldable pub outbound_movements : List MovementType
outbound_movements = issue ∷ transfer_out ∷ scrap ∷ []

-- 1, -1 or 0.
unfoldable pub sign_for_movement : MovementType → ℤ
unfolding inbound_movements outbound_movements
sign_for_movement type =
    if movement_includes inbound_movements type
    then pos 1
    else if movement_includes outbound_movements type
    then negsuc 0
    else pos 0

pub data ReservationStatus : Type 0 where
  active released consumed expired : ReservationStatus

abbrev pub reservation_number : ReservationStatus → ℕ
reservation_number active = 0
reservation_number released = 1
reservation_number consumed = 2
reservation_number expired = 3

unfoldable pub reservation_transitions : ReservationStatus → List ReservationStatus
reservation_transitions active = released ∷ consumed ∷ expired ∷ []
reservation_transitions released = []
reservation_transitions consumed = []
reservation_transitions expired = []

unfoldable pub can_transition_reservation : ReservationStatus → ReservationStatus → Bool
unfolding reservation_transitions
can_transition_reservation from to =
    any (λ t. reservation_number t == reservation_number to) (reservation_transitions from)

pub data TransferStatus : Type 0 where
  draft in_transit received cancelled : TransferStatus

abbrev pub transfer_number : TransferStatus → ℕ
transfer_number draft = 0
transfer_number in_transit = 1
transfer_number received = 2
transfer_number cancelled = 3

unfoldable pub transfer_transitions : TransferStatus → List TransferStatus
transfer_transitions draft = in_transit ∷ cancelled ∷ []
transfer_transitions in_transit = received ∷ []
transfer_transitions received = []
transfer_transitions cancelled = []

unfoldable pub can_transition_transfer : TransferStatus → TransferStatus → Bool
unfolding transfer_transitions
can_transition_transfer from to =
    any (λ t. transfer_number t == transfer_number to) (transfer_transitions from)
