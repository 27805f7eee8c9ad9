-- ===== src/Relay/Tests.antt =====
-- A run of the relay, and its theorem at concrete input.
use hula.Common.{ℕ, ◌≡◌, negsuc, some, List, [], ◌∷◌}
use hula.Relay.{Side, side_a, side_b, StreamRelay}
use hula.Relay.Steady.{IsSteady}
use hula.Relay.Events.{
  Event, data_came, drained, should_stop, end_came, waited, relay, relay-IsSteady,
}

-- A write that is to wait, the other side drained, both ends.
abbrev session : List (Side × Event (List ℕ))
session =
    (side_a, data_came (65 ∷ []) (negsuc 0) 7)
    ∷ (side_b, drained 8)
    ∷ (side_a, should_stop 9)
    ∷ (side_a, end_came)
    ∷ (side_b, end_came)
    ∷ (side_b, waited 9)
    ∷ []

relay-IsSteady_example : (r : StreamRelay (List ℕ)) × (relay 1 2 3 4 session ≡ some r) × IsSteady r
relay-IsSteady_example = relay-IsSteady 1 2 3 4 session
