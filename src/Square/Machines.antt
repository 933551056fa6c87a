-- ===== src/Square/Machines.antt =====
-- The lifecycles of square/machine.py.
use vendorfake.Prelude.{true, false, [], ◌∷◌}
use vendorfake.Machine.Defs.{MachineDef}

-- `ORDER_MACHINE`
abbrev pub order_machine : MachineDef
order_machine = record {
  field = "state";
  initial = "OPEN";
  states =
      (
        "DRAFT",
        record {
          summary = "Not yet payable or fulfillable.";
          to = "OPEN" ∷ "CANCELED" ∷ [];
          allow_self = true;
        },
      )
      ∷ (
        "OPEN",
        record {
          summary = "Updatable and payable.";
          to = "COMPLETED" ∷ "CANCELED" ∷ [];
          allow_self = true;
        },
      )
      ∷ ("COMPLETED", record { summary = "Fully paid. Terminal."; to = []; allow_self = false })
      ∷ ("CANCELED", record { summary = "Not paid. Terminal."; to = []; allow_self = false })
      ∷ [];
}

-- `FULFILLMENT_MACHINE`
abbrev pub fulfillment_machine : MachineDef
fulfillment_machine = record {
  field = "state";
  initial = "PROPOSED";
  states =
      (
        "PROPOSED",
        record {
          summary = "Proposed by the buyer; not yet accepted by the seller.";
          to = "RESERVED" ∷ "PREPARED" ∷ "COMPLETED" ∷ "CANCELED" ∷ "FAILED" ∷ [];
          allow_self = true;
        },
      )
      ∷ (
        "RESERVED",
        record {
          summary = "Accepted by the seller; being prepared.";
          to = "PREPARED" ∷ "COMPLETED" ∷ "CANCELED" ∷ "FAILED" ∷ [];
          allow_self = true;
        },
      )
      ∷ (
        "PREPARED",
        record {
          summary = "Ready for the buyer, the courier or the carrier.";
          to = "COMPLETED" ∷ "CANCELED" ∷ "FAILED" ∷ [];
          allow_self = true;
        },
      )
      ∷ (
        "COMPLETED",
        record {
          summary = "Picked up, delivered or shipped. Terminal.";
          to = [];
          allow_self = false;
        },
      )
      ∷ ("CANCELED", record { summary = "Canceled. Terminal."; to = []; allow_self = false })
      ∷ (
        "FAILED",
        record { summary = "Could not be completed. Terminal."; to = []; allow_self = false },
      )
      ∷ [];
}

-- `PAYMENT_MACHINE`
abbrev pub payment_machine : MachineDef
payment_machine = record {
  field = "status";
  initial = "APPROVED";
  states =
      (
        "APPROVED",
        record {
          summary = "Authorised and held; capture with CompletePayment or void with CancelPayment.";
          to = "COMPLETED" ∷ "CANCELED" ∷ [];
          allow_self = false;
        },
      )
      ∷ ("COMPLETED", record { summary = "Captured. Terminal."; to = []; allow_self = false })
      ∷ (
        "CANCELED",
        record { summary = "Voided before capture. Terminal."; to = []; allow_self = false },
      )
      ∷ (
        "FAILED",
        record {
          summary = "Could not be taken. Terminal, and never entered here.";
          to = [];
          allow_self = false;
        },
      )
      ∷ [];
}
