-- ===== src/Tests/Runs.antt =====
-- A run of requests on the small marketplace: an admin selects the supply of a request and confirms
-- it, the sweep expires what was not paid, and the buyer checks out her cart.
use laicos_backend.Prelude.{[], ◌∷◌, List}
use laicos_backend.Order.Stock.{IsStocked}
use laicos_backend.Cart.Methods.{CheckoutCall}
use laicos_backend.SourcingRequest.Methods.{SourcingCall}
use laicos_backend.SourcingRequest.Live.{OneLive}
use laicos_backend.System.Run.{Request, Event, run, run_keeps}
use laicos_backend.Tests.Shop.{shopper}
use laicos_backend.Tests.Carts.{config, dto}
use laicos_backend.Tests.Sourcings.{supply, print, supply-OneLive, supply-IsStocked}

abbrev events : List Event
events =
    record {
      now = 300;
      today = 100;
      request =
          Request.at_sourcing (SourcingCall.save 81 (record { produce_id = 1; quantity = 4 } ∷ []));
    }
    ∷ record {
      now = 400;
      today = 100;
      request = Request.at_sourcing (SourcingCall.confirm 81 "third" dto);
    }
    ∷ record {
      now = 900000;
      today = 100;
      request = Request.at_checkout CheckoutCall.expire_overdue;
    }
    ∷ record {
      now = 900100;
      today = 100;
      request = Request.at_checkout (CheckoutCall.checkout shopper "fourth" dto);
    }
    ∷ []

run_keeps_example :
    IsStocked [] (run print config events supply) × OneLive (run print config events supply)
run_keeps_example = run_keeps print config events supply supply-IsStocked supply-OneLive
