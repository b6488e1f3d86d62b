-- ===== src/Portfolio/EntrustRecord/Tests.antt =====
-- An order entrusted and then updated, beside another.
use account_services.Base.{◌≡◌, none, [], ◌∷◌, List, codes}
use account_services.Types.{OrderState}
use account_services.Request.{blank_request}
use account_services.Portfolio.EntrustRecord.{
  EntrustRecord, no_entrusts, from_order_request, find_entrust,
}
use account_services.Portfolio.EntrustRecord.Found.{add_all, latest, find_entrust-add_all}

abbrev sent : EntrustRecord
sent =
    from_order_request (codes "B7")
      (record blank_request { internal_order_id = 7; order_state = OrderState.trader_submitted })

abbrev done : EntrustRecord
done = record sent { status = OrderState.finished }

abbrev other : EntrustRecord
other = record sent { order_id = 8 }

abbrev records : List EntrustRecord
records = sent ∷ other ∷ done ∷ []

find_entrust-add_all_example : find_entrust 7 (add_all records no_entrusts) ≡ latest 7 none records
find_entrust-add_all_example = find_entrust-add_all records 7
