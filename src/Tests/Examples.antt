-- ===== src/Tests/Examples.antt =====
-- Runs of the small example plugins.
use ts_plugins.Common.{◌+◌, ◌≡◌, refl, none, some, [], ◌∷◌, codes}
use ts_plugins.Common.Maps
use ts_plugins.Plugins.Calc.{add_numbers}
use ts_plugins.Plugins.Quote.{get_price}
use ts_plugins.Plugins.Http.{fetch_todo}

sum_of_two : add_numbers (λ m n. m + n) 2 3 ≡ 5
unfolding add_numbers
sum_of_two = refl

currency_of_price :
    ((get_price [] (codes "gold") (codes "1")).currency ≡ codes "USD")
    × ((get_price ((codes "currency", codes "EUR") ∷ []) (codes "gold") (codes "1")).currency
        ≡ codes "EUR")
    × ((get_price [] (codes "gold") (codes "1")).price ≡ codes "gold:1")
unfolding get_price Maps.get
currency_of_price = (refl, refl, refl)

todo_without_body :
    fetch_todo (λ url. some (record { status = 200; title = some url; body = none })) (codes "u")
    ≡ some (record { status = 200; title = codes "u"; body = [] })
unfolding fetch_todo
todo_without_body = refl
