-- ===== src/Net/Factory/Examples.antt =====
-- The theorem on src/net/factory.cpp at a concrete state.
use box_utils.Common.{◌≡◌, none, [], arith}
use box_utils.Net.Factory.{EasyFactory, move_package, create}
use box_utils.Net.Factory.Moved.{create-move_package}
use box_utils.Net.Toy.{toy, toy_target, start}

abbrev factory : EasyFactory
factory = record { factory_headers = []; template = 100 }

create-move_package_example :
    let (pak, w') = create toy 200 300 400 none factory start in
    let (moved, left) = move_package toy 500 pak in
    (moved.easy_at ≡ 200)
    × (left.easy_at ≡ 0)
    × (moved.resp_headers ≡ 500)
    × (toy_target.target_of w'.libcurl (w'.handle_of moved.easy_at) ≡ 400)
create-move_package_example =
    create-move_package toy toy_target 200 300 400 500 none factory start (omega arith)
