-- ===== src/Hoist/Tests.antt =====
-- Runs of hoist.rs on the inputs of its own tests, and the theorems at concrete inputs.
use bpm.Prelude.{◌≡◌, refl, false, some, List, [], ◌∷◌, All, ◌++◌}
use bpm.Prelude.Text.{Text, txt, text_eq, starts_with}
use bpm.Prelude.Map
use bpm.Prelude.Map.{text_lt}
use bpm.Hoist.{Placer, before_last, parent_package, ancestors, chain_of, slot, scan, claim, place}
use bpm.Hoist.Chain.{chain_above, chain_of_step}
use bpm.Hoist.Slots.{resolve, place_resolves}
use bpm.Hoist.Order.{Request, Resolves, perform, interferes, IsSettledOrder, run, run-Resolves}

abbrev fresh : Placer
fresh = record { occupied = [] }

abbrev b_path : Text
b_path = txt "node_modules/b"

abbrev c_path : Text
c_path = txt "node_modules/b/node_modules/c"

abbrev request : Text → Text → Text → Request
request name version dependent = record { name = name; version = version; dependent = dependent }

-- the calls of `places_root_nests_conflicts_and_shares`
abbrev settled : List Request
settled =
    request (txt "a") (txt "1.0.0") []
    ∷ request (txt "a") (txt "1.0.0") b_path
    ∷ request (txt "a") (txt "2.0.0") c_path
    ∷ []

nested :
    (place (perform fresh (request (txt "a") (txt "1.0.0") [])) (txt "a") (txt "2.0.0") b_path).1
    ≡ txt "node_modules/b/node_modules/a"
unfolding place scan slot claim chain_of ancestors parent_package before_last starts_with text_eq
    Map.get Map.insert text_lt
nested = refl

parent_of_c : parent_package c_path ≡ some b_path
unfolding parent_package before_last starts_with
parent_of_c = refl

settled_order : IsSettledOrder settled
unfolding interferes chain_of ancestors parent_package before_last starts_with text_eq
settled_order = ((refl, (refl, tt)), ((refl, tt), (tt, tt)))

chain_of_step_example :
    chain_of c_path ≡ (c_path ++ txt "/node_modules") ∷ chain_above (parent_package c_path)
chain_of_step_example = chain_of_step c_path refl

place_resolves_example :
    resolve (place fresh (txt "a") (txt "2.0.0") c_path).0 (txt "a") (chain_of c_path)
    ≡ some (txt "2.0.0")
place_resolves_example = place_resolves fresh (txt "a") (txt "2.0.0") c_path

run-Resolves_example : All (Resolves (run fresh settled)) settled
run-Resolves_example = run-Resolves fresh settled settled_order

abbrev first_a : Request
first_a = request (txt "a") (txt "1.0.0") c_path

abbrev second_b : Request
second_b = request (txt "b") (txt "2.0.0") b_path

apart : interferes first_a second_b ≡ false
unfolding interferes text_eq
apart = refl

-- A package placed after the packages below it can shadow an edge: `c` shares the root's `a`, then
-- its parent nests its own.
abbrev unsettled : List Request
unsettled =
    request (txt "a") (txt "1.0.0") []
    ∷ request (txt "a") (txt "1.0.0") c_path
    ∷ request (txt "a") (txt "2.0.0") b_path
    ∷ []

shadowed : resolve (run fresh unsettled) (txt "a") (chain_of c_path) ≡ some (txt "2.0.0")
unfolding run resolve place scan slot claim chain_of ancestors parent_package before_last
    starts_with text_eq Map.get Map.insert text_lt
shadowed = refl
