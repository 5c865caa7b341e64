-- ===== src/Tests/Navigators.antt =====
-- A navigator over three links.
use podio.Base.{ℕ, ◌≡◌, Text, text_order, List, [], ◌∷◌}
use podio.Navigator.{make_navigator, get_linked_from, get_linked_to}
use podio.Navigator.Laws.{links_from, links_to, make_navigator_lem}

abbrev links : List (Text × Text × ℕ)
links = (1 ∷ [], 8 ∷ [], 10) ∷ (2 ∷ [], 8 ∷ [], 20) ∷ (1 ∷ [], 9 ∷ [], 30) ∷ []

make_navigator_lem_example :
    (get_linked_to text_order text_order (1 ∷ []) (make_navigator text_order text_order links)
      ≡ links_from text_order text_order (1 ∷ []) links)
    × (get_linked_from text_order text_order (8 ∷ []) (make_navigator text_order text_order links)
        ≡ links_to text_order text_order (8 ∷ []) links)
make_navigator_lem_example = make_navigator_lem text_order text_order links (1 ∷ []) (8 ∷ [])
