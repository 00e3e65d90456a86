-- ===== src/ComponentAuth/Route/Tests.antt =====
-- Patterns and routes (component-auth.ts).
use kajovo_cml.Prelude.{ℕ, true, List, [], ◌∷◌, ◌++◌, ◌≡◌, refl, ◌↔◌}
use kajovo_cml.Security.Text.{codes}
use kajovo_cml.ComponentAuth.Route.{route_matches, route_matches-subtree_iff}

route_matches-subtree_iff_example :
    (route_matches (codes "/v1" ++ b'/' ∷ b'*' ∷ []) (codes "/v1/items") ≡ true)
    ↔ ((rest : List ℕ) × (codes "/v1/items" ≡ codes "/v1" ++ b'/' ∷ rest))
route_matches-subtree_iff_example = route_matches-subtree_iff (codes "/v1") (codes "/v1/items") refl
