-- ===== src/Lint/Search.antt =====
-- routeConsumers of web/scripts/lint-colocated-routes.mjs. The importers of a file, and what is a
-- test or a route, are parameters; sets are lists of the files that were added; the stack is a
-- list with its top first. The sort of the result is left out.
use tenancit.Base.{ℕ, zero, suc, Bool, List, [], ◌∷◌, Text, text_eq, any, if◌then◌else◌}

pub record Search : Type 0 where
  pub seen : List Text
  pub routes : List Text
  pub stack : List Text

abbrev pub has : Text → List Text → Bool
has file files = any (λ f. text_eq f file) files

abbrev pub start : Text → Search
start file = record { seen = file ∷ []; routes = []; stack = file ∷ [] }

module _ (importers : Text → List Text) (is_test is_route : Text → Bool) where
  -- One turn of the inner loop.
  unfoldable pub visit : Text → Search → Search
  visit importer s =
      if has importer s.seen
      then s
      else if is_test importer
      then record s { seen = importer ∷ s.seen }
      else if is_route importer
      then record s { seen = importer ∷ s.seen; routes = importer ∷ s.routes }
      else record s { seen = importer ∷ s.seen; stack = importer ∷ s.stack }

  unfoldable pub visit_all : List Text → Search → Search
  visit_all [] s = s
  visit_all (importer ∷ rest) s = visit_all rest (visit importer s)

  -- One turn of the outer loop, on what is popped; without a file on the stack the loop has ended.
  unfoldable pub turn_at : List Text → Search → Search
  turn_at [] s = s
  turn_at (current ∷ stack) s = visit_all (importers current) (record s { stack = stack })

  unfoldable pub turn : Search → Search
  turn s = turn_at s.stack s

  unfoldable pub run : ℕ → Search → Search
  run zero s = s
  run (suc fuel) s = run fuel (turn s)

  unfoldable pub route_consumers : ℕ → Text → List Text
  route_consumers fuel file = Search.routes (run fuel (start file))
