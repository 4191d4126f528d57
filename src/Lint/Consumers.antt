-- ===== src/Lint/Consumers.antt =====
-- What routeConsumers finds.
use mathlib.Core.Logic.{⊎_elim}
use tenancit.Base.{
  suc, ◌≡◌, ◌↔◌, subst, Bool, false, not, length-filter-le, List, [], ◌∷◌, Text, arith, length,
}
use tenancit.Lint.Search.{Search, has, run, start, route_consumers}
use tenancit.Lint.Sound.{
  In, Reached, itself, through, IsConsumer, IsSound, run-IsSound, run_keeps, In-head,
}
use tenancit.Lint.Complete.{IsInner, IsFollowed, run-IsFollowed, start-IsFollowed, In-cases}
use tenancit.Lint.Fuel.{run_ends}

module _ (importers : Text → List Text) (is_test is_route : Text → Bool) (file : Text) where
  start-IsSound : IsSound importers is_test is_route file (start file)
  start-IsSound = record {
    on_stack = λ x h.
        ⊎_elim (λ same. subst (Reached importers is_test is_route file) same itself)
          (λ l. absurd (cc l)) (In-cases x file [] h);
    kept = λ r h. absurd (cc h);
  }

  -- A search that has ended has seen every file that was reached.
  module _ (s : Search) (f : IsFollowed importers is_test is_route file [] s) where
    followed :
        s.stack ≡ []
        → (y i : Text) → In y s.seen
        → IsInner importers is_test is_route y
        → In i (importers y)
        → In i s.seen
    followed e y i h inner m =
        ⊎_elim (λ waits. absurd (cc (subst (In y) e waits)))
          (λ done. ⊎_elim (λ seen. seen) (λ (_, l). absurd (cc l)) (done i m)) (f.closed y h inner)

    Reached-seen :
        s.stack ≡ []
        → In file s.seen
        → IsInner importers is_test is_route file
        → (x : Text) → Reached importers is_test is_route file x
        → In x s.seen × IsInner importers is_test is_route x
    Reached-seen e root inner _ itself = (root, inner)
    Reached-seen e root inner _ (through x i r m p q) =
        let (seen, within) = Reached-seen e root inner x r in (followed e x i seen within m, (p, q))

  -- When the importers of any file are among the files, and the searched file is neither a test
  -- nor a route: the search ends within one turn more than there are files, and it then has found
  -- exactly the routes, tests apart, that import the file or a file that depends on it through
  -- files that are neither tests nor routes.
  pub route_consumers-IsConsumer :
      (files : List Text)
      → ((x i : Text) → In i (importers x) → In i files)
      → is_test file ≡ false
      → is_route file ≡ false
      → (r : Text)
      → ((run importers is_test is_route (suc (length files)) (start file)).stack ≡ [])
        × (In r (route_consumers importers is_test is_route (suc (length files)) file)
            ↔ IsConsumer importers is_test is_route file r)
  unfolding route_consumers
  route_consumers-IsConsumer files known p q r =
      let fuel = suc (length files) in
      let s = run importers is_test is_route fuel (start file) in
      let bound = length-filter-le (λ f. not (has f (file ∷ []))) files in
      let ends = run_ends importers is_test is_route files known fuel (start file) (omega arith) in
      let sound = run-IsSound importers is_test is_route file fuel (start file) start-IsSound in
      let f =
        run-IsFollowed importers is_test is_route file fuel (start file)
          (start-IsFollowed importers is_test is_route file (p, q)) in
      let root = run_keeps importers is_test is_route file fuel (start file) (In-head file []) in
      (
        ends,
        (
          λ h. sound.kept r h,
          λ (x, reach, m, plain, route).
              let (seen, inner) = Reached-seen s f ends root (p, q) x reach in
              f.kept r (followed s f ends x r seen inner m) plain route,
        ),
      )
