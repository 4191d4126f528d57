-- ===== src/Proto/Tests.antt =====
-- Runs of the prototype, and instances of the theorems.
use tenancit.Base.{
  ℕ, ◌+◌, ◌≡◌, refl, Bool, true, false, List, [], ◌∷◌, map, length, Option, none, some, Text, codes,
  text_eq, is_empty, trim, is_space, All, arith,
}
use tenancit.Proto.Types.{State}
use tenancit.Proto.Store.{
  Platform, uid, seed, commit, change_at, opened, page_of, Store, unparsed, parsed_state, load,
  load_item, find_tenant,
}
use tenancit.Proto.Seed as Seed
use tenancit.Proto.Tenants.{
  remove_resource, without_resource, mutate_tenant, with_resource, add_resource, with_toggled,
  toggle_resource_status,
}
use tenancit.Proto.Catalog.{toggle_api_client}
use tenancit.Proto.Action.{
  Action, perform, perform_all, create_tenant, create_domain, switch_client, switch_resource,
  delete_domain, delete_resource,
}
use tenancit.Proto.Ids.{Numerals}
use tenancit.Proto.Unique.{IsNumberedStore}
use tenancit.Proto.Acts.{perform_all-IsNumberedStore}
use tenancit.Proto.Persist.{load-perform}
use tenancit.Proto.Page.{
  save_resource, picked_def, available, active_keys, required_filled, value_of,
}
use tenancit.Proto.OneActive.{OnePerKind, active_of}
use tenancit.Proto.Visits.{Visit, page_step, page_run, act, resource_form}
use tenancit.Proto.Runs.{page_run-OnePerKind}

abbrev numbers : Platform
numbers = record {
  stringify = λ s. codes "{}";
  parse = λ t. unparsed;
  now = λ n. codes "lx3f";
  decimal = λ n. (n + 48) ∷ [];
  to_lower_case = λ s. s;
}

same_digit : (m n : ℕ) → (m + 48) ∷ [] ≡ (n + 48) ∷ [] → m ≡ n
same_digit m n e = let same : m + 48 ≡ n + 48 = cc in omega arith

abbrev one_digit : Numerals numbers
one_digit = record {
  decimal-injective = same_digit;
  decimal_digits = λ n. ((λ e. absurd (omega arith)), tt);
}

abbrev visits : List (Bool × Action)
visits =
    (true, create_tenant (codes "New tenant") (codes "") (codes "new.test"))
    ∷ ((false, create_domain (codes "t1") (codes "more.test"))
        ∷ ((true, delete_domain (codes "t1") (codes "d1")) ∷ []))

perform_all-IsNumberedStore_example :
    (s : Store) × (opened numbers true none ≡ some s)
    × IsNumberedStore numbers one_digit (perform_all numbers visits s)
perform_all-IsNumberedStore_example = perform_all-IsNumberedStore numbers one_digit visits true

-- A store whose storage gives back the state behind the action.
abbrev switched : State
switched = (perform numbers true (switch_client (codes "c3")) (page_of seed none)).state

abbrev reading : Platform
reading = record numbers { parse = λ t. parsed_state switched }

load-perform_example :
    load reading true (perform reading true (switch_client (codes "c3")) (page_of seed none)).item
    ≡ some (perform reading true (switch_client (codes "c3")) (page_of seed none)).state
unfolding perform toggle_api_client commit load load_item seed is_empty
load-perform_example =
    load-perform reading (switch_client (codes "c3")) (page_of seed none) (refl, refl)

abbrev connection : List (Text × Option Text)
connection =
    (codes "host", some (codes "h"))
    ∷ ((codes "port", some (codes "1"))
        ∷ ((codes "database", some (codes "d"))
            ∷ ((codes "username", some (codes "u")) ∷ ((codes "password", some (codes "p")) ∷ []))))

abbrev page_visits : List (Bool × Visit)
page_visits =
    (true, act (delete_resource (codes "t-acme") (codes "r1")))
    ∷ ((true, resource_form (codes "t-acme") (codes "postgres") connection)
        ∷ ((true, resource_form (codes "t-acme") (codes "postgres") connection) ∷ []))

-- The form adds a resource of the type that was free, and not a second one.
saved :
    map (λ t. length t.resources) (page_run numbers page_visits (page_of seed none)).state.tenants
    ≡ 2 ∷ (1 ∷ (0 ∷ []))
unfolding page_run page_step perform save_resource find_tenant picked_def available active_keys
    required_filled value_of add_resource mutate_tenant change_at with_resource remove_resource
    without_resource commit load load_item seed Seed.tenants Seed.definitions text_eq is_empty trim
    is_space
saved = refl

-- Two active resources of one type: the page's rule is not kept by the switch of a status.
switched_back :
    map
      (λ t. length (active_of (codes "postgres") t.resources))
      (page_run numbers
        ((true, act (switch_resource (codes "t-acme") (codes "r1")))
          ∷ ((true, resource_form (codes "t-acme") (codes "postgres") connection)
              ∷ ((true, act (switch_resource (codes "t-acme") (codes "r1"))) ∷ [])))
        (page_of seed none)).state.tenants
    ≡ 2 ∷ (1 ∷ (0 ∷ []))
unfolding uid page_run page_step perform save_resource find_tenant picked_def available active_keys
    required_filled value_of add_resource mutate_tenant change_at with_resource
    toggle_resource_status with_toggled commit load load_item seed Seed.tenants Seed.definitions
    text_eq is_empty trim is_space
switched_back = refl

page_run-OnePerKind_example :
    (s : Store) × (opened numbers true none ≡ some s)
    × All OnePerKind (page_run numbers page_visits s).state.tenants
page_run-OnePerKind_example = page_run-OnePerKind numbers one_digit page_visits true refl
